-- ===== src/Prelude/Search.antt =====
-- Searches in texts: startsWith, and regular expressions that are a word, without regard to case.
use Prim.Native.Nat.{◌+◌}
use mathlib.Core.Bool.{Bool, true, false, ◌&&◌, ◌||◌}
use mathlib.Core.List.{[], ◌∷◌}
use xahc.Prelude.Tests.{◌==◌, leb, if◌then◌else◌}
use xahc.Prelude.Text.{Text}

-- The text starts with the prefix.
abbrev pub starts_with : Text → Text → Bool
starts_with [] t = true
starts_with (c ∷ p) [] = false
starts_with (c ∷ p) (d ∷ t) = c == d && starts_with p t

lower : Text → Text
lower [] = []
lower (c ∷ t) = (if leb b'A' c && leb c b'Z' then c + 32 else c) ∷ lower t

contains : Text → Text → Bool
contains p [] = starts_with p []
contains p (c ∷ t) = let rest = contains p t in starts_with p (c ∷ t) || rest

-- /word/i, for a word in lower case.
unfoldable pub matches_word : Text → Text → Bool
unfolding lower contains
matches_word word t = contains word (lower t)
