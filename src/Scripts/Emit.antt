-- ===== src/Scripts/Emit.antt =====
-- scripts/verify-emit.mjs: the check of an emitted transaction against the codec.
pub mod Padding
use xahc.Prelude.{
  ℕ, zero, suc, ◌+◌, ◌-◌, ◌*◌, ◌≤◌, ◌<◌, ◌≡◌, ◌↔◌, refl, sym, ap, ◌∙◌, Bool, true, false, not, ◌&&◌,
  ◌||◌, Option, none, some, List, [], ◌∷◌, ◌++◌, arith, ltb, leb, ◌==◌, if◌then◌else◌, all, length,
  take, drop, map, Bool-cases, Option-cases, inl, inr,
}
use xahc.Prelude.Text.{Text, codes, text_eq}
use xahc.Prelude.Search.{starts_with}
use xahc.Digits.{is_digit}
use xahc.Js.{
  Value, undefined, null, bool, num, str, arr, obj, Items, item, no_items, prop, as_text, is_truthy,
}
use xahc.Client.{trim}

-- toUpperCase, on ASCII.
abbrev upper : ℕ → ℕ
upper c = if leb b'a' c && leb c b'z' then c - 32 else c

-- [0-9A-F]
abbrev is_hex_digit : ℕ → Bool
is_hex_digit c = is_digit c || leb b'A' c && leb c b'F'

-- (argv[2] || "").trim().toUpperCase(), if it is of hexadecimal digits.
unfoldable pub read_hex : Option Text → Option Text
read_hex none = none
read_hex (some arg) =
    let hex = map upper (trim arg) in
    if not (length hex == 0) && all is_hex_digit hex then some hex else none

-- hex.slice(a, b)
abbrev slice : ℕ → ℕ → Text → Text
slice a b t = take (b - a) (drop a t)

-- hex.slice(end - 2, end) === "00", where there are two digits
abbrev pub ends_in_zeros : Text → ℕ → Bool
ends_in_zeros hex end = leb 2 end && text_eq (slice (end - 2) end hex) (codes "00")

-- The loop that takes zero bytes off; every turn takes two digits off the end, so the length is fuel
-- enough.
unfoldable pub trimmed_end : ℕ → Text → ℕ → ℕ
trimmed_end zero hex end = end
trimmed_end (suc fuel) hex end =
    let rest = trimmed_end fuel hex (end - 2) in if ends_in_zeros hex end then rest else end

unfoldable pub without_padding : Text → Text
without_padding hex = take (trimmed_end (length hex) hex (length hex)) hex

-- /^\d+$/
abbrev all_digits : Text → Bool
all_digits t = not (length t == 0) && all is_digit t

abbrev is_drops_text : Option Text → Bool
is_drops_text none = false
is_drops_text (some t) = all_digits t

-- /^r/.test(v || ""); an array is the text of its items.
abbrev starts_in_r : Value → Bool
starts_in_r (str t) = starts_with (codes "r") t
starts_in_r (arr no_items) = false
starts_in_r (arr (item v rest)) = starts_in_r v
starts_in_r undefined = false
starts_in_r null = false
starts_in_r (bool b) = false
starts_in_r (num n) = false
starts_in_r (obj fs) = false

-- The checks of the decoded transaction.
unfoldable pub checks : Value → List Bool
checks json =
    is_truthy (prop "TransactionType" json)
    ∷ is_drops_text (as_text (prop "Amount" json))
    ∷ starts_in_r (prop "Account" json)
    ∷ starts_in_r (prop "Destination" json)
    ∷ []

abbrev pub count_failed : List Bool → ℕ
count_failed [] = 0
count_failed (b ∷ bs) = let rest = count_failed bs in if b then rest else suc rest

-- The exit code. `decode` is the codec's: an exception, or the fields.
exit_decoded : Option Value → ℕ
exit_decoded none = 2
exit_decoded (some json) = if count_failed (checks json) == 0 then 0 else 3

exit_hex : (Text → Option Value) → Option Text → ℕ
unfolding exit_decoded
exit_hex decode none = 1
exit_hex decode (some hex) = exit_decoded (decode (without_padding hex))

unfoldable pub exit_code : (Text → Option Value) → Option Text → ℕ
unfolding exit_hex
exit_code decode arg = exit_hex decode (read_hex arg)
