-- ===== src/Client.antt =====
-- clientIp of x402-xahau/server.mjs: the key of the rate limiter, from the peer's address and the
-- header X-Forwarded-For.
use xahc.Prelude.{
  ℕ, zero, suc, ◌+◌, ◌-◌, ◌<◌, ◌≡◌, refl, ap, sym, ◌∙◌, Bool, ◌||◌, ◌&&◌, Option, none, some, List,
  [], ◌∷◌, ◌++◌, if◌then◌else◌, ltb, leb, ◌==◌, length, length-append, arith, Bool-cases, inl, inr,
  lt→ltb,
}
use xahc.Prelude.Text.{Text, codes}

-- The characters that String.prototype.trim removes.
abbrev is_space : ℕ → Bool
is_space c =
    leb 9 c && leb c 13
    || (c == 32
        || (c == 160
            || (c == 5760
                || (leb 8192 c && leb c 8202
                    || (c == 8232
                        || (c == 8233
                            || (c == 8239 || (c == 8287 || (c == 12288 || c == 65279)))))))))

trim_start : Text → Text
trim_start [] = []
trim_start (c ∷ t) = if is_space c then trim_start t else c ∷ t

-- Without the white space at the end: what is left is empty, or ends with another character.
trim_end : Text → Text
trim_end [] = []
trim_end (c ∷ t) = let rest = trim_end t in if is_space c && length rest == 0 then [] else c ∷ rest

unfoldable pub trim : Text → Text
unfolding trim_start trim_end
trim t = trim_end (trim_start t)

push : ℕ → List Text → List Text
push c [] = (c ∷ []) ∷ []
push c (p ∷ ps) = (c ∷ p) ∷ ps

-- split(",")
split_commas : Text → List Text
unfolding push
split_commas [] = [] ∷ []
split_commas (c ∷ t) = let rest = split_commas t in if c == b',' then [] ∷ rest else push c rest

-- .map(trim).filter(nonempty)
trimmed : List Text → List Text
trimmed [] = []
trimmed (p ∷ ps) = let rest = trimmed ps in if length (trim p) == 0 then rest else trim p ∷ rest

unfoldable pub parts : Text → List Text
unfolding split_commas trimmed
parts xff = trimmed (split_commas xff)

get_elem? : List Text → ℕ → Option Text
get_elem? [] i = none
get_elem? (p ∷ ps) zero = some p
get_elem? (p ∷ ps) (suc i) = get_elem? ps i

-- The entry with `hops` entries to its right.
from_right : ℕ → List Text → Option Text
unfolding get_elem?
from_right hops ps = if ltb hops (length ps) then get_elem? ps (length ps - 1 - hops) else none

or_text : Option Text → Text → Text
or_text none t = t
or_text (some ip) t = ip

socket_address : Option Text → Text
socket_address none = codes "unknown"
socket_address (some a) = if length a == 0 then codes "unknown" else a

forwarded : Text → ℕ → Option Text → Text
unfolding or_text from_right
forwarded socket hops none = socket
forwarded socket hops (some xff) =
    if length xff == 0 then socket else or_text (from_right hops (parts xff)) socket

unfoldable pub client_ip : Option Text → Option Text → ℕ → Text
unfolding socket_address forwarded
client_ip socket xff hops =
    if hops == 0 then socket_address socket else forwarded (socket_address socket) hops xff

push-append :
    (c : ℕ) (a : Text) (ps qs : List Text) → push c ((a ∷ ps) ++ qs) ≡ push c (a ∷ ps) ++ qs
unfolding push
push-append c a ps qs = refl

split_commas_cons : (t : Text) → (a : Text) × (ps : List Text) × (split_commas t ≡ a ∷ ps)
unfolding split_commas
split_commas_cons [] = ([], [], refl)
split_commas_cons (c ∷ t) =
    let (a, ps, e) = split_commas_cons t in
    elim (Bool-cases (c == b',')) [
      | inl h ↦ ([], split_commas t, rw h refl)
      | inr h ↦ (c ∷ a, ps, rw (h, e) refl)
    ]

split_commas-append : (p q : Text) → split_commas (p ++ b',' ∷ q) ≡ split_commas p ++ split_commas q
unfolding split_commas
split_commas-append [] q = refl
split_commas-append (c ∷ p) q =
    let (a, ps, e) = split_commas_cons p in
    elim (Bool-cases (c == b',')) [
      | inl h ↦ rw (h, split_commas-append p q) refl
      | inr h ↦ rw (h, split_commas-append p q, e) refl
    ]

trimmed-append : (ps qs : List Text) → trimmed (ps ++ qs) ≡ trimmed ps ++ trimmed qs
unfolding trimmed
trimmed-append [] qs = refl
trimmed-append (p ∷ ps) qs = elim (Bool-cases (length (trim p) == 0)) [
  | inl h ↦ rw (h, trimmed-append ps qs) refl
  | inr h ↦ rw (h, trimmed-append ps qs) refl
]

get_elem-append :
    (ps qs : List Text) (i j : ℕ) → j ≡ length ps + i → get_elem? (ps ++ qs) j ≡ get_elem? qs i
unfolding get_elem?
get_elem-append [] qs i j h = ap (get_elem? qs) (omega (arith, h))
get_elem-append (p ∷ ps) qs i zero h = absurd (omega (arith, h))
get_elem-append (p ∷ ps) qs i (suc j) h = get_elem-append ps qs i j (omega (arith, h))

from_right-append :
    (hops : ℕ) (ps qs : List Text)
    → hops < length qs
    → from_right hops (ps ++ qs) ≡ from_right hops qs
unfolding from_right
from_right-append hops ps qs h =
    let total = length-append ps qs in
    rw (lt→ltb hops (length (ps ++ qs)) (omega (arith, total)), lt→ltb hops (length qs) h)
      (get_elem-append ps qs (length qs - 1 - hops) (length (ps ++ qs) - 1 - hops)
        (omega (arith, total)))

no_parts : parts [] ≡ []
unfolding parts trim
no_parts = refl

forwarded_cons :
    (socket t : Text) (hops : ℕ)
    → 0 < length t
    → forwarded socket hops (some t) ≡ or_text (from_right hops (parts t)) socket
unfolding forwarded
forwarded_cons socket t hops h = elim (Bool-cases (length t == 0)) [
  | inl e ↦ absurd (ground (arith, e))
  | inr e ↦ rw e refl
]

-- With at least one trusted hop, what a client puts in front of the header does not change the key, if
-- the rest has more entries than there are trusted hops.
pub client_ip_forged :
    (socket : Option Text) (forged rest : Text) (hops : ℕ)
    → 0 < hops
    → hops < length (parts rest)
    → client_ip socket (some (forged ++ b',' ∷ rest)) hops ≡ client_ip socket (some rest) hops
unfolding client_ip parts
client_ip_forged socket forged [] hops p h = absurd (omega (arith, h, ap length no_parts))
client_ip_forged socket forged (c ∷ rest) hops p h =
    let joined : parts (forged ++ b',' ∷ c ∷ rest) ≡ parts forged ++ parts (c ∷ rest) =
      ap trimmed (split_commas-append forged (c ∷ rest))
      ∙ trimmed-append (split_commas forged) (split_commas (c ∷ rest)) in
    let same =
      ap (from_right hops) joined ∙ from_right-append hops (parts forged) (parts (c ∷ rest)) h in
    let header = length-append forged (b',' ∷ c ∷ rest) in
    let address = socket_address socket in
    elim (Bool-cases (hops == 0)) [
      | inl e ↦ absurd (ground (arith, e))
      | inr e ↦ rw e (
          forwarded_cons address (forged ++ b',' ∷ c ∷ rest) hops (omega (arith, header))
          ∙ ap (λ o. or_text o address) same
          ∙ sym (forwarded_cons address (c ∷ rest) hops (omega arith)))
    ]
