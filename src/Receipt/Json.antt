-- ===== src/Receipt/Json.antt =====
-- canonicalJSONStringify of x402-xahau/server.mjs: keys sorted, no white space.
use xahc.Prelude.{
  ℕ, ◌+◌, ◌/◌, ◌%◌, Bool, true, false, ◌&&◌, ◌||◌, Option, none, some, List, [], ◌∷◌, ◌++◌,
  if◌then◌else◌, ltb, leb, ◌==◌,
}
use xahc.Prelude.Text.{Text, codes}
use xahc.Digits.{decimal}
use xahc.Js.{
  Number, nat, other, Value, Items, Fields, undefined, null, bool, num, str, arr, obj, no_items,
  item, end, field,
}

-- A digit of \uXXXX.
abbrev hex_digit : ℕ → ℕ
hex_digit n = if ltb n 10 then 48 + n else 87 + n

abbrev unicode_escape : ℕ → Text
unicode_escape c =
    92
    ∷ b'u'
    ∷ hex_digit (c / 4096 % 16)
    ∷ hex_digit (c / 256 % 16)
    ∷ hex_digit (c / 16 % 16)
    ∷ hex_digit (c % 16)
    ∷ []

abbrev is_high : ℕ → Bool
is_high c = leb 0xd800 c && leb c 0xdbff

abbrev is_low : ℕ → Bool
is_low c = leb 0xdc00 c && leb c 0xdfff

-- One code unit inside the quotes of JSON.stringify.
escape : ℕ → Text
escape c =
    if c == 34
    then 92 ∷ 34 ∷ []
    else if c == 92
    then 92 ∷ 92 ∷ []
    else if c == 8
    then 92 ∷ b'b' ∷ []
    else if c == 9
    then 92 ∷ b't' ∷ []
    else if c == 10
    then 92 ∷ b'n' ∷ []
    else if c == 12
    then 92 ∷ b'f' ∷ []
    else if c == 13
    then 92 ∷ b'r' ∷ []
    else if ltb c 32 || is_high c || is_low c
    then unicode_escape c
    else c ∷ []

-- A surrogate pair stays; a lone surrogate is escaped.
escape_all : Text → Text
unfolding escape
escape_all [] = []
escape_all (c ∷ []) = escape c
escape_all (c ∷ d ∷ t) =
    let pair = c ∷ d ∷ escape_all t in
    let single = escape c ++ escape_all (d ∷ t) in if is_high c && is_low d then pair else single

unfoldable pub quote : Text → Text
unfolding escape_all
quote t = 34 ∷ (escape_all t ++ 34 ∷ [])

-- The order of Array.prototype.sort on texts.
text_lt : Text → Text → Bool
text_lt a [] = false
text_lt [] (d ∷ b) = true
text_lt (c ∷ a) (d ∷ b) = ltb c d || (c == d && text_lt a b)

-- A member of an object, with the text of its value.
abbrev Member : Type 0
Member = Text × Text

insert_member : Member → List Member → List Member
unfolding text_lt
insert_member m [] = m ∷ []
insert_member m (n ∷ ns) = if text_lt n.0 m.0 then n ∷ insert_member m ns else m ∷ n ∷ ns

sort_members : List Member → List Member
unfolding insert_member
sort_members [] = []
sort_members (m ∷ ms) = insert_member m (sort_members ms)

join : List Text → Text
join [] = []
join (t ∷ []) = t
join (t ∷ u ∷ ts) = t ++ (b',' ∷ join (u ∷ ts))

abbrev member_text : Member → Text
member_text m = quote m.0 ++ (b':' ∷ m.1)

member_texts : List Member → List Text
member_texts [] = []
member_texts (m ∷ ms) = member_text m ∷ member_texts ms

unfoldable pub object_text : List Member → Text
unfolding sort_members member_texts join
object_text ms = b'{' ∷ (join (member_texts (sort_members ms)) ++ b'}' ∷ [])

abbrev array_text : List Text → Text
array_text ts = b'[' ∷ (join ts ++ b']' ∷ [])

number_text : Number → Option Text
number_text (nat n) = some (decimal n)
number_text other = none

-- `none` is a throw: undefined, and a number that is not finite. A number that is no natural number
-- is taken for one of those.
unfoldable mutual
  unfolding number_text join

  pub canonical_json : Value → Option Text
  canonical_json undefined = none
  canonical_json null = some (codes "null")
  canonical_json (bool true) = some (codes "true")
  canonical_json (bool false) = some (codes "false")
  canonical_json (num n) = number_text n
  canonical_json (str t) = some (quote t)
  canonical_json (arr xs) = elim (item_texts xs) [ none ↦ none | some ts ↦ some (array_text ts) ]
  canonical_json (obj fs) = elim (field_members fs) [
    | none ↦ none
    | some ms ↦ some (object_text ms)
  ]

  pub item_texts : Items → Option (List Text)
  item_texts no_items = some []
  item_texts (item v xs) =
      let rest = item_texts xs in
      elim (canonical_json v) [
        | none ↦ none
        | some t ↦ elim rest [ none ↦ none | some ts ↦ some (t ∷ ts) ]
      ]

  -- Members whose value is undefined are dropped.
  pub field_members : Fields → Option (List Member)
  field_members end = some []
  field_members (field k undefined fs) = field_members fs
  field_members (field k v fs) =
      let rest = field_members fs in
      elim (canonical_json v) [
        | none ↦ none
        | some t ↦ elim rest [ none ↦ none | some ms ↦ some ((codes k, t) ∷ ms) ]
      ]
