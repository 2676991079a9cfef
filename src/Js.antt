-- ===== src/Js.antt =====
-- JavaScript values as x402-xahau/server.mjs meets them: parsed JSON requests, amounts of decoded
-- transactions and answers of a node. A number is a natural number or `other` (negative,
-- fractional, infinite or NaN): every number that the modelled code computes with is an unsigned
-- integer of the ledger's serialisation, and `other` fails every test that it makes.
use text.Mathlib.Text.{◌==◌ as key_eq}
use xahc.Prelude.{
  ℕ, String, Bool, true, false, Option, none, some, List, [], ◌∷◌, if◌then◌else◌, ◌==◌, all, length,
}
use xahc.Prelude.Text.{Text}
use xahc.Digits.{is_digit, value_of}

pub data Number : Type 0 where
  nat : ℕ → Number
  other : Number

mutual
  pub data Value : Type 0 where
    undefined : Value
    null : Value
    bool : Bool → Value
    num : Number → Value
    str : Text → Value
    arr : Items → Value
    obj : Fields → Value

  pub data Fields : Type 0 where
    end : Fields
    field : String → Value → Fields → Fields

  pub data Items : Type 0 where
    no_items : Items
    item : Value → Items → Items

-- The value of a key of an object, `undefined` if there is none.
abbrev pub field_of : String → Fields → Value
field_of k end = undefined
field_of k (field j v fs) = if key_eq j k then v else field_of k fs

-- `v.k`, and `v?.k` where v may be null or undefined. Every key that the code names is a data
-- property of parsed JSON, so a value that is no object has none of them.
abbrev pub prop : String → Value → Value
prop k (obj fs) = field_of k fs
prop k undefined = undefined
prop k null = undefined
prop k (bool b) = undefined
prop k (num n) = undefined
prop k (str t) = undefined
prop k (arr xs) = undefined

abbrev pub elements : Items → List Value
elements no_items = []
elements (item v xs) = v ∷ elements xs

-- typeof v === "string"
abbrev pub as_text : Value → Option Text
as_text (str t) = some t
as_text undefined = none
as_text null = none
as_text (bool b) = none
as_text (num n) = none
as_text (arr xs) = none
as_text (obj fs) = none

-- Array.isArray(v)
abbrev pub as_array : Value → Option (List Value)
as_array (arr xs) = some (elements xs)
as_array undefined = none
as_array null = none
as_array (bool b) = none
as_array (num n) = none
as_array (str t) = none
as_array (obj fs) = none

-- v !== null && typeof v === "object"
abbrev pub is_object : Value → Bool
is_object (obj fs) = true
is_object (arr xs) = true
is_object undefined = false
is_object null = false
is_object (bool b) = false
is_object (num n) = false
is_object (str t) = false

-- v !== null && typeof v === "object" && !Array.isArray(v)
abbrev pub is_plain_object : Value → Bool
is_plain_object (obj fs) = true
is_plain_object (arr xs) = false
is_plain_object undefined = false
is_plain_object null = false
is_plain_object (bool b) = false
is_plain_object (num n) = false
is_plain_object (str t) = false

-- v == null
abbrev pub is_nullish : Value → Bool
is_nullish undefined = true
is_nullish null = true
is_nullish (bool b) = false
is_nullish (num n) = false
is_nullish (str t) = false
is_nullish (arr xs) = false
is_nullish (obj fs) = false

-- a ?? b
abbrev pub or_else : Value → Value → Value
or_else a b = if is_nullish a then b else a

digits_number : Text → Number
digits_number t = if all is_digit t then nat (value_of t) else other

-- Number(v). Of texts only the empty one and decimal digits have a value here.
unfoldable pub to_number : Value → Number
unfolding digits_number
to_number (num n) = n
to_number (str t) = digits_number t
to_number null = nat 0
to_number (bool b) = nat (if b then 1 else 0)
to_number undefined = other
to_number (arr xs) = other
to_number (obj fs) = other

-- Number.isInteger(n) && n > 0
abbrev pub positive_integer : Number → Option ℕ
positive_integer other = none
positive_integer (nat n) = if n == 0 then none else some n

-- a || b, on parsed JSON, which holds no NaN.
abbrev pub is_truthy : Value → Bool
is_truthy undefined = false
is_truthy null = false
is_truthy (bool b) = b
is_truthy (num other) = true
is_truthy (num (nat n)) = if n == 0 then false else true
is_truthy (str t) = if length t == 0 then false else true
is_truthy (arr xs) = true
is_truthy (obj fs) = true

abbrev pub or_value : Value → Value → Value
or_value a b = if is_truthy a then a else b
