-- ===== src/Hooks.antt =====
-- The transparency fields of x402-xahau/server.mjs: decodeHookReturnString and decodeHookExecutions.
-- The decoding of UTF-8 (Buffer) is a parameter; texts are lists of code units.
use xahc.Prelude.{
  ℕ, ◌%◌, ◌≤◌, Bool, not, ◌&&◌, ◌||◌, Option, none, some, List, [], ◌∷◌, leb, ◌==◌, if◌then◌else◌,
  all, length, take, arith, Option-cases, inl, inr, Bool-cases, zero, suc,
}
use xahc.Prelude.Text.{Text}
use xahc.Js.{Number, nat, other, Value, prop, as_text, as_array, is_object, is_nullish, to_number}
use xahc.Amount.Currency.{is_hex}

abbrev pub max_hook_executions : ℕ
max_hook_executions = 16

abbrev pub max_hook_returnstring_chars : ℕ
max_hook_returnstring_chars = 256

-- Not one of [\u0000-\u001F\u007F-\u009F]
abbrev printable : ℕ → Bool
printable c = not (leb c 31 || leb 127 c && leb c 159)

abbrev pub strip_controls : Text → Text
strip_controls [] = []
strip_controls (c ∷ t) = if printable c then c ∷ strip_controls t else strip_controls t

-- `utf8` reads hexadecimal digits as the UTF-8 text of their bytes; `none` is a throw.
abbrev pub Utf8 : Type 0
Utf8 = Text → Option Text

return_text : Utf8 → Text → Text
return_text utf8 hex =
    if length hex == 0 || not (length hex % 2 == 0 && all is_hex hex) then [] else elim (utf8 hex) [
      | none ↦ []
      | some s ↦ take max_hook_returnstring_chars (strip_controls s)
    ]

unfoldable pub decode_hook_return_string : Utf8 → Value → Text
unfolding return_text
decode_hook_return_string utf8 v = elim (as_text v) [ none ↦ [] | some hex ↦ return_text utf8 hex ]

pub record Execution : Type 0 where
  pub hook_account : Text
  pub hook_hash : Text
  pub return_code : Option ℕ
  pub return_string : Text
  pub emit_count : Option ℕ
  pub flags : Option ℕ

finite : Number → Option ℕ
finite (nat n) = some n
finite other = none

-- Number(v), if v is neither null nor undefined and the number is finite.
number_of : Value → Option ℕ
unfolding finite
number_of v = if is_nullish v then none else finite (to_number v)

or_empty : Option Text → Text
or_empty none = []
or_empty (some t) = t

-- { HookExecution: {...} } or a bare object.
execution_object : Value → Option Value
execution_object entry =
    if not (is_object entry)
    then none
    else if is_object (prop "HookExecution" entry)
    then some (prop "HookExecution" entry)
    else some entry

decode_execution : Utf8 → Value → Execution
unfolding or_empty number_of
decode_execution utf8 he = record {
  hook_account = or_empty (as_text (prop "HookAccount" he));
  hook_hash = take 16 (or_empty (as_text (prop "HookHash" he)));
  return_code = number_of (prop "HookReturnCode" he);
  return_string = decode_hook_return_string utf8 (prop "HookReturnString" he);
  emit_count = number_of (prop "HookEmitCount" he);
  flags = number_of (prop "Flags" he);
}

-- The loop, with the room that is left.
unfoldable pub decode_entries : Utf8 → ℕ → List Value → List Execution
unfolding execution_object decode_execution
decode_entries utf8 zero es = []
decode_entries utf8 (suc n) [] = []
decode_entries utf8 (suc n) (e ∷ es) = elim (execution_object e) [
  | none ↦ decode_entries utf8 (suc n) es
  | some he ↦ decode_execution utf8 he ∷ decode_entries utf8 n es
]

unfoldable pub decode_hook_executions : Utf8 → Value → List Execution
decode_hook_executions utf8 meta = elim (as_array (prop "HookExecutions" meta)) [
  | none ↦ []
  | some raw ↦ decode_entries utf8 max_hook_executions raw
]

length-take_le {ℓ} : {A : Type ℓ} (n : ℕ) (xs : List A) → length (take n xs) ≤ n
length-take_le zero xs = omega arith
length-take_le (suc n) [] = omega arith
length-take_le (suc n) (x ∷ xs) = omega (arith, length-take_le n xs)

return_text-length :
    (utf8 : Utf8) (t : Text) → length (return_text utf8 t) ≤ max_hook_returnstring_chars
unfolding return_text
return_text-length utf8 t =
    elim (Bool-cases (length t == 0 || not (length t % 2 == 0 && all is_hex t))) [
      | inl e ↦ rw e (omega arith)
      | inr e ↦ elim (Option-cases (utf8 t)) [
        | inl f ↦ rw (e, f) (omega arith)
        | inr (s, f) ↦ rw (e, f) (length-take_le max_hook_returnstring_chars (strip_controls s))
      ]
    ]

-- Whatever the node returns, a decoded return string has at most 256 code units.
pub decode_hook_return_string-length :
    (utf8 : Utf8) (v : Value)
    → length (decode_hook_return_string utf8 v) ≤ max_hook_returnstring_chars
unfolding decode_hook_return_string
decode_hook_return_string-length utf8 v = elim (Option-cases (as_text v)) [
  | inl e ↦ rw (e, decode_hook_return_string) (omega arith)
  | inr (t, e) ↦ rw (e, decode_hook_return_string) (return_text-length utf8 t)
]

decode_entries-length :
    (utf8 : Utf8) (n : ℕ) (es : List Value) → length (decode_entries utf8 n es) ≤ n
unfolding decode_entries
decode_entries-length utf8 zero es = omega arith
decode_entries-length utf8 (suc n) [] = omega arith
decode_entries-length utf8 (suc n) (e ∷ es) =
    ground (arith, decode_entries-length utf8 n es, decode_entries-length utf8 (suc n) es)

-- Whatever the node returns, at most 16 executions are reported.
pub decode_hook_executions-length :
    (utf8 : Utf8) (meta : Value) → length (decode_hook_executions utf8 meta) ≤ max_hook_executions
unfolding decode_hook_executions
decode_hook_executions-length utf8 meta =
    elim (Option-cases (as_array (prop "HookExecutions" meta))) [
      | inl e ↦ ground (arith, e)
      | inr (raw, e) ↦ ground (arith, e, decode_entries-length utf8 max_hook_executions raw)
    ]
