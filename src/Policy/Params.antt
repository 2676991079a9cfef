-- ===== src/Policy/Params.antt =====
-- hookParamsMap, accountIdHexToRAddress and the search of getPolicy for the guardrail's parameters in
-- x402-xahau/server.mjs.
use xahc.Prelude.{
  ℕ, ◌-◌, Bool, ◌&&◌, Option, none, some, List, [], ◌∷◌, if◌then◌else◌, leb, ◌==◌, all, length,
}
use xahc.Prelude.Text.{Text, codes}
use xahc.Js.{Value, prop, as_text, as_array, or_value}
use xahc.Amount.Currency.{is_hex}
use xahc.Store.Dict
use xahc.Store.Dict.{Dict}

-- toUpperCase, as far as an upper-case hexadecimal text can come of it: of the other characters only
-- the ligature ff gives such letters alone.
unfoldable pub to_upper : Text → Text
to_upper [] = []
to_upper (c ∷ t) =
    let rest = to_upper t in
    if leb b'a' c && leb c b'z'
    then (c - 32) ∷ rest
    else if c == 0xFB00
    then b'F' ∷ b'F' ∷ rest
    else c ∷ rest

-- /^[0-9a-fA-F]{n}$/
abbrev pub is_hex_of : ℕ → Text → Bool
is_hex_of n t = length t == n && all is_hex t

-- HOOK_PARAM_LIM, HOOK_PARAM_DST, HOOK_PARAM_PLM and HOOK_PARAM_PER
abbrev pub hook_param_lim : Text
hook_param_lim = codes "4C494D"

abbrev pub hook_param_dst : Text
hook_param_dst = codes "445354"

abbrev pub hook_param_plm : Text
hook_param_plm = codes "504C4D"

abbrev pub hook_param_per : Text
hook_param_per = codes "504552"

-- One element, wrapped in { HookParameter } or flat.
add_named : Option Text → Option Text → Dict Text → Dict Text
add_named none value m = m
add_named (some name) none m = m
add_named (some name) (some value) m = Dict.set (to_upper name) (to_upper value) m

add_param : Value → Dict Text → Dict Text
unfolding add_named
add_param el m =
    let p = or_value (prop "HookParameter" el) el in
    add_named (as_text (prop "HookParameterName" p)) (as_text (prop "HookParameterValue" p)) m

unfoldable pub add_params : List Value → Dict Text → Dict Text
unfolding add_param
add_params [] m = m
add_params (el ∷ els) m = add_params els (add_param el m)

params_of : Option (List Value) → Dict Text
params_of none = []
params_of (some els) = add_params els []

unfoldable pub hook_params_map : Value → Dict Text
unfolding params_of
hook_params_map hook = params_of (as_array (prop "HookParameters" hook))

-- The guardrail's parameters, as their hexadecimal texts; an empty text counts as absent.
pub record Guardrail : Type 0 where
  pub lim : Text
  pub dst : Option Text
  pub plm : Option Text
  pub per : Option Text
  pub namespace_id : Option Text

nonempty : Option Text → Option Text
nonempty none = none
nonempty (some t) = if length t == 0 then none else some t

hash_256 : Option Text → Option Text
hash_256 none = none
hash_256 (some t) = if is_hex_of 64 t then some (to_upper t) else none

guardrail_with : Value → Dict Text → Option Text → Option Guardrail
guardrail_with c params none = none
guardrail_with c params (some lim) = some (record {
  lim = lim;
  dst = nonempty (Dict.get hook_param_dst params);
  plm = nonempty (Dict.get hook_param_plm params);
  per = nonempty (Dict.get hook_param_per params);
  namespace_id = hash_256 (as_text (prop "HookNamespace" c));
})

unfoldable pub guardrail_of : Value → Option Guardrail
unfolding guardrail_with nonempty hash_256
guardrail_of c =
    let params = hook_params_map c in guardrail_with c params (Dict.get hook_param_lim params)

-- The first of two searches that found something.
or_found : Option Guardrail → Option Guardrail → Option Guardrail
or_found none o = o
or_found (some g) o = some g

unfoldable pub nested : List Value → Option Guardrail
unfolding or_found
nested [] = none
nested (hook ∷ hooks) =
    let rest = nested hooks in or_found (guardrail_of (or_value (prop "Hook" hook) hook)) rest

nested_in : Option (List Value) → Option Guardrail
nested_in none = none
nested_in (some hooks) = nested hooks

-- The first candidate with a LIM parameter: an object of the ledger, or a Hook nested in one.
unfoldable pub find_guardrail : List Value → Option Guardrail
unfolding or_found nested_in
find_guardrail [] = none
find_guardrail (h ∷ hs) =
    let rest = find_guardrail hs in
    or_found (guardrail_of h) (or_found (nested_in (as_array (prop "Hooks" h))) rest)

-- encodeAccountID of the address codec, which is not there (`none`) or throws (`none` at a text).
abbrev pub AddressCodec : Type 0
AddressCodec = Option (Text → Option Text)

encoded : AddressCodec → Text → Option Text
encoded none hex = none
encoded (some encode) hex = encode hex

unfoldable pub account_id_hex_to_r_address : AddressCodec → Text → Option Text
unfolding encoded
account_id_hex_to_r_address codec hex = if is_hex_of 40 hex then encoded codec hex else none

locked_to : Option Text → List Text
locked_to none = []
locked_to (some address) = if length address == 0 then [] else address ∷ []

-- The allowlist of a destination lock: empty if the lock cannot be decoded.
unfoldable pub allowlist_of : AddressCodec → Option Text → Option (List Text)
unfolding locked_to
allowlist_of codec none = none
allowlist_of codec (some hex) = some (locked_to (account_id_hex_to_r_address codec hex))
