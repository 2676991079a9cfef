-- ===== src/Node.antt =====
-- What x402-xahau/server.mjs asks of a Xahau node, and how it reads the answers. The node is a
-- parameter: a request is answered by JSON, or throws (`none`).
use xahc.Prelude.{
  ℕ, Bool, false, not, Option, none, some, List, [], ◌∷◌, if◌then◌else◌, ◌==◌, length,
}
use xahc.Prelude.Text.{Text}
use xahc.Js.{
  Number, nat, other, Value, undefined, prop, or_else, as_array, as_text, is_object, to_number,
  positive_integer,
}

-- The requests, by command and arguments; an account is the text of the transaction, if it has one.
pub data Request : Type 0 where
  ledger : Request
  hook_objects : Option Text → Request
  account_info : Option Text → Request
  account_info_signer_lists : Option Text → Request
  signer_list_objects : Option Text → Request

abbrev pub Node : Type 0
Node = Request → Option Value

-- r?.result
abbrev pub result_of : Option Value → Value
result_of none = undefined
result_of (some r) = prop "result" r

unfoldable pub positive : Number → Option ℕ
positive other = none
positive (nat n) = if n == 0 then none else some n

-- The validated ledger's index, or null.
unfoldable pub current_validated_ledger : Node → Option ℕ
unfolding positive
current_validated_ledger node =
    let r = result_of (node ledger) in
    positive (to_number (or_else (prop "ledger_index" r) (prop "ledger_index" (prop "ledger" r))))

hooks_in : Option (List Value) → Bool
hooks_in none = false
hooks_in (some objs) = not (length objs == 0)

-- Whether a Hook is installed; `none` is null, a request that threw.
unfoldable pub guardrail_hook_present : Node → Option Text → Option Bool
unfolding hooks_in
guardrail_hook_present node account = elim (node (hook_objects account)) [
  | none ↦ none
  | some r ↦ some (hooks_in (as_array (prop "account_objects" (prop "result" r))))
]

-- account_data, if it is an object.
unfoldable pub fetch_account_root : Node → Option Text → Option Value
fetch_account_root node account =
    let root = prop "account_data" (result_of (node (account_info account))) in
    if is_object root then some root else none

pub data SignerList : Type 0 where
  unread no_signer_list multiple_signer_lists malformed_signer_list : SignerList
  signer_list : ℕ → List (Text × ℕ) → SignerList

-- One SignerEntry: its account and weight.
read_entry : Value → Option (Text × ℕ)
read_entry e = elim (as_text (prop "Account" (prop "SignerEntry" e))) [
  | none ↦ none
  | some account ↦
      elim (positive_integer (to_number (prop "SignerWeight" (prop "SignerEntry" e)))) [
        | none ↦ none
        | some weight ↦ some (account, weight)
      ]
]

unfoldable pub read_entries : List Value → Option (List (Text × ℕ))
unfolding read_entry
read_entries [] = some []
read_entries (e ∷ es) =
    let rest = read_entries es in
    elim (read_entry e) [
      | none ↦ none
      | some s ↦ elim rest [ none ↦ none | some ss ↦ some (s ∷ ss) ]
    ]

signers_of : ℕ → Option (List (Text × ℕ)) → SignerList
signers_of quorum none = malformed_signer_list
signers_of quorum (some []) = malformed_signer_list
signers_of quorum (some (s ∷ ss)) = signer_list quorum (s ∷ ss)

one_list : Value → SignerList
unfolding signers_of
one_list l = elim (positive_integer (to_number (prop "SignerQuorum" l))) [
  | none ↦ malformed_signer_list
  | some quorum ↦ elim (as_array (prop "SignerEntries" l)) [
    | none ↦ malformed_signer_list
    | some entries ↦ signers_of quorum (read_entries entries)
  ]
]

unfoldable pub read_lists : List Value → SignerList
unfolding one_list
read_lists [] = no_signer_list
read_lists (l ∷ []) = one_list l
read_lists (l ∷ m ∷ rest) = multiple_signer_lists

list_objects : Node → Option Text → SignerList
list_objects node account =
    elim (as_array (prop "account_objects" (result_of (node (signer_list_objects account))))) [
      | none ↦ unread
      | some lists ↦ read_lists lists
    ]

-- account_info with signer_lists, and account_objects where that gives no array.
unfoldable pub fetch_signer_list : Node → Option Text → SignerList
unfolding list_objects
fetch_signer_list node account =
    let info = result_of (node (account_info_signer_lists account)) in
    elim (as_array (prop "signer_lists" (prop "account_data" info))) [
      | none ↦ list_objects node account
      | some lists ↦ read_lists lists
    ]
