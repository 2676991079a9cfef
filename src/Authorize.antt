-- ===== src/Authorize.antt =====
-- authorizeOnLedger of x402-xahau/server.mjs: whether ledger state confirms the signer of a payment
-- whose signature was not bound offline.
pub mod Quorum
use xahc.Prelude.{
  ℕ, ◌+◌, ◌≡◌, String, Bool, true, false, not, Option, none, some, List, [], ◌∷◌, if◌then◌else◌,
  leb, length,
}
use xahc.Prelude.Text.{Text, text_eq}
use xahc.Message.{Message, says}
use xahc.Js.{Value, prop, as_text}
use xahc.Libs.{Libs, Tx, derive_address_from_pub_key, encode_for_multisigning, keypair_verify}
use xahc.Node.{
  Node, SignerList, unread, no_signer_list, multiple_signer_lists, malformed_signer_list,
  signer_list, fetch_account_root, fetch_signer_list,
}
use xahc.Store.Dict
use xahc.Store.Dict.{Dict}

pub data Source : Type 0 where
  master regularkey multisig : Source

pub data Decision : Type 0 where
  authorized : Source → Decision
  rejected : Message → Decision
  fallback : Decision

-- An entry of Signers whose three fields are texts.
pub record Signer : Type 0 where
  pub account : Text
  pub key : Text
  pub signature : Text

unfoldable pub read_signer : Value → Option Signer
read_signer entry =
    let s = prop "Signer" entry in
    elim (as_text (prop "SigningPubKey" s)) [
      | none ↦ none
      | some key ↦ elim (as_text (prop "TxnSignature" s)) [
        | none ↦ none
        | some signature ↦ elim (as_text (prop "Account" s)) [
          | none ↦ none
          | some account ↦ some (record { account = account; key = key; signature = signature })
        ]
      ]
    ]

abbrev pub contains : Text → List Text → Bool
contains t [] = false
contains t (u ∷ us) = if text_eq u t then true else contains t us

-- What one entry of Signers comes to.
pub data Weighed : Type 0 where
  skipped : Weighed
  cannot_encode : Weighed
  valid : Text → ℕ → Weighed

abbrev derives : Option Text → Text → Bool
derives none t = false
derives (some d) t = text_eq d t

abbrev verifies : Option Bool → Bool
verifies none = false
verifies (some b) = b

weigh_signer : Libs → Tx → Dict ℕ → Signer → Weighed
weigh_signer libs tx weights s =
    if not (derives (derive_address_from_pub_key libs (some s.key)) s.account)
    then skipped
    else elim (Dict.get s.account weights) [
      | none ↦ skipped
      | some weight ↦ elim (encode_for_multisigning libs tx s.account) [
        | none ↦ cannot_encode
        | some data' ↦
            if verifies (keypair_verify libs data' s.signature s.key)
            then valid s.account weight
            else skipped
      ]
    ]

unfoldable pub weigh : Libs → Tx → Dict ℕ → Value → Weighed
unfolding weigh_signer
weigh libs tx weights entry = elim (read_signer entry) [
  | none ↦ skipped
  | some s ↦ weigh_signer libs tx weights s
]

-- The loop over Signers: the sum of the weights of the accounts credited so far, or null where the
-- codec cannot encode. Each account is credited once.
unfoldable pub sum_weights : Libs → Tx → Dict ℕ → List Value → List Text → ℕ → Option ℕ
sum_weights libs tx weights [] counted sum = some sum
sum_weights libs tx weights (entry ∷ rest) counted sum = elim (weigh libs tx weights entry) [
  | skipped ↦ sum_weights libs tx weights rest counted sum
  | cannot_encode ↦ none
  | valid account weight ↦ elim (contains account counted) [
    | true ↦ sum_weights libs tx weights rest counted sum
    | false ↦ sum_weights libs tx weights rest (account ∷ counted) (sum + weight)
  ]
]

-- new Map of the signers: a later entry of an account replaces an earlier one.
unfoldable pub weights_of : Dict ℕ → List (Text × ℕ) → Dict ℕ
weights_of m [] = m
weights_of m ((account, weight) ∷ rest) = weights_of (Dict.set account weight m) rest

decide_multisig : Libs → Tx → SignerList → Decision
decide_multisig libs tx unread = fallback
decide_multisig libs tx no_signer_list =
    rejected (says "unauthorized: account has no on-ledger SignerList for this multisig")
decide_multisig libs tx multiple_signer_lists = fallback
decide_multisig libs tx malformed_signer_list = fallback
decide_multisig libs tx (signer_list quorum signers) =
    elim (sum_weights libs tx (weights_of [] signers) tx.signers [] 0) [
      | none ↦ fallback
      | some sum ↦
          if leb quorum sum
          then authorized multisig
          else rejected (says "unauthorized: multisig quorum not met by valid on-ledger signers")
    ]

abbrev is_regular_key : Option Text → Text → Bool
is_regular_key none derived = false
is_regular_key (some k) derived = if text_eq k [] then false else text_eq k derived

decide_regular_key : Libs → Tx → Option Value → Decision
decide_regular_key libs tx none = fallback
decide_regular_key libs tx (some root) =
    elim (derive_address_from_pub_key libs tx.signing_pub_key) [
      | none ↦ fallback
      | some derived ↦
          if is_regular_key (as_text (prop "RegularKey" root)) derived
          then authorized regularkey
          else rejected (says "unauthorized: signing key is neither master nor current RegularKey")
    ]

-- Fetch the ledger state that the signing mode needs, and decide.
unfoldable pub authorize_on_ledger : Libs → Node → Tx → Bool → Decision
unfolding decide_multisig decide_regular_key
authorize_on_ledger libs node tx true = decide_multisig libs tx (fetch_signer_list node tx.account)
authorize_on_ledger libs node tx false =
    decide_regular_key libs tx (fetch_account_root node tx.account)
