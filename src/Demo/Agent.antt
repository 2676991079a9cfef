-- ===== src/Demo/Agent.antt =====
-- x402-xahau/demo/agent.mjs: the agent that pays for resources. An exception ends the run (`none`), and
-- the process with exit code 1.
pub mod Pays
use xahc.Prelude.{
  ℕ, ◌+◌, String, Bool, true, false, not, ◌&&◌, Option, none, some, List, [], ◌∷◌, ◌==◌,
  if◌then◌else◌,
}
use xahc.Prelude.Text.{Text, codes}
use xahc.Js.{
  Value, undefined, null, bool, num, str, arr, obj, Items, item, no_items, end, prop, field_of,
  is_nullish, is_truthy,
}
use xahc.Message.{Message, says, Check, ok, err, ◌>>=◌, ◌>>◌, require, present}
use xahc.Verify.{same_text}
use xahc.Demo.Resource.{Fetched, json_of}

pub record Keys : Type 0 where
  pub account : Value
  pub secret : Value

-- The transaction before it is signed: a Payment of the fee 100000 with the flags 0.
pub record Draft : Type 0 where
  pub account : Value
  pub destination : Value
  pub amount : Value
  pub fee : Text
  pub sequence : ℕ
  pub flags : ℕ
  pub network_id : ℕ
  pub last_ledger_sequence : ℕ

-- xahau-keypairs and xahau-binary-codec: the public and the private key of a seed, an address, the
-- data to sign for a draft and its key, a signature, and a draft with key and signature as a blob.
pub record Wallet : Type 0 where
  pub derive_keypair : Value → Option (Text × Text)
  pub derive_address : Text → Option Text
  pub encode_for_signing : Draft → Text → Option Text
  pub sign : Text → Text → Option Text
  pub encode : Draft → Text → Text → Option Text

-- The answers of the node: the index of the validated ledger and the sequence of an account.
pub record Ledger : Type 0 where
  pub validated : Option ℕ
  pub sequence : Value → Option ℕ

-- The resource server: GET of a path, with the header X-PAYMENT if there is one. `none` is an exception
-- of fetch.
pub record Web (F : Type 0) : Type 0 where
  pub get : Text → Option Text → F → Option Fetched × F

keys_of : Value → Option Keys
keys_of s =
    let payer = prop "payer" s in
    if is_truthy (prop "secret" payer) && is_truthy (prop "account" payer)
    then some (record { account = prop "account" payer; secret = prop "secret" payer })
    else none

-- loadAgentKeys: the outer `none` is a missing file, the inner one a text that is no JSON.
unfoldable pub load_agent_keys : Option (Option Value) → Option Keys
unfolding keys_of
load_agent_keys none = none
load_agent_keys (some none) = none
load_agent_keys (some (some s)) = if is_nullish s then none else keys_of s

-- The message of an exception of a package.
abbrev thrown : Message
thrown = says "exception"

-- signPayment
unfoldable pub sign_payment : Wallet → Draft → Value → Check Text
sign_payment wallet tx seed = do
  keys ← present (wallet.derive_keypair seed) thrown
  account ← present (wallet.derive_address keys.0) thrown
  require (same_text (some account) tx.account) (says "seed derives another account")
  message ← present (wallet.encode_for_signing tx keys.0) thrown
  signature ← present (wallet.sign message keys.1) thrown
  present (wallet.encode tx keys.0 signature) thrown

-- v?.[0]
abbrev at_zero : Value → Value
at_zero (arr no_items) = undefined
at_zero (arr (item v rest)) = v
at_zero (str []) = undefined
at_zero (str (c ∷ t)) = str (c ∷ [])
at_zero (obj fs) = field_of "0" fs
at_zero undefined = undefined
at_zero null = undefined
at_zero (bool b) = undefined
at_zero (num n) = undefined

accepted : Value → Option Value
accepted json =
    if is_nullish json
    then none
    else let accept = at_zero (prop "accepts" json) in
      if is_truthy accept then some accept else none

-- The offer of a challenge: it has status 402 and accepts[0].
unfoldable pub offered : Fetched → Option Value
unfolding accepted
offered a = if not (a.status == 402) then none else accepted (json_of a)

-- The payment that is built for an offer.
unfoldable pub draft_for : Value → Value → ℕ → ℕ → Draft
draft_for account accept current sequence = record {
  account = account;
  destination = prop "payTo" accept;
  amount = prop "maxAmountRequired" accept;
  fee = codes "100000";
  sequence = sequence;
  flags = 0;
  network_id = 21338;
  last_ledger_sequence = current + 25;
}

-- The blob that the agent presents for an offer.
unfoldable pub blob_for : Wallet → Ledger → Keys → Value → Check Text
blob_for wallet ledger keys accept = do
  current ← present ledger.validated thrown
  sequence ← present (ledger.sequence keys.account) thrown
  sign_payment wallet (draft_for keys.account accept current sequence) keys.secret

pub data Verdict : Type 0 where
  granted : Value → Value → Verdict
  denied : ℕ → Value → Value → Value → Verdict

-- results[path]: GRANTED with the transaction and what was delivered, or DENIED with the status, the
-- reason, the transaction and whether a Hook is there.
unfoldable pub verdict : Fetched → Verdict
verdict a =
    let json = json_of a in
    let payment = prop "_payment" json in
    if a.status == 200
    then granted (prop "transaction" payment) (prop "delivered" payment)
    else denied a.status (prop "reason" json) (prop "transaction" json)
        (prop "guardrailHookPresent" json)

module _ {F : Type 0} (web : Web F) (wallet : Wallet) (ledger : Ledger) (header : Text → Text)
    (keys : Keys) where
  -- A response of status 200 whose JSON is null has no content to print.
  judged : Option Fetched × F → Option Verdict × F
  judged (none, f) = (none, f)
  judged (some a, f) =
      if a.status == 200 && is_nullish (json_of a) then (none, f) else (some (verdict a), f)

  retried : Text → Check Text → F → Option Verdict × F
  unfolding judged
  retried path (err m) f = (none, f)
  retried path (ok blob) f = judged (web.get path (some (header blob)) f)

  paid : Text → Option Value → F → Option Verdict × F
  unfolding retried
  paid path none f = (none, f)
  paid path (some accept) f = retried path (blob_for wallet ledger keys accept) f

  challenged : Text → Option Fetched × F → Option Verdict × F
  unfolding paid
  challenged path (none, f) = (none, f)
  challenged path (some a, f) = paid path (offered a) f

  -- One scenario: the challenge, the payment, the retry. `header` is the base64 of { txBlob }.
  unfoldable pub scenario : Text → F → Option Verdict × F
  unfolding challenged
  scenario path f = challenged path (web.get path none f)

  then_rest :
      Text
      → (F → Option (List (Text × Verdict)) × F)
      → Option Verdict × F
      → Option (List (Text × Verdict)) × F
  then_rest path rest (none, f) = (none, f)
  then_rest path rest (some v, f) = prepended (rest f)
    where
      prepended : Option (List (Text × Verdict)) × F → Option (List (Text × Verdict)) × F
      prepended (none, g) = (none, g)
      prepended (some vs, g) = (some ((path, v) ∷ vs), g)

  -- The results of the scenarios, one after the other.
  unfoldable pub scenarios : List Text → F → Option (List (Text × Verdict)) × F
  unfolding then_rest
  scenarios [] f = (some [], f)
  scenarios (path ∷ paths) f = then_rest path (scenarios paths) (scenario path f)

-- The paths that main asks for.
abbrev pub paths : List Text
paths = codes "/premium" ∷ codes "/premium-plus" ∷ []

-- main, from the secrets file on; `ledger` is the client, if it connects.
unfoldable pub run_agent :
    {F : Type 0}
    → Web F
    → Wallet
    → Option Ledger
    → (Text → Text)
    → Option (Option Value)
    → F
    → Option (List (Text × Verdict)) × F
run_agent web wallet ledger header file f = elim (load_agent_keys file) [
  | none ↦ (none, f)
  | some keys ↦ elim ledger [
    | none ↦ (none, f)
    | some l ↦ scenarios web wallet l header keys paths f
  ]
]
