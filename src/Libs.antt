-- ===== src/Libs.antt =====
-- The packages that x402-xahau/server.mjs loads: xahau-binary-codec, xahau, xahau-keypairs and
-- xahau-address-codec. They are parameters; the wrappers around them are the server's.
use xahc.Prelude.{
  ℕ, Bool, false, ◌&&◌, ◌||◌, Option, none, some, List, [], ◌∷◌, leb, ◌==◌, if◌then◌else◌, all,
  length,
}
use xahc.Prelude.Text.{Text}
use xahc.Js.{Value, as_text}

-- A decoded transaction, as the codec documents it: account and blob fields are texts, UInt32 fields
-- are numbers, a field that the blob lacks is absent. Amount and the entries of Signers are objects
-- that the code examines itself. Absent Signers are [].
pub record Tx : Type 0 where
  pub transaction_type : Option Text
  pub network_id : Option ℕ
  pub account : Option Text
  pub destination : Option Text
  pub flags : Option ℕ
  pub amount : Value
  pub last_ledger_sequence : Option ℕ
  pub sequence : Option ℕ
  pub invoice_id : Option Text
  pub signing_pub_key : Option Text
  pub txn_signature : Option Text
  pub signers : List Value

-- The outer `none` of a field is a package that is not installed; the inner one is a call that
-- throws.
pub record Libs : Type 0 where
  pub decode : Text → Option Tx
  pub valid_classic_address : Option (Text → Bool)
  pub verify_signature : Option (Text → Option Bool)
  pub derive_address : Option (Text → Option Text)
  pub keypair_verify : Option (Text → Text → Text → Option Bool)
  pub encode_for_multisigning : Option (Tx → Text → Option Text)

-- [1-9A-HJ-NP-Za-km-z]
abbrev is_base58 : ℕ → Bool
is_base58 c =
    leb b'1' c && leb c b'9'
    || (leb b'A' c && leb c b'H'
        || (leb b'J' c && leb c b'N'
            || (leb b'P' c && leb c b'Z'
                || (leb b'a' c && leb c b'k' || leb b'm' c && leb c b'z'))))

-- /^r[1-9A-HJ-NP-Za-km-z]{24,34}$/
unfoldable pub looks_like_address : Text → Bool
looks_like_address [] = false
looks_like_address (c ∷ t) =
    c == b'r' && (leb 24 (length t) && leb (length t) 34 && all is_base58 t)

unfoldable pub valid_address_text : Libs → Text → Bool
unfolding looks_like_address
valid_address_text libs t =
    if length t == 0
    then false
    else elim libs.valid_classic_address [ none ↦ looks_like_address t | some f ↦ f t ]

unfoldable pub is_valid_r_address : Libs → Value → Bool
unfolding valid_address_text
is_valid_r_address libs v = elim (as_text v) [ none ↦ false | some t ↦ valid_address_text libs t ]

-- null if the package is missing; a throw is a signature that does not verify.
unfoldable pub verify_tx_signature : Libs → Text → Option Bool
verify_tx_signature libs blob = elim libs.verify_signature [
  | none ↦ none
  | some f ↦ elim (f blob) [ none ↦ some false | some b ↦ some b ]
]

derive_text : Libs → Text → Option Text
derive_text libs key =
    if length key == 0 then none else elim libs.derive_address [ none ↦ none | some f ↦ f key ]

unfoldable pub derive_address_from_pub_key : Libs → Option Text → Option Text
unfolding derive_text
derive_address_from_pub_key libs none = none
derive_address_from_pub_key libs (some key) = derive_text libs key

unfoldable pub keypair_verify : Libs → Text → Text → Text → Option Bool
keypair_verify libs message signature key = elim libs.keypair_verify [
  | none ↦ none
  | some f ↦ elim (f message signature key) [ none ↦ some false | some b ↦ some b ]
]

unfoldable pub encode_for_multisigning : Libs → Tx → Text → Option Text
encode_for_multisigning libs tx account = elim libs.encode_for_multisigning [
  | none ↦ none
  | some f ↦ f tx account
]
