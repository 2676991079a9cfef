-- ===== src/Receipt/Key.antt =====
-- parseReceiptSecret, ed25519KeyFromSeed, initReceiptKey and receiptPubkey of x402-xahau/server.mjs.
use xahc.Prelude.{
  ℕ, ◌≡◌, refl, Bool, true, false, Option, none, some, List, [], ◌∷◌, if◌then◌else◌, ◌==◌, length,
}
use xahc.Prelude.Text.{Text}
use xahc.Client.{trim}
use xahc.Budget.{hex_value}
use xahc.Policy.Params.{is_hex_of}

-- Buffer.from(text, "base64"), createPrivateKey of a seed in its PKCS #8 frame (which may throw), the
-- public half of a key in hexadecimal, and the key that generateKeyPairSync makes.
pub record KeyLib (K : Type 0) : Type 0 where
  pub from_base64 : Text → List ℕ
  pub create_private_key : List ℕ → Option K
  pub ed25519_pub_hex : K → Text
  pub generate : K

-- Buffer.from(text, "hex"), for pairs of digits.
from_hex : Text → List ℕ
from_hex [] = []
from_hex (h ∷ []) = []
from_hex (h ∷ l ∷ t) = hex_value 0 (h ∷ l ∷ []) ∷ from_hex t

seed_of : List ℕ → Option (List ℕ)
seed_of bytes = if length bytes == 32 then some bytes else none

module _ {K : Type 0} (lib : KeyLib K) where
  decoded : Text → Option (List ℕ)
  unfolding from_hex seed_of
  decoded s = if is_hex_of 64 s then some (from_hex s) else seed_of (lib.from_base64 s)

  unfoldable pub parse_receipt_secret : Option Text → Option (List ℕ)
  unfolding decoded
  parse_receipt_secret none = none
  parse_receipt_secret (some raw) = if length raw == 0 then none else decoded (trim raw)

  unfoldable pub ed25519_key_from_seed : List ℕ → Option K
  ed25519_key_from_seed seed = if length seed == 32 then lib.create_private_key seed else none

-- The key that signs, and whether it changes at the next start.
pub record ReceiptKey (K : Type 0) : Type 0 where
  pub private_key : K
  pub pub_hex : Text
  pub ephemeral : Bool

module _ {K : Type 0} (lib : KeyLib K) where
  fresh_key : ReceiptKey K
  fresh_key = record {
    private_key = lib.generate;
    pub_hex = lib.ed25519_pub_hex lib.generate;
    ephemeral = true;
  }

  key_of : Option K → ReceiptKey K
  unfolding fresh_key
  key_of none = fresh_key
  key_of (some k) = record { private_key = k; pub_hex = lib.ed25519_pub_hex k; ephemeral = false }

  from_seed : Option (List ℕ) → ReceiptKey K
  unfolding key_of fresh_key
  from_seed none = fresh_key
  from_seed (some seed) = key_of (ed25519_key_from_seed lib seed)

  -- initReceiptKey: the key in memory, else that of X402_RECEIPT_SECRET, else a new one.
  unfoldable pub init_receipt_key : Option Text → Option (ReceiptKey K) → ReceiptKey K
  unfolding from_seed
  init_receipt_key secret (some k) = k
  init_receipt_key secret none = from_seed (parse_receipt_secret lib secret)

  key_of_hex : (o : Option K) → (key_of o).pub_hex ≡ lib.ed25519_pub_hex (key_of o).private_key
  unfolding key_of fresh_key
  key_of_hex none = refl
  key_of_hex (some k) = refl

  from_seed_hex :
      (o : Option (List ℕ)) → (from_seed o).pub_hex ≡ lib.ed25519_pub_hex (from_seed o).private_key
  unfolding from_seed fresh_key
  from_seed_hex none = refl
  from_seed_hex (some seed) = key_of_hex (ed25519_key_from_seed lib seed)

  -- At the first call, whatever the secret is, the published key is the public half of the key that signs.
  pub init_receipt_key_hex :
      (secret : Option Text)
      → (init_receipt_key secret none).pub_hex
        ≡ lib.ed25519_pub_hex (init_receipt_key secret none).private_key
  unfolding init_receipt_key
  init_receipt_key_hex secret = from_seed_hex (parse_receipt_secret lib secret)
