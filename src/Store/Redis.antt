-- ===== src/Store/Redis.antt =====
-- RedisStore of x402-xahau/server.mjs. The commands of Redis are parameters, each from a state of the
-- database to its reply, or to an exception, and the next state; a command takes the time of the server,
-- which is the caller's here.
pub mod Reserves
pub mod Refines
use Prim.Native.Nat.{max}
use xahc.Prelude.{
  ℕ, ◌+◌, ◌-◌, ◌≤◌, ◌≡◌, Bool, true, false, Option, none, some, ◌++◌, ltb, if◌then◌else◌,
}
use xahc.Prelude.Text.{Text, codes}
use xahc.Prelude.Search.{starts_with}
use xahc.Store.Memory.{Reserved, reserved, exists, full}
use xahc.Store.Interface.{
  Answer, answered, failed, View, is_some, Keeps, Grows, Binds, ConsumedResult, ReleaseResult,
  GrowsBut,
}

-- PTTL: no key, a key without an expiry, or what is left.
pub data Ttl : Type 0 where
  no_key no_expiry : Ttl
  left : ℕ → Ttl

-- SET key "1" NX PX px, SET key value PX px, DEL, EXISTS, PTTL, GET and DBSIZE.
pub record Redis (D : Type 0) : Type 0 where
  pub set_nx_px : Text → ℕ → ℕ → D → Answer Bool × D
  pub set_px : Text → Text → ℕ → ℕ → D → Answer (Unit {0}) × D
  pub del : Text → D → Answer (Unit {0}) × D
  pub key_exists : Text → ℕ → D → Answer Bool × D
  pub pttl : Text → ℕ → D → Answer Ttl × D
  pub get_value : Text → ℕ → D → Answer (Option Text) × D
  pub dbsize : ℕ → D → Answer ℕ × D

-- JSON.stringify and JSON.parse of a receipt.
pub record Json (R : Type 0) : Type 0 where
  pub stringify : R → Text
  pub parse : Text → Option R

-- this._px
abbrev pub px : ℕ → ℕ → ℕ
px expiry now = max 1 (expiry - now)

abbrev pub receipt_key : Text → Text
receipt_key k = codes "r:" ++ k

module _ {D : Type 0} (redis : Redis D) where
  unfoldable pub rolled_back : Answer (Unit {0}) × D → Answer Reserved × D
  rolled_back (failed, d) = (failed, d)
  rolled_back (answered u, d) = (answered full, d)

  -- The size of the database after a new reservation.
  unfoldable pub counted : ℕ → Text → Answer ℕ × D → Answer Reserved × D
  counted max_entries k (failed, d) = (failed, d)
  counted max_entries k (answered n, d) =
      if ltb max_entries n then rolled_back (redis.del k d) else (answered reserved, d)

  unfoldable pub tested : ℕ → Text → ℕ → Answer Bool × D → Answer Reserved × D
  tested max_entries k now (failed, d) = (failed, d)
  tested max_entries k now (answered false, d) = (answered exists, d)
  tested max_entries k now (answered true, d) = counted max_entries k (redis.dbsize now d)

  unfoldable pub reserve : ℕ → Text → ℕ → ℕ → D → Answer Reserved × D
  reserve max_entries k expiry now d =
      tested max_entries k now (redis.set_nx_px k (px expiry now) now d)

  ttl_expiry : ℕ → ℕ → Ttl → Option ℕ
  ttl_expiry flat now no_key = none
  ttl_expiry flat now no_expiry = some (now + flat)
  ttl_expiry flat now (left ms) = some (now + ms)

  expiry_answer : ℕ → ℕ → Answer Ttl × D → Answer (Option ℕ) × D
  unfolding ttl_expiry
  expiry_answer flat now (failed, d) = (failed, d)
  expiry_answer flat now (answered t, d) = (answered (ttl_expiry flat now t), d)

  -- `flat` is REPLAY_TTL_MS.
  unfoldable pub get : ℕ → Text → ℕ → D → Answer (Option ℕ) × D
  unfolding expiry_answer
  get flat k now d = expiry_answer flat now (redis.pttl k now d)

  unfoldable pub is_consumed : Text → ℕ → D → Answer Bool × D
  is_consumed k now d = redis.key_exists k now d

  -- Whatever the reply is, an upsert that does not throw answers true.
  upserted : Answer (Unit {0}) × D → Answer Bool × D
  upserted (failed, d) = (failed, d)
  upserted (answered u, d) = (answered true, d)

  unfoldable pub set : Text → ℕ → ℕ → D → Answer Bool × D
  unfolding upserted
  set k expiry now d = upserted (redis.set_px k (codes "1") (px expiry now) now d)

  -- The second DEL is not sent when the first throws.
  unfoldable pub released : Text → Answer (Unit {0}) × D → Answer (Unit {0}) × D
  released k (failed, d) = (failed, d)
  released k (answered u, d) = redis.del (receipt_key k) d

  unfoldable pub release : Text → D → Answer (Unit {0}) × D
  release k d = released k (redis.del k d)

  unfoldable pub size : ℕ → D → Answer ℕ × D
  size now d = redis.dbsize now d

  parsed_receipt : {R : Type 0} → Json R → Answer (Option Text) × D → Answer (Option R) × D
  parsed_receipt json (failed, d) = (failed, d)
  parsed_receipt json (answered none, d) = (answered none, d)
  parsed_receipt json (answered (some v), d) = (answered (json.parse v), d)

  unfoldable pub get_receipt : {R : Type 0} → Json R → Text → ℕ → D → Answer (Option R) × D
  unfolding parsed_receipt
  get_receipt json k now d = parsed_receipt json (redis.get_value (receipt_key k) now d)

  unfoldable pub set_receipt : {R : Type 0} → Json R → Text → R → ℕ → ℕ → D → Answer (Unit {0}) × D
  set_receipt json k r expiry now d =
      redis.set_px (receipt_key k) (json.stringify r) (px expiry now) now d

-- SET NX answers whether the key was new.
abbrev pub SetNxResult : {D : Type 0} → View D → Text → ℕ → ℕ → D → Answer Bool × D → Type 0
SetNxResult keys k px now d (answered true, d') =
    (keys d now k ≡ none) × Binds keys k (now + px) now d d'
SetNxResult keys k px now d (answered false, d') =
    (is_some (keys d now k) ≡ true) × Keeps keys now d d'
SetNxResult keys k px now d (failed, d') = Grows keys now d d'

-- SET upserts its key.
abbrev pub SetPxResult : {D : Type 0} → View D → Text → ℕ → ℕ → D → Answer (Unit {0}) × D → Type 0
SetPxResult keys k px now d (answered u, d') = Binds keys k (now + px) now d d'
SetPxResult keys k px now d (failed, d') = GrowsBut keys k now d d'

-- The documented behaviour of the commands, by the expiry that each key has; a command that throws may
-- have taken effect, on its key only. Without a command no key comes back. Nothing is evicted.
pub record IsRedis {D : Type 0} (redis : Redis D) (keys : View D) : Type 0 where
  pub sets_nx :
      (k : Text) (px now : ℕ) (d : D) → SetNxResult keys k px now d (redis.set_nx_px k px now d)
  pub sets :
      (k v : Text) (px now : ℕ) (d : D) → SetPxResult keys k px now d (redis.set_px k v px now d)
  pub deletes : (k : Text) (now : ℕ) (d : D) → ReleaseResult keys k now d (redis.del k d)
  pub tests : (k : Text) (now : ℕ) (d : D) → ConsumedResult keys k now d (redis.key_exists k now d)
  pub counts : (now : ℕ) (d : D) → Keeps keys now d (redis.dbsize now d).1
  pub gets : (k : Text) (now : ℕ) (d : D) → Keeps keys now d (redis.get_value k now d).1
  pub lapses : (d : D) (k : Text) (now t : ℕ) → now ≤ t → keys d now k ≡ none → keys d t k ≡ none

-- The bindings among the keys: receipts stand under r:<key>.
abbrev pub bindings : {D : Type 0} → View D → View D
bindings keys d t k = if starts_with (codes "r:") k then none else keys d t k
