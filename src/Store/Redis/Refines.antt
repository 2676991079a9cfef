-- ===== src/Store/Redis/Refines.antt =====
-- RedisStore as a replay store: what each call leaves of the bindings.
use Prim.Native.Nat.{max}
use xahc.Prelude.{
  ℕ, ◌+◌, ◌≡◌, refl, sym, ap, ◌∙◌, subst, Bool, true, false, none, some, Option, arith, Bool-cases,
  inl, inr,
}
use xahc.Prelude.Text.{Text, codes, text_eq, text_eq_sound}
use xahc.Prelude.Search.{starts_with}
use xahc.Store.Interface.{
  Answer, answered, failed, View, is_some, Keeps, Grows, GrowsBut, Binds, ReserveResult,
  ConsumedResult, SetResult, ReleaseResult,
}
use xahc.Store.Redis.{
  Redis, Json, px, receipt_key, reserve, is_consumed, set, upserted, release, released, get_receipt,
  parsed_receipt, set_receipt, SetPxResult, IsRedis, bindings,
}
use xahc.Store.Redis.Reserves.{
  IsBindingKey, binding_key, other_key, hidden_Keeps, hidden_Grows, hidden_Binds,
  reserve-ReserveResult,
}

module _ {D : Type 0} (keys : View D) where
  unread :
      (j : Text) (t : ℕ) (d : D)
      → starts_with (codes "r:") j ≡ false
      → bindings keys d t j ≡ keys d t j
  unread j t d e = rw e refl

  -- A receipt's key is no binding's.
  receipt_key_other :
      (k j : Text) → starts_with (codes "r:") j ≡ false → text_eq (receipt_key k) j ≡ false
  receipt_key_other k j e = elim (Bool-cases (text_eq (receipt_key k) j)) [
    | inr d ↦ d
    | inl s ↦
        let same = ap (starts_with (codes "r:")) (text_eq_sound (receipt_key k) j s) in
        let marked : starts_with (codes "r:") (receipt_key k) ≡ true = refl in
        absurd (cc (e, same, marked))
  ]

  hidden_GrowsBut :
      (k : Text) (now : ℕ) (d d' : D)
      → GrowsBut keys k now d d'
      → GrowsBut (bindings keys) k now d d'
  hidden_GrowsBut k now d d' h t j l o = elim (Bool-cases (starts_with (codes "r:") j)) [
    | inl e ↦ rw e (λ a. a)
    | inr e ↦ rw e (h t j l o)
  ]

  -- What happens to a receipt's key is nothing to the bindings.
  receipt_Grows :
      (k : Text) (now : ℕ) (d d' : D)
      → GrowsBut keys (receipt_key k) now d d'
      → Grows (bindings keys) now d d'
  receipt_Grows k now d d' h t j l = elim (Bool-cases (starts_with (codes "r:") j)) [
    | inl e ↦ rw e (λ a. a)
    | inr e ↦ rw e (h t j l (receipt_key_other k j e))
  ]

  receipt_Binds :
      (k : Text) (expiry now : ℕ) (d d' : D)
      → Binds keys (receipt_key k) expiry now d d'
      → Keeps (bindings keys) now d d'
  receipt_Binds k expiry now d d' h t j l = elim (Bool-cases (starts_with (codes "r:") j)) [
    | inl e ↦ rw e refl
    | inr e ↦ rw e (h t j l ∙ rw (receipt_key_other k j e) refl)
  ]

  -- A receipt is kept, or SET throws; the bindings stay.
  abbrev pub RecordResult : ℕ → D → Answer (Unit {0}) × D → Type 0
  RecordResult now d (answered u, d') = Keeps (bindings keys) now d d'
  RecordResult now d (failed, d') = Grows (bindings keys) now d d'

module _ {R D : Type 0} (redis : Redis D) (json : Json R) (keys : View D) (max_entries : ℕ) where
  -- The calls on one key, at every time and on every database.
  pub record IsRedisStore (k : Text) : Type 0 where
    pub consumes :
        (now : ℕ) (d : D) → ConsumedResult (bindings keys) k now d (is_consumed redis k now d)
    pub reserves :
        (expiry now : ℕ) (d : D)
        → ReserveResult
            (bindings keys)
            k
            (max expiry (now + 1))
            now
            d
            (reserve redis max_entries k expiry now d)
    pub sets :
        (expiry now : ℕ) (d : D)
        → SetResult (bindings keys) k (max expiry (now + 1)) now d (set redis k expiry now d)
    pub releases : (now : ℕ) (d : D) → ReleaseResult (bindings keys) k now d (release redis k d)
    pub reads : (now : ℕ) (d : D) → Keeps (bindings keys) now d (get_receipt redis json k now d).1
    pub records :
        (r : R) (expiry now : ℕ) (d : D)
        → RecordResult keys now d (set_receipt redis json k r expiry now d)

module _ {D : Type 0} (redis : Redis D) (keys : View D) (is : IsRedis redis keys) where
  consumed-meets :
      (k : Text) (now : ℕ) (d : D) (r : Answer Bool × D)
      → IsBindingKey k
      → ConsumedResult keys k now d r
      → ConsumedResult (bindings keys) k now d r
  consumed-meets k now d (failed, d') v h = hidden_Grows keys now d d' h
  consumed-meets k now d (answered b, d') v (e, kept) =
      (e ∙ ap is_some (sym (binding_key keys k now d v)), hidden_Keeps keys now d d' kept)

  upserted-meets :
      (k : Text) (expiry now : ℕ) (d : D) (r : Answer (Unit {0}) × D)
      → IsBindingKey k
      → (n : ℕ) → now + n ≡ expiry
      → SetPxResult keys k n now d r
      → SetResult (bindings keys) k expiry now d (upserted redis r)
  unfolding upserted
  upserted-meets k expiry now d (failed, d') v n e h = hidden_GrowsBut keys k now d d' h
  upserted-meets k expiry now d (answered u, d') v n e h =
      hidden_Binds keys k expiry now d d' v (subst (λ x. Binds keys k x now d d') e h)

  -- The second DEL, of the receipt.
  forgotten-meets :
      (k : Text) (now : ℕ) (d d' : D) (r : Answer (Unit {0}) × D)
      → IsBindingKey k
      → ReleaseResult keys k now d (answered tt, d')
      → ReleaseResult keys (receipt_key k) now d' r
      → ReleaseResult (bindings keys) k now d r
  forgotten-meets k now d d' (failed, d'') v h g = λ t j l o.
      elim (Bool-cases (starts_with (codes "r:") j)) [
        | inl e ↦ rw e (λ a. a)
        | inr e ↦ rw e (λ a. g t j l (receipt_key_other keys k j e) (rw (h t j l, o) a))
      ]
  forgotten-meets k now d d' (answered u, d'') v h g = λ t j l.
      elim (Bool-cases (starts_with (codes "r:") j)) [
        | inl e ↦ rw (e, other_key keys k j v e) refl
        | inr e ↦ rw e (g t j l ∙ rw (receipt_key_other keys k j e) (h t j l))
      ]

  released-meets :
      (k : Text) (now : ℕ) (d : D) (r : Answer (Unit {0}) × D)
      → IsBindingKey k
      → ReleaseResult keys k now d r
      → ReleaseResult (bindings keys) k now d (released redis k r)
  unfolding released
  released-meets k now d (failed, d') v h = hidden_GrowsBut keys k now d d' h
  released-meets k now d (answered u, d') v h =
      forgotten-meets k now d d' (redis.del (receipt_key k) d') v h
        (is.deletes (receipt_key k) now d')

  parsed-state :
      {R : Type 0} (json : Json R) (r : Answer (Option Text) × D)
      → (parsed_receipt redis json r).1 ≡ r.1
  unfolding parsed_receipt
  parsed-state json (failed, d) = refl
  parsed-state json (answered none, d) = refl
  parsed-state json (answered (some v), d) = refl

  recorded-meets :
      (k : Text) (n now : ℕ) (d : D) (r : Answer (Unit {0}) × D)
      → SetPxResult keys (receipt_key k) n now d r
      → RecordResult keys now d r
  recorded-meets k n now d (failed, d') h = receipt_Grows keys k now d d' h
  recorded-meets k n now d (answered u, d') h = receipt_Binds keys k (now + n) now d d' h

  -- On a Redis that behaves as documented, each call of RedisStore on a key that is not of the form
  -- r:<key> meets the contract of a replay store. isConsumed tells whether the key is bound. reserve
  -- binds the key only if it is free, set binds it anyway, both until the expiry or the next
  -- millisecond, whichever is later; release frees it; no other binding changes, also where reserve
  -- gives the reservation up because the database is full. The calls on receipts leave every binding
  -- as it is. Where a command throws, no live binding is dropped but that of the key of set or
  -- release.
  pub redis-IsRedisStore :
      {R : Type 0} (json : Json R) (max_entries : ℕ) (k : Text)
      → IsBindingKey k
      → IsRedisStore redis json keys max_entries k
  unfolding is_consumed set release get_receipt set_receipt
  redis-IsRedisStore json max_entries k v = record {
    consumes = λ now d. consumed-meets k now d (redis.key_exists k now d) v (is.tests k now d);
    reserves = λ expiry now d. reserve-ReserveResult redis keys is max_entries k expiry now d v;
    sets = λ expiry now d.
        upserted-meets k (max expiry (now + 1)) now d _ v (px expiry now) (omega arith)
          (is.sets k (codes "1") (px expiry now) now d);
    releases = λ now d. released-meets k now d (redis.del k d) v (is.deletes k now d);
    reads = λ now d.
        subst (λ d'. Keeps (bindings keys) now d d')
          (sym (parsed-state json (redis.get_value (receipt_key k) now d)))
          (hidden_Keeps keys now d _ (is.gets (receipt_key k) now d));
    records = λ r expiry now d.
        recorded-meets k (px expiry now) now d _
          (is.sets (receipt_key k) (json.stringify r) (px expiry now) now d);
  }
