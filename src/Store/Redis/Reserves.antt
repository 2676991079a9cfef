-- ===== src/Store/Redis/Reserves.antt =====
-- RedisStore.reserve meets the contract of a replay store, also where it rolls back and where a command
-- throws, for keys that are no receipt's.
use Prim.Native.Nat.{max}
use xahc.Prelude.{
  ℕ, ◌+◌, ◌≤◌, ◌≡◌, refl, sym, ap, ◌∙◌, subst, Bool, true, false, none, ltb, arith, Bool-cases, inl,
  inr,
}
use xahc.Prelude.Text.{Text, codes, text_eq, text_eq_sound}
use xahc.Prelude.Search.{starts_with}
use xahc.Store.Memory.{Reserved, reserved, exists, full}
use xahc.Store.Interface.{
  Answer, answered, failed, View, is_some, Keeps, Grows, Binds, ReserveResult, ReleaseResult,
}
use xahc.Store.Redis.{
  Redis, px, rolled_back, counted, tested, reserve, SetNxResult, IsRedis, bindings,
}

-- Not r:<key>.
abbrev pub IsBindingKey : Text → Type 0
IsBindingKey k = starts_with (codes "r:") k ≡ false

module _ {D : Type 0} (keys : View D) where
  pub binding_key : (k : Text) (t : ℕ) (d : D) → IsBindingKey k → bindings keys d t k ≡ keys d t k
  binding_key k t d h = rw h refl

  pub hidden_Keeps : (now : ℕ) (d d' : D) → Keeps keys now d d' → Keeps (bindings keys) now d d'
  hidden_Keeps now d d' h t k l = elim (Bool-cases (starts_with (codes "r:") k)) [
    | inl e ↦ rw e refl
    | inr e ↦ rw e (h t k l)
  ]

  pub hidden_Grows : (now : ℕ) (d d' : D) → Grows keys now d d' → Grows (bindings keys) now d d'
  hidden_Grows now d d' h t k l = elim (Bool-cases (starts_with (codes "r:") k)) [
    | inl e ↦ rw e (λ a. a)
    | inr e ↦ rw e (h t k l)
  ]

  pub other_key :
      (k j : Text) → IsBindingKey k → starts_with (codes "r:") j ≡ true → text_eq k j ≡ false
  other_key k j h e = elim (Bool-cases (text_eq k j)) [
    | inr d ↦ d
    | inl s ↦
        let same = ap (starts_with (codes "r:")) (text_eq_sound k j s) in absurd (cc (h, e, same))
  ]

  pub hidden_Binds :
      (k : Text) (expiry now : ℕ) (d d' : D)
      → IsBindingKey k
      → Binds keys k expiry now d d'
      → Binds (bindings keys) k expiry now d d'
  hidden_Binds k expiry now d d' v h t j l = elim (Bool-cases (starts_with (codes "r:") j)) [
    | inl e ↦ rw (e, other_key k j v e) refl
    | inr e ↦ rw e (h t j l)
  ]

-- A reservation that is kept, given up, or left open, on the keys themselves.
module _ {D : Type 0} (redis : Redis D) (keys : View D) (is : IsRedis redis keys) (k : Text)
    (expiry now : ℕ) (d : D) (free : keys d now k ≡ none) where
  gone : (t : ℕ) → now ≤ t → keys d t k ≡ none
  gone t l = is.lapses d k now t l free

  bound_Grows : (d' : D) → Binds keys k expiry now d d' → Grows keys now d d'
  bound_Grows d' b t j l a = elim (Bool-cases (text_eq k j)) [
    | inl e ↦
        let same = text_eq_sound k j e in
        let none_there = subst (λ x. keys d t x ≡ none) same (gone t l) in
        absurd (cc (a, none_there))
    | inr e ↦ rw (b t j l, e) a
  ]

  rolled_back-meets :
      (d' : D) (r : Answer (Unit {0}) × D)
      → Binds keys k expiry now d d'
      → ReleaseResult keys k now d' r
      → ReserveResult keys k expiry now d (rolled_back redis r)
  unfolding rolled_back
  rolled_back-meets d' (answered u, e) b h = (
    free,
    λ t j l. elim (Bool-cases (text_eq k j)) [
      | inl q ↦
          let same = subst (λ x. keys d t x ≡ none) (text_eq_sound k j q) (gone t l) in
          h t j l ∙ rw q (sym same)
      | inr q ↦ h t j l ∙ rw q (b t j l ∙ rw q refl)
    ],
  )
  rolled_back-meets d' (failed, e) b h = λ t j l a. elim (Bool-cases (text_eq k j)) [
    | inl q ↦
        let same = subst (λ x. keys d t x ≡ none) (text_eq_sound k j q) (gone t l) in
        absurd (cc (a, same))
    | inr q ↦ h t j l q (bound_Grows d' b t j l a)
  ]

  counted-meets :
      (max_entries : ℕ) (d' : D) (r : Answer ℕ × D)
      → Binds keys k expiry now d d'
      → Keeps keys now d' r.1
      → ReserveResult keys k expiry now d (counted redis max_entries k r)
  unfolding counted
  counted-meets max_entries d' (failed, e) b h = bound_Grows e (λ t j l. h t j l ∙ b t j l)
  counted-meets max_entries d' (answered n, e) b h =
      let bound : Binds keys k expiry now d e = λ t j l. h t j l ∙ b t j l in
      elim (Bool-cases (ltb max_entries n)) [
        | inl q ↦ rw q (rolled_back-meets e (redis.del k e) bound (is.deletes k now e))
        | inr q ↦ rw q (free, bound)
      ]

module _ {D : Type 0} (redis : Redis D) (keys : View D) (is : IsRedis redis keys) where
  tested-meets :
      (max_entries : ℕ) (k : Text) (ms now : ℕ) (d : D) (r : Answer Bool × D)
      → SetNxResult keys k ms now d r
      → ReserveResult keys k (now + ms) now d (tested redis max_entries k now r)
  unfolding tested
  tested-meets max_entries k ms now d (failed, e) h = h
  tested-meets max_entries k ms now d (answered false, e) h = h
  tested-meets max_entries k ms now d (answered true, e) (free, bound) =
      counted-meets redis keys is k (now + ms) now d free max_entries e (redis.dbsize now e) bound
        (is.counts now e)

  hidden-meets :
      (k : Text) (expiry now : ℕ) (d : D) (r : Answer Reserved × D)
      → IsBindingKey k
      → ReserveResult keys k expiry now d r
      → ReserveResult (bindings keys) k expiry now d r
  hidden-meets k expiry now d (answered reserved, e) v (free, bound) =
      (binding_key keys k now d v ∙ free, hidden_Binds keys k expiry now d e v bound)
  hidden-meets k expiry now d (answered exists, e) v (there, kept) =
      (ap is_some (binding_key keys k now d v) ∙ there, hidden_Keeps keys now d e kept)
  hidden-meets k expiry now d (answered full, e) v (free, kept) =
      (binding_key keys k now d v ∙ free, hidden_Keeps keys now d e kept)
  hidden-meets k expiry now d (failed, e) v h = hidden_Grows keys now d e h

  -- On a Redis that behaves as documented, reserve of RedisStore meets the contract of a replay store:
  -- it reserves a key only if it is free, until the expiry or the next millisecond, whichever is later; it
  -- leaves every other binding as it is, also when it gives the reservation up because the database is
  -- full; and a command that throws drops no live binding. The key is not of the form r:<key>.
  pub reserve-ReserveResult :
      (max_entries : ℕ) (k : Text) (expiry now : ℕ) (d : D)
      → IsBindingKey k
      → ReserveResult
          (bindings keys)
          k
          (max expiry (now + 1))
          now
          d
          (reserve redis max_entries k expiry now d)
  unfolding reserve
  reserve-ReserveResult max_entries k expiry now d v =
      let later : now + px expiry now ≡ max expiry (now + 1) = omega arith in
      let r = reserve redis max_entries k expiry now d in
      subst (λ e. ReserveResult (bindings keys) k e now d r) later
        (hidden-meets k (now + px expiry now) now d r v (
          tested-meets max_entries k (px expiry now) now d (redis.set_nx_px k (px expiry now) now d)
            (is.sets_nx k (px expiry now) now d)))
