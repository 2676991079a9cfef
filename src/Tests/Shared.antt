-- ===== src/Tests/Shared.antt =====
-- RedisStore over a small database.
use xahc.Prelude.{
  ℕ, ◌+◌, ◌≤◌, ◌≡◌, refl, sym, ◌∙◌, true, false, Option, none, some, [], ◌∷◌, if◌then◌else◌, length,
  arith, Bool-cases, inl, inr,
}
use xahc.Prelude.Text.{Text, codes, text_eq}
use xahc.Store.Dict
use xahc.Store.Dict.{Dict, kept, get-set, get-delete}
use xahc.Store.Memory.{live, is_live, full}
use xahc.Store.Interface.{answered, View, is_some, Binds}
use xahc.Store.Redis.{
  Redis, no_key, IsRedis, SetNxResult, reserve, rolled_back, counted, tested, Json, release,
  released,
}
use xahc.Store.Redis.Refines.{IsRedisStore, redis-IsRedisStore}

-- The expiries by key.
abbrev database : Redis (Dict ℕ)
database = record {
  set_nx_px = λ k px now d.
      if is_live now (Dict.get k d)
      then (answered false, d)
      else (answered true, Dict.set k (now + px) d);
  set_px = λ k v px now d. (answered tt, Dict.set k (now + px) d);
  del = λ k d. (answered tt, Dict.delete k d);
  key_exists = λ k now d. (answered (is_live now (Dict.get k d)), d);
  pttl = λ k now d. (answered no_key, d);
  get_value = λ k now d. (answered none, d);
  dbsize = λ now d. (answered (length d), d);
}

abbrev keys : View (Dict ℕ)
keys d t k = kept (live t) (Dict.get k d)

set-Binds : (k : Text) (e now : ℕ) (d : Dict ℕ) → Binds keys k e now d (Dict.set k e d)
set-Binds k e now d t j l = ground (arith, get-set k j e d)

free_key : (now : ℕ) (o : Option ℕ) → is_live now o ≡ false → kept (live now) o ≡ none
free_key now none h = refl
free_key now (some e) h = ground arith

live_key : (now : ℕ) (o : Option ℕ) → is_some (kept (live now) o) ≡ is_live now o
live_key now none = refl
live_key now (some e) = ground arith

lapsed : (o : Option ℕ) (now t : ℕ) → now ≤ t → kept (live now) o ≡ none → kept (live t) o ≡ none
lapsed none now t l h = refl
lapsed (some e) now t l h = ground arith

set_nx-SetNx :
    (k : Text) (px now : ℕ) (d : Dict ℕ)
    → SetNxResult keys k px now d (database.set_nx_px k px now d)
set_nx-SetNx k px now d = elim (Bool-cases (is_live now (Dict.get k d))) [
  | inl e ↦ rw e (live_key now (Dict.get k d) ∙ e, λ t j l. refl)
  | inr e ↦ rw e (free_key now (Dict.get k d) e, set-Binds k (now + px) now d)
]

database-IsRedis : IsRedis database keys
database-IsRedis = record {
  sets_nx = set_nx-SetNx;
  sets = λ k v px now d. set-Binds k (now + px) now d;
  deletes = λ k now d t j l. ground (arith, get-delete k j d);
  tests = λ k now d. (sym (live_key now (Dict.get k d)), λ t j l. refl);
  counts = λ now d t j l. refl;
  gets = λ k now d t j l. refl;
  lapses = λ d k now t l h. lapsed (Dict.get k d) now t l h;
}

-- Only the receipt 7 is printed and parsed.
abbrev sevens : Json ℕ
sevens = record { stringify = λ n. codes "7"; parse = λ v. some 7 }

redis-IsRedisStore_example : IsRedisStore database sevens keys 10 (codes "acct:rA:7")
redis-IsRedisStore_example =
    redis-IsRedisStore database keys database-IsRedis sevens 10 (codes "acct:rA:7") refl

receipt_gone :
    release database (codes "b") ((codes "b", 500) ∷ (codes "r:b", 500) ∷ []) ≡ (answered tt, [])
unfolding release released Dict.delete text_eq
receipt_gone = refl

given_up :
    reserve database 1 (codes "b") 900 100 ((codes "a", 500) ∷ [])
    ≡ (answered full, (codes "a", 500) ∷ [])
unfolding reserve tested Dict.get text_eq counted Dict.set rolled_back Dict.delete
given_up = refl
