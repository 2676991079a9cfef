-- ===== src/Settle/OnRedis.antt =====
-- The keys that settle takes to RedisStore: none is of the form r:<key>, where the receipts stand.
use xahc.Prelude.{ℕ, ◌≡◌, refl, sym, subst, Bool-cases, inl, inr, ◌++◌}
use xahc.Prelude.Text.{Text, codes}
use xahc.Message.{ok}
use xahc.Js.{Value}
use xahc.Libs.{Libs, Tx}
use xahc.Verify.{Verified, has_text, replay_key_for, verify_exact}
use xahc.Verify.Sound.{verify_exact_sound}
use xahc.Store.Interface.{View}
use xahc.Store.Redis.{Redis, Json, IsRedis}
use xahc.Store.Redis.Reserves.{IsBindingKey}
use xahc.Store.Redis.Refines.{IsRedisStore, redis-IsRedisStore}

replay_key_for-IsBindingKey : (tx : Tx) → IsBindingKey (replay_key_for tx)
unfolding replay_key_for
replay_key_for-IsBindingKey tx = elim (Bool-cases (has_text tx.invoice_id)) [
  | inl e ↦ rw e refl
  | inr e ↦ rw e refl
]

module _ {R D : Type 0} (redis : Redis D) (keys : View D) (is : IsRedis redis keys) (json : Json R)
    (max_entries : ℕ) where
  -- RedisStore meets the contract on the replay key of every payment that verifyExact accepts.
  verified-IsRedisStore :
      (libs : Libs) (network : ℕ) (payload req : Value) (v : Verified)
      → verify_exact libs network payload req ≡ ok v
      → IsRedisStore redis json keys max_entries v.replay_id
  verified-IsRedisStore libs network payload req v h =
      let a = verify_exact_sound libs network payload req v h in
      redis-IsRedisStore redis keys is json max_entries v.replay_id
        (subst IsBindingKey (sym a.replay_id) (replay_key_for-IsBindingKey a.tx))

  -- And on the key of every transaction hash.
  hash-IsRedisStore : (h : Text) → IsRedisStore redis json keys max_entries (codes "hash:" ++ h)
  hash-IsRedisStore h = redis-IsRedisStore redis keys is json max_entries (codes "hash:" ++ h) refl
