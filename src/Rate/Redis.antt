-- ===== src/Rate/Redis.antt =====
-- RedisRateLimiter and createRateLimiter of x402-xahau/server.mjs.
use xahc.Prelude.{
  ℕ, ◌≡◌, refl, sym, ◌∙◌, ◌↔◌, Bool, true, false, ◌&&◌, not, Option, none, some, List, [], ◌∷◌,
  ◌++◌, if◌then◌else◌, ◌==◌, length, Bool-cases, inl, inr,
}
use xahc.Prelude.Text.{Text, codes}
use xahc.Js.{Number, nat, other, Value, undefined, num, arr, item, no_items, as_array, to_number}
use xahc.Rate.Script.{Limit, Verdict, Stored, Keys, eval_script}
use xahc.Store.Dict
use xahc.Store.Dict.{Dict}

-- What becomes of an EVAL: the script runs or does not, and its reply comes or does not.
pub data Evaluation : Type 0 where
  replied reply_lost not_run : Evaluation

abbrev is_one : Number → Bool
is_one other = false
is_one (nat n) = n == 1

abbrev first_of : List Value → Value
first_of [] = undefined
first_of (v ∷ vs) = v

abbrev decision_value : Value → Option (List Value) → Value
decision_value r none = r
decision_value r (some vs) = first_of vs

-- Number(Array.isArray(r) ? r[0] : r) === 1; `none` is a call that threw.
unfoldable pub decide : Option Value → Bool
decide none = false
decide (some r) = is_one (to_number (decision_value r (as_array r)))

-- { allow, resetMs }
abbrev pub reply_of : Verdict → Value
reply_of v =
    arr (item (num (nat (if v.allow then 1 else 0))) (item (num (nat v.reset_ms)) no_items))

-- rl:<ip>
abbrev pub bucket_key : Text → Text
bucket_key ip = codes "rl:" ++ ip

unfoldable pub ok : Keys → Limit → Evaluation → Text → ℕ → Dict Stored → Bool × Dict Stored
ok redis l not_run ip now keys = (decide none, keys)
ok redis l reply_lost ip now keys =
    let (verdict, s) = eval_script redis l now (Dict.get (bucket_key ip) keys) in
    (decide none, Dict.set (bucket_key ip) s keys)
ok redis l replied ip now keys =
    let (verdict, s) = eval_script redis l now (Dict.get (bucket_key ip) keys) in
    (decide (some (reply_of verdict)), Dict.set (bucket_key ip) s keys)

pub data Backend : Type 0 where
  in_memory in_redis : Backend

-- createRateLimiter
unfoldable pub create_rate_limiter : Option Text → Bool → Backend
create_rate_limiter none client = in_memory
create_rate_limiter (some url) client =
    if not (length url == 0) && client then in_redis else in_memory

decide-reply_of : (v : Verdict) → decide (some (reply_of v)) ≡ v.allow
unfolding decide to_number
decide-reply_of v = elim (Bool-cases v.allow) [ inl e ↦ rw e refl | inr e ↦ rw e refl ]

-- The limiter over Redis lets a request through exactly if the reply comes and the script allows it:
-- an evaluation that throws denies.
pub ok_closed :
    (redis : Keys) (l : Limit) (e : Evaluation) (ip : Text) (now : ℕ) (keys : Dict Stored)
    → ((ok redis l e ip now keys).0 ≡ true)
      ↔ ((e ≡ replied) × ((eval_script redis l now (Dict.get (bucket_key ip) keys)).0.allow ≡ true))
unfolding ok decide
ok_closed redis l not_run ip now keys = (λ e. absurd (cc (e)), λ (h, _). absurd (cc (h)))
ok_closed redis l reply_lost ip now keys = (λ e. absurd (cc (e)), λ (h, _). absurd (cc (h)))
ok_closed redis l replied ip now keys =
    let v = (eval_script redis l now (Dict.get (bucket_key ip) keys)).0 in
    (λ e. (refl, sym (decide-reply_of v) ∙ e), λ (_, e). decide-reply_of v ∙ e)
