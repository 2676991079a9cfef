-- ===== src/Settle/Along.antt =====
-- What the calls of the store keep, the stages of settle keep: for a relation of worlds that holds
-- wherever neither the store nor the list of submissions changes.
use xahc.Prelude.{
  ℕ, ◌≡◌, refl, ◌++◌, ◌==◌, length, arith, Bool, true, false, if◌then◌else◌, ◌&&◌, Option, none,
  some, Bool-cases, inl, inr,
}
use xahc.Prelude.Text.{Text, codes, text_eq}
use xahc.Message.{Check, ok, err}
use xahc.Js.{Value, as_text}
use xahc.Verify.{Verified}
use xahc.Authorize.{Source}
use xahc.Store.Memory.{Reserved, reserved, exists, full}
use xahc.Store.Interface.{ReplayStore, Answer, answered, failed}
use xahc.Metrics.{Bucket, Counter}
use xahc.Settle.Submit.{
  Submitted, threw, resolved, Response, read_response, maybe_applied, submit_definitely_not_applied,
}
use xahc.Settle.Simulate.{simulate_payment, predicts_reject}
use xahc.Settle.Effects.{
  Receipt, Reply, dry_run, predicted_reject, Refusal, Env, World, Stage, ◌>>◌, give, reply, count,
  count_reject, refuse, call, settle_store_unavailable,
}
use xahc.Settle.Before.{
  opened, Plan, expiry_of, checked, advise, available_or_stop, answer_replay, asked, look_up,
  unconsumed, lost_race, claimed, claim,
}
use xahc.Settle.After.{
  after_release, read_result, classify, ambiguous, not_applied, bind_hash, conclude, submitted_as,
}
use xahc.Settle.{configured}
use xahc.Settle.Laws.{Along, IsTransitive, bind-Along, then-Along, Untouched, Unsent}

module _ {S : Type 0} (P : World S → World S → Type 0) (t : IsTransitive P)
    (quiet : (w w' : World S) → Untouched w w' → Unsent w w' → P w w') where
  refuse-Along {ℓ} : (A : Type ℓ) (b : Bucket) (r : Refusal) → Along P (refuse {A = A} b r)
  unfolding refuse
  refuse-Along A b r w = quiet w _ refl refl

  give-Along {ℓ} : {A : Type ℓ} (a : A) → Along P (give a)
  unfolding give
  give-Along a w = quiet w w refl refl

  reply-Along {ℓ} : (A : Type ℓ) (r : Reply) → Along P (reply {A = A} r)
  unfolding reply
  reply-Along A r w = quiet w w refl refl

  pub checked-Along {ℓ} :
      {A : Type ℓ} (b : Bucket) (payer : Option Text) (m : Check A) → Along P (checked b payer m)
  unfolding checked
  checked-Along b payer (err e) = refuse-Along _ b _
  checked-Along b payer (ok a) = give-Along a

  if-Along {ℓ} :
      {A : Type ℓ} (b : Bool) (m n : Stage S A)
      → Along P m
      → Along P n
      → Along P (if b then m else n)
  if-Along true m n p q = p
  if-Along false m n p q = q

  pub count-Along : (c : Counter) → Along P (count c)
  unfolding count
  count-Along c w = quiet w _ refl refl

  pub advise-Along : (env : Env) (v : Verified) → Along P (advise env v)
  unfolding advise
  advise-Along env v =
      let simulation = simulate_payment env.mcp in
      if-Along {A = Unit {0}} env.dry_run (reply (dry_run v.payer simulation)) _ (reply-Along _ _) (
        if-Along {A = Unit {0}} (env.pre_sim_reject && predicts_reject simulation)
          (reply (predicted_reject v.payer simulation)) (give tt) (reply-Along _ _) (give-Along tt))

  pub opened-Along : (c : Check Verified) → Along P (opened c)
  unfolding opened
  opened-Along (err m) = refuse-Along _ _ _
  opened-Along (ok v) = give-Along v

  unavailable-Along {ℓ} :
      (A : Type ℓ) (payer : Option Text) → Along P (settle_store_unavailable {A = A} payer)
  unfolding settle_store_unavailable
  unavailable-Along A payer = refuse-Along A _ _

  available-Along {ℓ} :
      {A : Type ℓ} (payer : Option Text) (a : Answer A) → Along P (available_or_stop payer a)
  unfolding available_or_stop
  available-Along payer failed = unavailable-Along _ payer
  available-Along payer (answered a) = give-Along a

  pub answer_replay-Along {ℓ} :
      (A : Type ℓ) (v : Verified) (r : Option Receipt) → Along P (answer_replay {A = A} v r)
  unfolding answer_replay count reply ◌>>◌ refuse
  answer_replay-Along A v none w = quiet w _ refl refl
  answer_replay-Along A v (some r) w = quiet w _ refl refl

  classify-Along : (b : Bool) (code : Text) → Along P (classify b code)
  unfolding classify count count_reject
  classify-Along true code w = quiet w _ refl refl
  classify-Along false code w = elim (Bool-cases (text_eq code (codes "tesSUCCESS"))) [
    | inl e ↦ rw e (quiet w _ refl refl)
    | inr e ↦ rw e (quiet w _ refl refl)
  ]

  module _ (st : ReplayStore Receipt S) where
    pub configured-Along : (env : Env) → Along P (configured st env)
    unfolding configured
    configured-Along env =
        if-Along {A = Unit {0}} env.wss (give tt) (refuse _ _) (give-Along tt) (refuse-Along _ _ _)

    pub asked-Along {ℓ} :
        {A : Type ℓ} (payer : Option Text) (f : S → Answer A × S)
        → Along P (call f)
        → Along P (asked st payer f)
    unfolding asked
    asked-Along payer f h = bind-Along P t (call f) _ h (available-Along payer)

    module _ (env : Env) (v : Verified)
        (read : Along P (call (st.get_receipt v.replay_id env.read_at)))
        (reread : Along P (call (st.get_receipt v.replay_id env.reread_at))) where
      look_up-Along : (b : Bool) → Along P (look_up st env v b)
      unfolding look_up
      look_up-Along false = give-Along tt
      look_up-Along true = bind-Along P t _ _ (asked-Along v.payer _ read) (answer_replay-Along _ v)

      pub unconsumed-Along :
          Along P (call (st.is_consumed v.replay_id env.read_at)) → Along P (unconsumed st env v)
      unfolding unconsumed
      unconsumed-Along h = bind-Along P t _ _ (asked-Along v.payer _ h) look_up-Along

      lost_race-Along : (a : Answer (Option Receipt)) → Along P (lost_race st env v a)
      unfolding lost_race
      lost_race-Along failed = reply-Along _ _
      lost_race-Along (answered r) = answer_replay-Along _ v r

      claimed-Along : (a : Reserved) → Along P (claimed st env v a)
      unfolding claimed
      claimed-Along reserved = give-Along tt
      claimed-Along full = refuse-Along _ _ _
      claimed-Along exists = bind-Along P t _ _ reread lost_race-Along

      pub claim-Along :
          (expiry : ℕ)
          → Along P (call (st.reserve v.replay_id expiry env.now))
          → Along P (claim st env v expiry)
      unfolding claim
      claim-Along expiry h = bind-Along P t _ _ (asked-Along v.payer _ h) claimed-Along

    ambiguous-Along : (v : Verified) (hook : Option Bool) → Along P (ambiguous v hook)
    unfolding ambiguous
    ambiguous-Along v hook = refuse-Along _ _ _

    pub after_release-Along :
        (v : Verified) (hook : Option Bool) (a : Answer (Unit {0}))
        → Along P (after_release st v hook a)
    unfolding after_release
    after_release-Along v hook failed = reply-Along _ _
    after_release-Along v hook (answered u) = refuse-Along _ _ _

    not_applied-Along :
        (v : Verified) (hook : Option Bool)
        → Along P (call (st.release v.replay_id))
        → Along P (not_applied st v hook)
    unfolding not_applied
    not_applied-Along v hook h = bind-Along P t _ _ h (after_release-Along v hook)

    module _ (env : Env)
        (sets : (hash : Text) (e : ℕ)
          → Along P (call (st.set (codes "hash:" ++ hash) e env.now))) where
      bind_hash-Along : (e : ℕ) (h : Option Text) → Along P (bind_hash st e env.now h)
      unfolding bind_hash
      bind_hash-Along e none w = give-Along tt w
      bind_hash-Along e (some hash) w = elim (Bool-cases (length hash == 0)) [
        | inl z ↦ rw z (give-Along tt w)
        | inr z ↦ rw z (bind-Along P t _ (λ a. give tt) (sets hash e) (λ a. give-Along tt) w)
      ]

      module _ (req : Value) (v : Verified) (plan : Plan) (source : Option Source)
          (records : (r : Receipt)
            → Along P (call (st.set_receipt v.replay_id r (expiry_of env plan)))) where
        conclude-Along : (r : Response) → Along P (conclude st env req v plan source r)
        unfolding conclude
        conclude-Along r = then-Along P t _ _ (bind_hash-Along _ (as_text r.hash)) (
            then-Along P t _ _ (classify-Along _ _)
              (bind-Along P t _ _ (records _) (λ kept. reply-Along _ _)))

        read_result-Along : (r : Option Response) → Along P (read_result st env req v plan source r)
        unfolding read_result
        read_result-Along none = ambiguous-Along v _
        read_result-Along (some r) = conclude-Along r

        -- What follows a submission whose error, if any, does not prove that nothing was applied.
        pub maybe_applied-Along :
            (s : Submitted)
            → maybe_applied s ≡ true
            → Along P (submitted_as st env req v plan source s)
        unfolding submitted_as
        maybe_applied-Along (resolved r) h w = read_result-Along (read_response r) w
        maybe_applied-Along (threw e) h w = elim (Bool-cases (submit_definitely_not_applied e)) [
          | inl d ↦ absurd (ground (arith, d))
          | inr d ↦ rw d (ambiguous-Along v _ w)
        ]

        -- What follows any submission.
        pub submitted_as-Along :
            Along P (call (st.release v.replay_id))
            → (s : Submitted) → Along P (submitted_as st env req v plan source s)
        unfolding submitted_as
        submitted_as-Along f (resolved r) w = read_result-Along (read_response r) w
        submitted_as-Along f (threw e) w = elim (Bool-cases (submit_definitely_not_applied e)) [
          | inl d ↦ rw d (not_applied-Along v _ f w)
          | inr d ↦ rw d (ambiguous-Along v _ w)
        ]
