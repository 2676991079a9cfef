-- ===== src/Settle/Claim.antt =====
-- The store at the two ends of a call of settle: a key that is bound ends the call at the first look,
-- and a call that passes the reservation has bound its key.
use xahc.Prelude.{ℕ, ◌≡◌, refl, ap, sym, ◌∙◌, subst, Bool, true, false, Option, none, some}
use xahc.Verify.{Verified}
use xahc.Store.Memory.{Reserved, reserved, exists, full}
use xahc.Store.Interface.{
  ReplayStore, IsReplayStore, Answer, answered, failed, View, is_some, Binds, ConsumedResult,
  ReserveResult,
}
use xahc.Settle.Effects.{
  Receipt, Reply, Env, World, Exit, stop, go, resume, ◌>>=◌, ◌>>◌, give, reply, count, refuse, call,
  settle_store_unavailable,
}
use xahc.Settle.Before.{
  available_or_stop, answer_replay, asked, look_up, unconsumed, lost_race, claimed, claim,
}

module _ {S : Type 0} (st : ReplayStore Receipt S) (env : Env) (v : Verified) where
  abbrev pub Stops : Exit (Unit {0}) × World S → Type 0
  Stops r = (x : Reply) × (r.0 ≡ stop x)

  stop_not_go : (x : Reply) → ◌≡◌ {A = Exit (Unit {0})} (stop x) (go tt) → ⊥
  stop_not_go x h = cc (h)

  pub not_go : (r : Exit (Unit {0}) × World S) (w : World S) → Stops r → r ≡ (go tt, w) → ⊥
  not_go r w (x, e) h = stop_not_go x (sym e ∙ ap (λ y. y.0) h)

  answer_replay-Stops : (r : Option Receipt) (w : World S) → Stops (answer_replay v r w)
  unfolding answer_replay refuse count reply ◌>>◌
  answer_replay-Stops none w = (_, refl)
  answer_replay-Stops (some r) w = (_, refl)

  lost_race-Stops : (a : Answer (Option Receipt)) (w : World S) → Stops (lost_race st env v a w)
  unfolding lost_race reply
  lost_race-Stops failed w = (_, refl)
  lost_race-Stops (answered r) w = answer_replay-Stops r w

  receipt-Stops :
      (a : Answer (Option Receipt)) (w : World S)
      → Stops (resume (answer_replay v) (available_or_stop v.payer a w))
  unfolding available_or_stop settle_store_unavailable refuse give
  receipt-Stops failed w = (_, refl)
  receipt-Stops (answered r) w = answer_replay-Stops r w

  look_up-Stops : (w : World S) → Stops (look_up st env v true w)
  unfolding look_up ◌>>=◌ asked call
  look_up-Stops w =
      let r = st.get_receipt v.replay_id env.read_at w.store in
      receipt-Stops r.0 (record w { store = r.1 })

  -- The first look, by the answer of the store.
  look-Stops :
      (view : View S) (w : World S) (r : Answer Bool × S)
      → ConsumedResult view v.replay_id env.read_at w.store r
      → is_some (view w.store env.read_at v.replay_id) ≡ true
      → Stops (resume (look_up st env v) (available_or_stop v.payer r.0 (record w { store = r.1 })))
  unfolding available_or_stop settle_store_unavailable refuse give
  look-Stops view w (failed, s) h l = (_, refl)
  look-Stops view w (answered true, s) h l = look_up-Stops (record w { store = s })
  look-Stops view w (answered false, s) h l = absurd (cc (h.0, l))

  pub unconsumed-Stops :
      (view : View S) (w : World S)
      → IsReplayStore st view
      → is_some (view w.store env.read_at v.replay_id) ≡ true
      → Stops (unconsumed st env v w)
  unfolding unconsumed ◌>>=◌ asked call
  unconsumed-Stops view w is l =
      look-Stops view w (st.is_consumed v.replay_id env.read_at w.store)
        (is.consumes v.replay_id env.read_at w.store) l

  exists-Stops : (w : World S) → Stops (claimed st env v exists w)
  unfolding claimed ◌>>=◌ call
  exists-Stops w =
      let r = st.get_receipt v.replay_id env.reread_at w.store in
      lost_race-Stops r.0 (record w { store = r.1 })

  -- The reservation, by the answer of the store.
  claimed-reserved :
      (w w1 : World S) (r : Answer Reserved × S)
      → resume (claimed st env v) (available_or_stop v.payer r.0 (record w { store = r.1 }))
        ≡ (go tt, w1)
      → r ≡ (answered reserved, w1.store)
  unfolding available_or_stop settle_store_unavailable refuse give claimed
  claimed-reserved w w1 (failed, s) h = cc (h)
  claimed-reserved w w1 (answered reserved, s) h = ap (λ y. (answered reserved, y.1.store)) h
  claimed-reserved w w1 (answered full, s) h = cc (h)
  claimed-reserved w w1 (answered exists, s) h =
      absurd (not_go _ w1 (exists-Stops (record w { store = s })) h)

  claimed-same :
      (w w1 : World S) (r : Answer Reserved × S)
      → resume (claimed st env v) (available_or_stop v.payer r.0 (record w { store = r.1 }))
        ≡ (go tt, w1)
      → w1 ≡ record w { store = w1.store }
  unfolding available_or_stop settle_store_unavailable refuse give claimed
  claimed-same w w1 (failed, s) h = cc (h)
  claimed-same w w1 (answered reserved, s) h =
      subst (λ x. x ≡ record w { store = x.store }) (ap (λ y. y.1) h) refl
  claimed-same w w1 (answered full, s) h = cc (h)
  claimed-same w w1 (answered exists, s) h =
      absurd (not_go _ w1 (exists-Stops (record w { store = s })) h)

  -- A call that passes the reservation has reserved its key, and changes nothing but the store.
  pub claim-reserved :
      (expiry : ℕ) (w w1 : World S)
      → claim st env v expiry w ≡ (go tt, w1)
      → (st.reserve v.replay_id expiry env.now w.store ≡ (answered reserved, w1.store))
        × (w1 ≡ record w { store = w1.store })
  unfolding claim ◌>>=◌ asked call
  claim-reserved expiry w w1 h =
      let r = st.reserve v.replay_id expiry env.now w.store in
      (claimed-reserved w w1 r h, claimed-same w w1 r h)

  -- A call that passes the reservation found its key free, and holds it from now on.
  pub claim-Binds :
      (view : View S) (expiry : ℕ) (w w1 : World S)
      → IsReplayStore st view
      → claim st env v expiry w ≡ (go tt, w1)
      → (view w.store env.now v.replay_id ≡ none)
        × Binds view v.replay_id expiry env.now w.store w1.store
  unfolding claim ◌>>=◌ asked call
  claim-Binds view expiry w w1 is h =
      let e = claimed-reserved w w1 (st.reserve v.replay_id expiry env.now w.store) h in
      subst (ReserveResult view v.replay_id expiry env.now w.store) e
        (is.reserves v.replay_id expiry env.now w.store)
