-- ===== src/Http/Routes/Fresh.antt =====
-- The server, settle and the store together: what a request that submits settles.
use xahc.Prelude.{◌≡◌, ◌≢◌, refl, ap, ◌∙◌, false, Option, none, some, Bool-cases, inl, inr}
use xahc.Js.{Value, prop}
use xahc.Message.{ok}
use xahc.Verify.{Verified, verify_exact}
use xahc.Store.Interface.{ReplayStore, IsReplayStore, View, is_some}
use xahc.Settle.{settle}
use xahc.Settle.Effects.{
  Receipt, Reply, refused, dry_run, predicted_reject, settled, replayed, escaped, Env, World,
}
use xahc.Settle.Opening.{settle-Attempt}
use xahc.Settle.Once.{settle-bound}
use xahc.Node.{current_validated_ledger}
use xahc.Http.Request.{Req, Server, Site, member, is_true}
use xahc.Http.Guards.{Handler, send, fail, fields, with_payment}
use xahc.Http.Routes.{settle_reply, settle_body, handle}
use xahc.Http.Routes.Submits.{Submits, IsSettlement, handle-Body}

-- The environment of settle for a body, with its two flags and the server's fetcher.
abbrev flagged : {L : Type 0} → Server L → Value → Env
flagged server b = record server.env {
  dry_run = is_true (prop "dryRun" b);
  pre_sim_reject = is_true (prop "preSimReject" b);
  get_ledger = current_validated_ledger;
}

module _ {S L : Type 0} where
  settle_reply-world : (s : Site S L) (out : Reply × World S) → (settle_reply s out).1.world ≡ out.1
  unfolding settle_reply send fail
  settle_reply-world s (refused r, w) = refl
  settle_reply-world s (dry_run payer sim, w) = refl
  settle_reply-world s (predicted_reject payer sim, w) = refl
  settle_reply-world s (settled r, w) = refl
  settle_reply-world s (replayed r, w) = refl
  settle_reply-world s (escaped, w) = refl

  fields-Submits :
      (k : Value → Value → Handler S L) (o p : Option Value) (s : Site S L)
      → Submits (fields k o p) s
      → (payload : Value) × (requirements : Value) × (o ≡ some payload)
        × (p ≡ some requirements)
        × Submits (k payload requirements) s
  unfolding fields fail send
  fields-Submits k none p s n = absurd (n refl)
  fields-Submits k (some v) none s n = absurd (n refl)
  fields-Submits k (some v) (some w) s n = (v, w, refl, refl, n)

  module _ (st : ReplayStore Receipt S) (view : View S) (server : Server L) (req : Req) where
    -- A settlement of a payment that verifyExact accepts and whose replay key is not bound when settle
    -- first looks.
    pub record IsFresh (s : Site S L) : Type 0 where
      pub settlement : IsSettlement st server req s
      pub payload : Value
      pub paid : member "paymentPayload" settlement.body ≡ some payload
      pub requirements : Value
      pub required : member "paymentRequirements" settlement.body ≡ some requirements
      pub verified : Verified
      pub accepted :
          verify_exact server.env.libs server.env.network payload requirements ≡ ok verified
      pub free : is_some (view s.world.store server.env.read_at verified.replay_id) ≡ false

    -- On a store that meets the contract, whatever a request is, it submits a transaction only if it is
    -- POST /settle with the shared secret, the rate limiter lets it through, its body is read as JSON,
    -- the payment is one that verifyExact accepts, and its replay key is not bound when settle first
    -- looks at the store.
    pub handle-IsFresh :
        (is : IsReplayStore st view) (s : Site S L)
        → (handle st server req s).1.world.submitted ≢ s.world.submitted
        → IsFresh s
    unfolding settle_body with_payment
    handle-IsFresh is s n =
        let (i, sent) = handle-Body st server req s n in
        let env = flagged server i.body in
        let (payload, requirements, p, r, sent') = fields-Submits _ _ _ _ sent in
        let out = settle st env payload requirements s.world in
        let changed : out.1.submitted ≢ s.world.submitted =
          λ e. sent' (ap (λ w. w.submitted) (settle_reply-world _ out) ∙ e) in
        elim (settle-Attempt st env payload requirements s.world) [
          | inl idle ↦ absurd (changed idle.1)
          | inr a ↦
              elim (Bool-cases (is_some (view s.world.store server.env.read_at a.v.replay_id))) [
                | inl bound ↦ absurd (
                    changed (
                      settle-bound st view is
                        (record { env = env; payload = payload; req = requirements }) a.v s.world
                        a.accepted bound))
                | inr free ↦ record {
                  settlement = i;
                  payload = payload;
                  paid = p;
                  requirements = requirements;
                  required = r;
                  verified = a.v;
                  accepted = a.accepted;
                  free = free;
                }
              ]
        ]
