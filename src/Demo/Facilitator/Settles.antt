-- ===== src/Demo/Facilitator/Settles.antt =====
-- The receipts of the launcher are receipts of settle.
use xahc.Prelude.{◌≡◌, subst, Option-cases, inl, inr}
use xahc.Js.{Value}
use xahc.Message.{ok}
use xahc.Node.{Node}
use xahc.Verify.{verify_exact}
use xahc.Store.Interface.{ReplayStore}
use xahc.Metrics
use xahc.Metrics.{settle_calls}
use xahc.Settle.Effects.{Receipt, settled, World, reply}
use xahc.Settle.Before.{decoded, verified}
use xahc.Settle.Success.Ensured.{
  IsSettlement, Backed, Ensures, bind-Ensures, then-Ensures, count-Ensures,
}
use xahc.Settle.Success.Before.{
  opened-Ensures, checked-Ensures, unconsumed-Ensures, configured-Ensures,
}
use xahc.Settle.Success.{reply_of-Good, settle-IsSettlement}
use xahc.Demo.Facilitator.{Launcher, injected, fetch_ledger, unread_ledger, injected_settle}

module _ {S : Type 0} (st : ReplayStore Receipt S) (l : Launcher) (node : Node)
    (payload req : Value) where
  -- A fetcher that throws ends settle before it has a receipt of its own.
  unread_ledger-Ensures :
      let env = injected l node in
      Ensures (Backed env payload req) (Backed env payload req) (unread_ledger st env payload req)
  unfolding unread_ledger verified reply
  unread_ledger-Ensures =
      let env = injected l node in
      let good = Backed env payload req in
      then-Ensures good good _ _ (count-Ensures good settle_calls) (
        then-Ensures good good _ _ (configured-Ensures st env payload req) (
          bind-Ensures good (λ v. verify_exact env.libs env.network payload req ≡ ok v) good _ _
            (opened-Ensures st env payload req (verify_exact env.libs env.network payload req))
            (λ v q. then-Ensures good good _ _ (unconsumed-Ensures st env payload req v) (
              bind-Ensures good (λ b. decoded env payload ≡ ok b) good _ _
                (checked-Ensures st env payload req Metrics.other v.payer (decoded env payload))
                (λ b p w. tt)))))

  pub injected_settle-IsSettlement :
      (w : World S) (r : Receipt)
      → (injected_settle st l node payload req w).0 ≡ settled r
      → IsSettlement (injected l node) payload req r
  unfolding injected_settle
  injected_settle-IsSettlement w r h = elim (Option-cases (fetch_ledger node)) [
    | inl e ↦ subst (Backed (injected l node) payload req) (rw (injected_settle, e) at h) (
        reply_of-Good st (injected l node) payload req
          (unread_ledger st (injected l node) payload req w) (unread_ledger-Ensures w))
    | inr (index, e) ↦
        settle-IsSettlement st (injected l node) payload req w r (rw (injected_settle, e) at h)
  ]
