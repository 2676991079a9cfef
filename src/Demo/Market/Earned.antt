-- ===== src/Demo/Market/Earned.antt =====
-- What the merchant has when content is handed out through the launcher.
use xahc.Prelude.{
  ℕ, String, ◌≤◌, ◌≡◌, refl, sym, ap, ◌∙◌, subst, true, Option, some, List, Bool-cases,
  Option-cases, inl, inr,
}
use xahc.Prelude.Text.{Text, codes, text_eq}
use xahc.Message.{Check, ok, Check-cases}
use xahc.Js.{Value, str, prop, is_truthy}
use xahc.Node.{Node}
use xahc.Digits.{decimal}
use xahc.Amount.Drops.{parse_strict_drops}
use xahc.Libs.{Libs}
use xahc.Verify.{
  Verified, verify_exact, Scheme, Price, native, issued, Paid, drops, token, amount_text,
  asset_texts,
}
use xahc.Verify.Accepts.{IsPrice, Pays}
use xahc.Verify.Sound.{verify_exact_sound}
use xahc.Store.Interface.{ReplayStore}
use xahc.Settle.Effects.{
  Receipt, Reply, refused, dry_run, predicted_reject, settled, replayed, escaped, World,
}
use xahc.Settle.Success.{IsPaid, IsSettlement-IsPaid}
use xahc.Http.Body.{Event}
use xahc.Demo.Facilitator
use xahc.Demo.Facilitator.{
  Launcher, client_of, parsed, read_body, injected, injected_settle, settle_reply,
}
use xahc.Demo.Facilitator.Settles.{injected_settle-IsSettlement}
use xahc.Demo.Resource.{
  Shop, Entry, Fetched, Req, Payment, sold, payload_of, posted, requirements, offer, entry_for,
  payment_blob, facilitator_post, serve, json_of,
}
use xahc.Demo.Resource.Sale.{Grants, serve-IsSale}
use xahc.Demo.Market.{
  fetched, content_json, reply_json, receipt_json, verified_json, post_of, through,
}

-- A reply of success: a receipt of this call or one that the store has kept.
abbrev Succeeds : Reply → Type 0
Succeeds (settled r) = r.success ≡ true
Succeeds (replayed r) = r.success ≡ true
Succeeds (refused r) = ⊥
Succeeds (dry_run payer sim) = ⊥
Succeeds (predicted_reject payer sim) = ⊥
Succeeds escaped = ⊥

field_of-answer :
    {k : String} {x a : Fetched}
    → ◌≡◌ {A = Option Fetched} (some x) (some a)
    → Grants k a
    → is_truthy (prop k (json_of x)) ≡ true
field_of-answer {k = k} {x = x} {a = a} h g =
    let same : x ≡ a = cc (h) in
    subst (λ y. is_truthy (prop k (json_of y)) ≡ true) (sym same) g.field

module _ {S : Type 0} where
  settle_reply-Succeeds :
      (x : Reply × World S) (a : Fetched) (w : World S)
      → fetched (settle_reply x) ≡ (some a, w)
      → Grants "success" a
      → Succeeds x.0
  unfolding fetched settle_reply Facilitator.send Facilitator.internal_error content_json reply_json
      receipt_json
  settle_reply-Succeeds (settled r, w1) a w h g = field_of-answer (ap (λ p. p.0) h) g
  settle_reply-Succeeds (replayed r, w1) a w h g = field_of-answer (ap (λ p. p.0) h) g
  settle_reply-Succeeds (refused r, w1) a w h g = cc (field_of-answer (ap (λ p. p.0) h) g)
  settle_reply-Succeeds (dry_run payer sim, w1) a w h g = cc (field_of-answer (ap (λ p. p.0) h) g)
  settle_reply-Succeeds (predicted_reject payer sim, w1) a w h g =
      cc (field_of-answer (ap (λ p. p.0) h) g)
  settle_reply-Succeeds (escaped, w1) a w h g = cc (field_of-answer (ap (λ p. p.0) h) g)

module _ {S : Type 0} (st : ReplayStore Receipt S) (l : Launcher) (blob : Text) (accept : Value)
    (events : List Event)
    (read : read_body l.parse events ≡ some (parsed (posted blob accept))) where
  abbrev report : Check Verified
  report = verify_exact l.env.libs l.env.network (payload_of blob) (requirements accept)

  -- The launcher's answer to /verify.
  pub verify_answer :
      (secret : Option Text) (w : World S)
      → Facilitator.handle st l (post_of (codes "/verify") secret events) w
        ≡ Facilitator.send 200 (Facilitator.verified_as report) w
  unfolding Facilitator.handle text_eq Facilitator.post_verify Facilitator.with_body
      Facilitator.read_result Facilitator.with_payment Facilitator.fields posted
  verify_answer secret w = rw read refl

  verify_answer-valid :
      (secret : Option Text) (w w1 : World S) (a : Fetched)
      → fetched (Facilitator.handle st l (post_of (codes "/verify") secret events) w) ≡ (some a, w1)
      → Grants "isValid" a
      → (w1 ≡ w) × (v : Verified) × (report ≡ ok v)
  unfolding fetched Facilitator.send content_json verified_json
  verify_answer-valid secret w w1 a h g =
      let answer = rw (verify_answer secret w) at h in
      elim (Check-cases report) [
        | inl (m, e) ↦ absurd (cc (field_of-answer (ap (λ p. p.0) (rw e at answer)) g))
        | inr (v, e) ↦ (sym (ap (λ p. p.1) answer), v, e)
      ]

  -- The launcher's answer to /settle.
  settle_answer :
      (secret : Option Text) (w w1 : World S) (a : Fetched)
      → fetched (Facilitator.handle st l (post_of (codes "/settle") secret events) w) ≡ (some a, w1)
      → Grants "success" a
      → (node : Node) × (client_of l ≡ some node)
        × Succeeds (injected_settle st l node (payload_of blob) (requirements accept) w).0
  unfolding Facilitator.handle text_eq Facilitator.post_settle Facilitator.with_body
      Facilitator.read_result Facilitator.with_payment Facilitator.fields posted
      Facilitator.settle_body Facilitator.settle_with fetched Facilitator.send
      Facilitator.internal_error content_json injected_settle injected
  settle_answer secret w w1 a h g =
      elim (Bool-cases (Facilitator.auth_ok l.buffers l.secret secret)) [
        | inr e ↦ absurd (cc (field_of-answer (ap (λ p. p.0) (rw e at h)) g))
        | inl e ↦ elim (Option-cases (client_of l)) [
          | inl c ↦ absurd (cc (field_of-answer (ap (λ p. p.0) (rw (e, read, c) at h)) g))
          | inr (node, c) ↦ (
            node,
            c,
            settle_reply-Succeeds
                (injected_settle st l node (payload_of blob) (requirements accept) w) a w1
                (rw (e, read, c) at h) g,
          )
        ]
      ]

-- The payment is of at most the price, in drops.
pub record IsWithin (price amount : Text) : Type 0 where
  pub max : ℕ
  pub paid : ℕ
  pub priced : parse_strict_drops (str price) ≡ some max
  pub within : paid ≤ max
  pub printed : amount ≡ decimal paid

within_of :
    (libs : Libs) (scheme : Scheme) (merchant path price amount : Text) (given : Value) (p : Price)
    (q : Paid)
    → IsPrice libs (requirements (offer merchant path price)) p
    → Pays libs scheme given p q
    → amount ≡ amount_text q
    → IsWithin price amount
unfolding requirements offer amount_text asset_texts
within_of libs scheme merchant path price amount given (native max) (drops n) (IsPrice.in_drops a m)
      (Pays.in_drops d le e) h =
    record { max = max; paid = n; priced = m; within = le; printed = h }
within_of libs scheme merchant path price amount given (native max) (token u) x y h = elim y [ ]
within_of libs scheme merchant path price amount given (issued asset max) q
      (IsPrice.in_token a c i m) y h =
    cc (a)

accepted_within :
    (libs : Libs) (network : ℕ) (blob merchant path price : Text) (v : Verified)
    → verify_exact libs network (payload_of blob) (requirements (offer merchant path price)) ≡ ok v
    → IsWithin price v.amount
accepted_within libs network blob merchant path price v h =
    let a = verify_exact_sound libs network (payload_of blob) _ v h in
    within_of libs v.scheme merchant path price v.amount _ a.price a.paid a.priced a.pays a.amount

module _ {S : Type 0} (st : ReplayStore Receipt S) (l : Launcher) where
  abbrev IsBacked : Node → Value → Value → World S → Reply → Type 0
  IsBacked node payload req w (settled r) = IsPaid st (injected l node) payload req r
  IsBacked node payload req w (replayed r) = r.success ≡ true
  IsBacked node payload req w (refused r) = ⊥
  IsBacked node payload req w (dry_run payer sim) = ⊥
  IsBacked node payload req w (predicted_reject payer sim) = ⊥
  IsBacked node payload req w escaped = ⊥

  backed :
      (node : Node) (payload req : Value) (w : World S) (r : Reply)
      → (injected_settle st l node payload req w).0 ≡ r
      → Succeeds r
      → IsBacked node payload req w r
  backed node payload req w (settled r) h s =
      IsSettlement-IsPaid st (injected l node) payload req r
        (injected_settle-IsSettlement st l node payload req w r h) s
  backed node payload req w (replayed r) h s = s
  backed node payload req w (refused r) h s = s
  backed node payload req w (dry_run payer sim) h s = s
  backed node payload req w (predicted_reject payer sim) h s = s
  backed node payload req w escaped h s = s

  -- Content that is handed out is paid for: verifyExact accepts the payment against the requirements that
  -- the server posts for the entry, its amount is at most the price, and the launcher has settled it, or
  -- has a receipt of success of it.
  pub record IsEarned (shop : Shop) (req : Req) (e : Entry) (blob : Text) (w : World S)
      : Type 0 where
    pub v : Verified
    pub accepted :
        verify_exact l.env.libs l.env.network
          (payload_of blob)
          (requirements (offer shop.merchant req.url e.price_drops))
        ≡ ok v
    pub amount : IsWithin e.price_drops v.amount
    pub node : Node
    pub connected : client_of l ≡ some node
    pub earned :
        IsBacked node
          (payload_of blob)
          (requirements (offer shop.merchant req.url e.price_drops))
          w
          (injected_settle st l node
            (payload_of blob)
            (requirements (offer shop.merchant req.url e.price_drops))
            w).0

  -- Through a launcher that reads the body that it is sent: content is handed out only for a payment that
  -- verifyExact accepts against the requirements that the server posts, which are those of the entry's
  -- offer to the merchant, less the scheme exact; its amount is at most the price, and settle answers it
  -- with a success: a receipt of its own, of which the ledger reports tesSUCCESS and the amount that the
  -- payment commits to, or one that it has kept.
  pub serve-IsEarned :
      (shop : Shop) (wire : Value → List Event) (req : Req) (e : Entry) (blob : Text) (w : World S)
      → entry_for req ≡ some e
      → payment_blob shop.parse req.x_payment ≡ some blob
      → read_body l.parse (wire (posted blob (offer shop.merchant req.url e.price_drops)))
        ≡ some (parsed (posted blob (offer shop.merchant req.url e.price_drops)))
      → (content : Value) (p : Payment)
      → (serve (through st l wire) shop req w).0.content ≡ sold content p
      → IsEarned shop req e blob w
  unfolding through facilitator_post
  serve-IsEarned shop wire req e blob w he hb hr content p h =
      let s = serve-IsSale (through st l wire) shop req content p w h in
      let accept = offer shop.merchant req.url e.price_drops in
      let same_blob : s.blob ≡ blob = cc (s.presented, hb) in
      let same_entry : s.entry ≡ e = cc (s.listed, he) in
      let body : s.body ≡ posted blob accept =
        s.about
        ∙ ap {A = Text} (λ x. posted x (offer shop.merchant req.url s.entry.price_drops)) same_blob
        ∙ ap {A = Entry} (λ x. posted blob (offer shop.merchant req.url x.price_drops))
            same_entry in
      let events = wire (posted blob accept) in
      let (same, v, accepted) =
        verify_answer-valid st l blob accept events hr _ w s.between s.verification
          (rw body at s.verified) s.valid in
      let (node, connected, success) =
        settle_answer st l blob accept events hr _ s.between s.after s.settlement
          (rw body at s.settled) s.success in
      record {
        v = v;
        accepted = accepted;
        amount =
            accepted_within l.env.libs l.env.network blob shop.merchant req.url e.price_drops v
              accepted;
        node = node;
        connected = connected;
        earned = backed node (payload_of blob) (requirements accept) w _ refl (
            subst
              (λ x.
                Succeeds (injected_settle st l node (payload_of blob) (requirements accept) x).0)
              same success);
      }
