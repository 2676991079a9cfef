-- ===== src/Demo/Resource/Sale.antt =====
-- What is behind content that the resource server hands out.
use xahc.Prelude.{
  String, ◌≡◌, refl, true, ◌&&◌, Option, none, some, ◌==◌, Bool-cases, &&_true, ==_iff, inl, inr,
}
use xahc.Prelude.Text.{Text, codes, text_eq}
use xahc.Js.{Value, prop, is_truthy}
use xahc.Demo.Resource.{
  Shop, Entry, Fetched, Facilitator, Req, Payment, sold, payment_blob, payment, posted, offer,
  payment_requirements, entry_for, json_of, accepts, send, facilitator_post, after_settle,
  after_verify, sell, serve_entry, serve,
}

-- A response with status 200 whose field is truthy.
pub record Grants (k : String) (a : Fetched) : Type 0 where
  pub status : a.status ≡ 200
  pub field : is_truthy (prop k (json_of a)) ≡ true

Grants-of : (k : String) (a : Fetched) → accepts k a ≡ true → Grants k a
Grants-of k a h =
    let (s, f) = &&_true (a.status == 200) (is_truthy (prop k (json_of a))) h in
    record { status = (==_iff a.status 200).0 s; field = f }

module _ {F : Type 0} (fac : Facilitator F) (shop : Shop) where
  -- Content that is handed out: the resource and the payment are there, and the facilitator has
  -- verified the payment and then settled it.
  pub record IsSale (req : Req) (f : F) (content : Value) (p : Payment) : Type 0 where
    pub entry : Entry
    pub blob : Text
    pub listed : entry_for req ≡ some entry
    pub presented : payment_blob shop.parse req.x_payment ≡ some blob
    pub is_its : content ≡ entry.content
    pub body : Value
    pub about : body ≡ posted blob (offer shop.merchant req.url entry.price_drops)
    pub verification : Fetched
    pub between : F
    pub verified : facilitator_post fac shop (codes "/verify") body f ≡ (some verification, between)
    pub valid : Grants "isValid" verification
    pub settlement : Fetched
    pub after : F
    pub settled :
        facilitator_post fac shop (codes "/settle") body between ≡ (some settlement, after)
    pub success : Grants "success" settlement
    pub receipt : p ≡ payment settlement

  -- What settled content comes from.
  after_settle-sold :
      (e : Entry) (reqs content : Value) (p : Payment) (x : Option Fetched × F)
      → (after_settle e reqs x).0.content ≡ sold content p
      → (a : Fetched) × (f : F) × (x ≡ (some a, f))
        × Grants "success" a
        × (content ≡ e.content)
        × (p ≡ payment a)
  unfolding after_settle send
  after_settle-sold e reqs content p (none, f) h = cc (h)
  after_settle-sold e reqs content p (some a, f) h = elim (Bool-cases (accepts "success" a)) [
    | inl g ↦
        let same : sold e.content (payment a) ≡ sold content p = rw g at h in
        (a, f, refl, Grants-of "success" a g, cc (same), cc (same))
    | inr g ↦ absurd (cc (g, h))
  ]

  module _ (req : Req) (content : Value) (p : Payment) where
    after_verify-sold :
        (e : Entry) (blob : Text) (f : F) (x : Option Fetched × F)
        → entry_for req ≡ some e
        → payment_blob shop.parse req.x_payment ≡ some blob
        → facilitator_post fac shop
            (codes "/verify")
            (posted blob (offer shop.merchant req.url e.price_drops))
            f
          ≡ x
        → (after_verify fac shop e
            (payment_requirements shop.merchant req.url e.price_drops)
            (posted blob (offer shop.merchant req.url e.price_drops))
            x).0.content
          ≡ sold content p
        → IsSale req f content p
    unfolding after_verify send
    after_verify-sold e blob f (none, f1) he hb hv h = cc (h)
    after_verify-sold e blob f (some a, f1) he hb hv h = elim (Bool-cases (accepts "isValid" a)) [
      | inr g ↦ absurd (cc (g, h))
      | inl g ↦
          let settling =
            facilitator_post fac shop (codes "/settle")
              (posted blob (offer shop.merchant req.url e.price_drops)) f1 in
          let (s, f2, settled, success, its, receipt) =
            after_settle-sold e (payment_requirements shop.merchant req.url e.price_drops) content p
              settling (rw g at h) in
          record {
            entry = e;
            blob = blob;
            listed = he;
            presented = hb;
            is_its = its;
            body = posted blob (offer shop.merchant req.url e.price_drops);
            about = refl;
            verification = a;
            between = f1;
            verified = hv;
            valid = Grants-of "isValid" a g;
            settlement = s;
            after = f2;
            settled = settled;
            success = success;
            receipt = receipt;
          }
    ]

    sell-sold :
        (e : Entry) (f : F) (o : Option Text)
        → entry_for req ≡ some e
        → payment_blob shop.parse req.x_payment ≡ o
        → (sell fac shop req.url e o f).0.content ≡ sold content p
        → IsSale req f content p
    unfolding sell send
    sell-sold e f none he hb h = cc (h)
    sell-sold e f (some blob) he hb h = after_verify-sold e blob f _ he hb refl h

    serve_entry-sold :
        (f : F) (o : Option Entry)
        → entry_for req ≡ o
        → (serve_entry fac shop req o f).0.content ≡ sold content p
        → IsSale req f content p
    unfolding serve_entry send
    serve_entry-sold f none he h = cc (h)
    serve_entry-sold f (some e) he h = sell-sold e f _ he refl h

    -- Whatever the facilitator does, content is handed out only for a GET of its path with a payment that
    -- the facilitator has verified, and then settled, by answers of status 200 with isValid and success to
    -- one body: the payment, and the requirements of the offer of that path, less the scheme exact.
    pub serve-IsSale :
        (f : F) → (serve fac shop req f).0.content ≡ sold content p → IsSale req f content p
    unfolding serve send
    serve-IsSale f h =
        elim (Bool-cases (text_eq req.method (codes "GET") && text_eq req.url (codes "/health"))) [
          | inl e ↦ absurd (cc (e, h))
          | inr e ↦ serve_entry-sold f (entry_for req) refl (rw e at h)
        ]
