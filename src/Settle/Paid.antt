-- ===== src/Settle/Paid.antt =====
-- A receipt of success: the ledger reports what the payment requires.
use xahc.Prelude.{
  ℕ, ◌≤◌, ◌≡◌, refl, arith, true, false, Option, none, some, Option-cases, Bool-cases, inl, inr,
}
use xahc.Prelude.Text.{codes, text_eq}
use xahc.Message.{ok, Check-cases}
use xahc.Js.{Value, str}
use xahc.Amount.Token.{TokenValue, parse_token_value}
use xahc.Amount.Currency.{canonicalize_currency}
use xahc.Amount.Issued.{Asset, IssuedTexts}
use xahc.Verify.{Verified}
use xahc.Authorize.{Source}
use xahc.Settle.Submit.{Response}
use xahc.Settle.Outcome.{
  Required, drops, units, Delivered, delivered_drops, delivered_issued, same_code, below,
  check_drops, check_units, outcome,
}
use xahc.Settle.Effects.{Env}
use xahc.Settle.Before.{Plan}
use xahc.Settle.After.{required_of, receipt_of, succeeded, proof_of}

-- delivered_amount in drops is at least what is required.
pub record PaysDrops (n : ℕ) (meta : Value) : Type 0 where
  pub amount : ℕ
  pub read : delivered_drops meta ≡ some amount
  pub enough : n ≤ amount

-- delivered_amount is of the required asset, and not below the required value.
pub record PaysUnits (asset : Asset) (required : Option TokenValue) (meta : Value) : Type 0 where
  pub texts : IssuedTexts
  pub value : TokenValue
  pub want : TokenValue
  pub read : delivered_issued meta ≡ some texts
  pub currency :
      same_code
        (canonicalize_currency (str texts.currency))
        (canonicalize_currency (str asset.currency))
      ≡ true
  pub issuer : text_eq texts.issuer asset.issuer ≡ true
  pub parsed : parse_token_value (str texts.value) ≡ some value
  pub wanted : required ≡ some want
  pub enough : below value want ≡ false

abbrev pub IsPaidOut : Required → Value → Type 0
IsPaidOut (drops n) meta = PaysDrops n meta
IsPaidOut (units asset v) meta = PaysUnits asset v meta

check_drops_sound :
    (n : ℕ) (meta : Value) (d : Delivered) → check_drops n meta ≡ ok d → PaysDrops n meta
unfolding check_drops
check_drops_sound n meta d h = elim (Option-cases (delivered_drops meta)) [
  | inl e ↦ absurd (ground (arith, e))
  | inr (m, e) ↦ record { amount = m; read = e; enough = ground (arith, e) }
]

check_units_sound :
    (asset : Asset) (v : Option TokenValue) (meta : Value) (d : Delivered)
    → check_units asset v meta ≡ ok d
    → PaysUnits asset v meta
unfolding check_units
check_units_sound asset none meta d h = elim (Option-cases (delivered_issued meta)) [
  | inl e ↦ absurd (ground (arith, e))
  | inr (x, e) ↦ elim (Option-cases (parse_token_value (str x.value))) [
    | inl f ↦ absurd (ground (arith, e, f))
    | inr (w, f) ↦ absurd (ground (arith, e, f))
  ]
]
check_units_sound asset (some v) meta d h = elim (Option-cases (delivered_issued meta)) [
  | inl e ↦ absurd (ground (arith, e))
  | inr (x, e) ↦ elim (Option-cases (parse_token_value (str x.value))) [
    | inl f ↦ absurd (ground (arith, e, f))
    | inr (w, f) ↦ record {
      texts = x;
      value = w;
      want = v;
      read = e;
      currency = ground (arith, e, f);
      issuer = ground (arith, e, f);
      parsed = f;
      wanted = refl;
      enough = ground (arith, e, f);
    }
  ]
]

outcome_sound :
    (required : Required) (r : Response) (d : Delivered)
    → outcome required r ≡ ok d
    → (text_eq r.code (codes "tesSUCCESS") ≡ true) × IsPaidOut required r.meta
unfolding outcome
outcome_sound (drops n) r d h = elim (Bool-cases (text_eq r.code (codes "tesSUCCESS"))) [
  | inl e ↦ (e, check_drops_sound n r.meta d (ground (arith, e)))
  | inr e ↦ absurd (ground (arith, e))
]
outcome_sound (units asset v) r d h = elim (Bool-cases (text_eq r.code (codes "tesSUCCESS"))) [
  | inl e ↦ (e, check_units_sound asset v r.meta d (ground (arith, e)))
  | inr e ↦ absurd (ground (arith, e))
]

-- A receipt of success is of a transaction with the result tesSUCCESS whose delivered amount meets
-- what the verified payment commits to: enough drops, or enough of the required asset.
pub receipt_of-success :
    (env : Env) (req : Value) (v : Verified) (plan : Plan) (source : Option Source) (r : Response)
    → (receipt_of env req v plan source r).success ≡ true
    → (text_eq r.code (codes "tesSUCCESS") ≡ true) × IsPaidOut (required_of v) r.meta
unfolding receipt_of succeeded
receipt_of-success env req v plan source r h = elim (Check-cases (outcome (required_of v) r)) [
  | inl (m, e) ↦ absurd (ground (arith, e))
  | inr (d, e) ↦ outcome_sound (required_of v) r d e
]

-- Only a receipt of success carries a proof.
pub receipt_of-proof :
    (env : Env) (req : Value) (v : Verified) (plan : Plan) (source : Option Source) (r : Response)
    → (receipt_of env req v plan source r).success ≡ false
    → (receipt_of env req v plan source r).proof ≡ none
unfolding receipt_of succeeded proof_of
receipt_of-proof env req v plan source r h = elim (Check-cases (outcome (required_of v) r)) [
  | inl (m, e) ↦ rw e refl
  | inr (d, e) ↦ absurd (ground (arith, e))
]
