-- ===== src/Scripts/EmitVm.antt =====
-- scripts/verify-emit-vm.mjs: the check of the transactions that a Hook emits in a virtual machine.
use xahc.Prelude.{
  ℕ, zero, suc, ◌≡◌, ◌↔◌, refl, Bool, true, false, ◌||◌, not, Option, none, some, List, [], ◌∷◌,
  arith, if◌then◌else◌, length, ◌==◌, take, Bool-cases, ◌⊎◌, inl, inr,
}
use xahc.Prelude.Text.{Text, codes, text_eq}

-- The next field: its name, once it is read and printed, or an exception of that.
pub data Read : Type 0 where
  field : Text → Read
  throws : Read

-- A run of the virtual machine: whether it is degraded, and the emitted blobs.
pub record Run : Type 0 where
  pub degraded : Bool
  pub emitted : List Text

-- The loop over the fields of one blob, while `n` more may be read: whether an Amount is decoded. The
-- list ends where the parser does.
unfoldable pub decoded_amount : ℕ → List Read → Bool → Bool
decoded_amount zero rs seen = seen
decoded_amount (suc n) [] seen = seen
decoded_amount (suc n) (throws ∷ rs) seen = seen
decoded_amount (suc n) (field name ∷ rs) seen =
    decoded_amount n rs (text_eq name (codes "Amount") || seen)

-- The flag `failed` after the blobs.
unfoldable pub failed_after : (Text → List Read) → List Text → Bool → Bool
failed_after parse [] failed = failed
failed_after parse (blob ∷ blobs) failed =
    failed_after parse blobs (not (decoded_amount 25 (parse blob) false) || failed)

-- What there is: XAHAU_MCP and the path of the Hook, if they are given, and the run.
unfoldable pub exit_code : Option Text → Option Text → Run → (Text → List Read) → ℕ
exit_code none path run parse = 1
exit_code (some mcp) none run parse = 1
exit_code (some mcp) (some path) run parse =
    if length mcp == 0 || length path == 0
    then 1
    else if failed_after parse run.emitted run.degraded
    then 1
    else 0

-- An Amount among these fields, before an exception.
abbrev pub HasAmount : List Read → Type 0
HasAmount [] = ⊥
HasAmount (throws ∷ rs) = ⊥
HasAmount (field name ∷ rs) = (text_eq name (codes "Amount") ≡ true) ⊎ HasAmount rs

-- Every blob shows an Amount among its first 25 fields.
abbrev pub AllAmounts : (Text → List Read) → List Text → Type 0
AllAmounts parse [] = Unit {0}
AllAmounts parse (blob ∷ blobs) = HasAmount (take 25 (parse blob)) × AllAmounts parse blobs

decoded_amount_iff :
    (n : ℕ) (rs : List Read) (seen : Bool)
    → (decoded_amount n rs seen ≡ true) ↔ ((seen ≡ true) ⊎ HasAmount (take n rs))
unfolding decoded_amount
decoded_amount_iff zero rs seen = (λ h. inl h, λ h. elim h [ inl e ↦ e | inr a ↦ absurd a ])
decoded_amount_iff (suc n) [] seen = (λ h. inl h, λ h. elim h [ inl e ↦ e | inr a ↦ absurd a ])
decoded_amount_iff (suc n) (throws ∷ rs) seen =
    (λ h. inl h, λ h. elim h [ inl e ↦ e | inr a ↦ absurd a ])
decoded_amount_iff (suc n) (field name ∷ rs) seen =
    let (to, from) = decoded_amount_iff n rs (text_eq name (codes "Amount") || seen) in
    elim (Bool-cases (text_eq name (codes "Amount"))) [
      | inl e ↦ (λ h. inr (inl e), λ h. from (inl (rw e refl)))
      | inr e ↦ (
        λ h. elim (to h) [ inl s ↦ inl (rw e at s) | inr a ↦ inr (inr a) ],
        λ h. elim h [
          | inl s ↦ from (inl (rw e s))
          | inr x ↦ elim x [ inl y ↦ from (inl (rw y refl)) | inr a ↦ from (inr a) ]
        ],
      )
    ]

failed_after_iff :
    (parse : Text → List Read) (blobs : List Text) (failed : Bool)
    → (failed_after parse blobs failed ≡ false) ↔ ((failed ≡ false) × AllAmounts parse blobs)
unfolding failed_after
failed_after_iff parse [] failed = (λ h. (h, tt), λ h. h.0)
failed_after_iff parse (blob ∷ blobs) failed =
    let amount = decoded_amount_iff 25 (parse blob) false in
    let (to, from) =
      failed_after_iff parse blobs (not (decoded_amount 25 (parse blob) false) || failed) in
    elim (Bool-cases (decoded_amount 25 (parse blob) false)) [
      | inl e ↦
          let has : HasAmount (take 25 (parse blob)) = elim (amount.0 e) [
            | inl f ↦ cc (f)
            | inr a ↦ a
          ] in
          (λ h. let (f, all) = to h in (rw e at f, (has, all)), λ (f, (_, all)). from (rw e f, all))
      | inr e ↦ (
        λ h. absurd (cc (rw e at (to h).0)),
        λ (_, (has, _)). absurd (cc (e, amount.1 (inr has))),
      )
    ]

-- With both arguments given, the script exits with 0 exactly if the run is not degraded and every
-- emitted blob shows an Amount among the first 25 fields that the parser reads of it.
pub exit_code_iff :
    (mcp path : Text) (run : Run) (parse : Text → List Read)
    → (length mcp == 0) ≡ false
    → (length path == 0) ≡ false
    → (exit_code (some mcp) (some path) run parse ≡ 0)
      ↔ ((run.degraded ≡ false) × AllAmounts parse run.emitted)
unfolding exit_code
exit_code_iff mcp path run parse hm hp =
    let (to, from) = failed_after_iff parse run.emitted run.degraded in
    elim (Bool-cases (failed_after parse run.emitted run.degraded)) [
      | inl e ↦ rw (hm, hp, e) (λ h. absurd (omega (arith, h)), λ h. absurd (cc (e, from h)))
      | inr e ↦ rw (hm, hp, e) (λ h. to e, λ h. refl)
    ]
