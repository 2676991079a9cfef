-- ===== src/Authorize/Quorum.antt =====
-- What a multisig authorization stands on: valid signatures of distinct listed signers whose weights
-- on the ledger reach the quorum.
use mathlib.Core.List.{Mem, mem-cons_self, mem-cons_of_mem}
use xahc.Prelude.{
  ℕ, ◌+◌, ◌≤◌, ◌≡◌, refl, true, false, Option, none, some, List, [], ◌∷◌, inl, inr, Bool-cases,
  Option-cases, arith,
}
use xahc.Prelude.Text.{Text, text_eq_iff}
use xahc.Js.{Value}
use xahc.Libs.{Libs, Tx, derive_address_from_pub_key, encode_for_multisigning, keypair_verify}
use xahc.Node.{Node, SignerList, signer_list, fetch_signer_list}
use xahc.Store.Dict
use xahc.Store.Dict.{Dict}
use xahc.Authorize.{
  Source, authorized, Signer, read_signer, contains, Weighed, skipped, cannot_encode, valid,
  derives, weigh, sum_weights, weights_of, authorize_on_ledger,
}

derives_sound : (o : Option Text) (t : Text) → derives o t ≡ true → o ≡ some t
derives_sound none t h = cc
derives_sound (some d) t h = cc ((text_eq_iff d t).0 h)

-- A signature by the account of an entry of Signers that counts with this weight.
pub record IsCredit (libs : Libs) (tx : Tx) (weights : Dict ℕ) (account : Text) (weight : ℕ)
    : Type 0 where
  pub entry : Value
  pub signer : Signer
  pub bytes : Text
  pub listed_entry : Mem entry tx.signers
  pub read : read_signer entry ≡ some signer
  pub same : signer.account ≡ account
  pub derived : derive_address_from_pub_key libs (some signer.key) ≡ some account
  pub listed : Dict.get account weights ≡ some weight
  pub encoded : encode_for_multisigning libs tx account ≡ some bytes
  pub verified : keypair_verify libs bytes signer.signature signer.key ≡ some true

module _ (libs : Libs) (tx : Tx) (weights : Dict ℕ) where
  abbrev pub Credits : List (Text × ℕ) → Type 0
  Credits [] = Unit
  Credits ((account, weight) ∷ cs) = IsCredit libs tx weights account weight × Credits cs

abbrev pub total : List (Text × ℕ) → ℕ
total [] = 0
total ((account, weight) ∷ cs) = weight + total cs

-- No account is among those counted before it.
abbrev pub Fresh : List Text → List (Text × ℕ) → Type 0
Fresh counted [] = Unit
Fresh counted ((account, weight) ∷ cs) =
    (contains account counted ≡ false) × Fresh (account ∷ counted) cs

module _ (libs : Libs) (tx : Tx) (weights : Dict ℕ) where
  weigh-IsCredit :
      (entry : Value) (account : Text) (weight : ℕ)
      → Mem entry tx.signers
      → weigh libs tx weights entry ≡ valid account weight
      → IsCredit libs tx weights account weight
  unfolding weigh
  weigh-IsCredit entry account weight m h = elim (Option-cases (read_signer entry)) [
    | inl e ↦ absurd (ground (arith, e))
    | inr (s, e1) ↦ elim (Option-cases (encode_for_multisigning libs tx s.account)) [
      | inl e ↦ absurd (ground (arith, e1, e))
      | inr (bytes, e2) ↦
          let same : s.account ≡ account = ground (arith, e1, e2) in
          record {
            entry = entry;
            signer = s;
            bytes = bytes;
            listed_entry = m;
            read = e1;
            same = same;
            derived = derives_sound _ account (rw (← same) (ground (arith, e1, e2)));
            listed = ground (arith, e1, e2);
            encoded = rw (← same) e2;
            verified = ground (arith, e1, e2);
          }
    ]
  ]

  -- The accounts that the loop credited.
  abbrev pub CreditedSum : List Text → ℕ → ℕ → Type 0
  CreditedSum counted sum r =
      (cs : List (Text × ℕ)) × (r ≡ sum + total cs) × Credits libs tx weights cs × Fresh counted cs

  CreditedSum-item :
      (counted : List Text) (sum r weight : ℕ) (account : Text)
      → IsCredit libs tx weights account weight
      → contains account counted ≡ false
      → CreditedSum (account ∷ counted) (sum + weight) r
      → CreditedSum counted sum r
  CreditedSum-item counted sum r weight account k new (cs, e, ks, f) =
      ((account, weight) ∷ cs, omega (arith, e), (k, ks), (new, f))

  sum_weights-Credited :
      (entries : List Value) (counted : List Text) (sum r : ℕ)
      → ((e : Value) → Mem e entries → Mem e tx.signers)
      → sum_weights libs tx weights entries counted sum ≡ some r
      → CreditedSum counted sum r
  unfolding sum_weights
  sum_weights-Credited [] counted sum r sub h = ([], ground arith, tt, tt)
  sum_weights-Credited (entry ∷ rest) counted sum r sub h =
      let later = λ (c : List Text) (n : ℕ).
        sum_weights-Credited rest c n r (λ e m. sub e (mem-cons_of_mem entry m)) in
      credit (weigh libs tx weights entry) refl later
    where
      credit :
          (w : Weighed)
          → weigh libs tx weights entry ≡ w
          → ((c : List Text) (n : ℕ)
              → sum_weights libs tx weights rest c n ≡ some r
              → CreditedSum c n r)
          → CreditedSum counted sum r
      credit skipped e later = later counted sum (ground (arith, e))
      credit cannot_encode e later = absurd (ground (arith, e))
      credit (valid account weight) e later = elim (Bool-cases (contains account counted)) [
        | inl old ↦ later counted sum (ground (arith, e, old))
        | inr new ↦
            CreditedSum-item counted sum r weight account
              (weigh-IsCredit entry account weight (sub entry mem-cons_self) e) new
              (later (account ∷ counted) (sum + weight) (ground (arith, e, new)))
      ]

-- A multisig payment is authorized only if the account has one signer list, and valid signatures of
-- distinct accounts on it, each with its weight on the ledger, reach its quorum.
pub authorize_on_ledger-multisig :
    (libs : Libs) (node : Node) (tx : Tx) (source : Source)
    → authorize_on_ledger libs node tx true ≡ authorized source
    → (quorum : ℕ) × (signers : List (Text × ℕ)) × (cs : List (Text × ℕ)) × (fetch_signer_list node
          tx.account
        ≡ signer_list quorum signers)
      × Credits libs tx (weights_of [] signers) cs
      × Fresh [] cs
      × (quorum ≤ total cs)
unfolding authorize_on_ledger
authorize_on_ledger-multisig libs node tx source h =
    from_list (fetch_signer_list node tx.account) refl
  where
    from_list :
        (l : SignerList)
        → fetch_signer_list node tx.account ≡ l
        → (quorum : ℕ) × (signers : List (Text × ℕ)) × (cs : List (Text × ℕ)) × (fetch_signer_list
              node tx.account
            ≡ signer_list quorum signers)
          × Credits libs tx (weights_of [] signers) cs
          × Fresh [] cs
          × (quorum ≤ total cs)
    from_list (signer_list quorum signers) e =
        elim (Option-cases (sum_weights libs tx (weights_of [] signers) tx.signers [] 0)) [
          | inl none_sum ↦ absurd (ground (arith, e, none_sum))
          | inr (sum, e2) ↦
              let (cs, total_cs, ks, f) =
                sum_weights-Credited libs tx (weights_of [] signers) tx.signers [] 0 sum (λ x m. m)
                  e2 in
              (quorum, signers, cs, e, ks, f, ground (arith, e, e2, total_cs))
        ]
    from_list _ e = absurd (ground (arith, e))
