-- ===== src/Store/Memory.antt =====
-- InMemoryStore of x402-xahau/server.mjs: bindings with their expiry, and receipts beside them.
pub mod Refines
pub mod Capacity
use xahc.Prelude.{
  ℕ, Bool, true, false, not, ◌&&◌, Option, none, some, [], ltb, leb, if◌then◌else◌, length,
}
use xahc.Prelude.Text.{Text}
use xahc.Store.Dict
use xahc.Store.Dict.{Dict}

pub record Memory (R : Type 0) : Type 0 where
  pub bindings : Dict ℕ
  pub receipts : Dict (R × ℕ)
  pub max_entries : ℕ

pub data Reserved : Type 0 where
  reserved exists full : Reserved

-- What has not expired.
abbrev pub live : ℕ → ℕ → Bool
live now expiry = ltb now expiry

abbrev pub is_live : ℕ → Option ℕ → Bool
is_live now none = false
is_live now (some expiry) = live now expiry

-- this.map.has(key)
abbrev pub has : Text → Dict ℕ → Bool
has k m = elim (Dict.get k m) [ none ↦ false | some e ↦ true ]

module _ {R : Type 0} where
  pub create : ℕ → Memory R
  create max = record { bindings = []; receipts = []; max_entries = max }

  unfoldable pub sweep : ℕ → Memory R → Memory R
  sweep now s = record s {
    bindings = Dict.keep (live now) s.bindings;
    receipts = Dict.keep (λ r. live now r.1) s.receipts;
  }

  abbrev pub has_room : Memory R → Bool
  has_room s = ltb (length s.bindings) s.max_entries

  unfoldable pub put_binding : Text → ℕ → Memory R → Memory R
  put_binding k expiry s = record s { bindings = Dict.set k expiry s.bindings }

  -- Atomic test-and-set.
  unfoldable pub reserve : Text → ℕ → ℕ → Memory R → Reserved × Memory R
  reserve k expiry now s =
      let swept = sweep now s in
      if is_live now (Dict.get k s.bindings)
      then (exists, s)
      else if not (has_room swept) && not (has k swept.bindings)
      then (full, swept)
      else (reserved, put_binding k expiry swept)

  get_found : Text → ℕ → Memory R → Option ℕ → Option ℕ × Memory R
  get_found k now s none = (none, s)
  get_found k now s (some expiry) =
      if leb expiry now
      then (none, record s { bindings = Dict.delete k s.bindings })
      else (some expiry, s)

  unfoldable pub get : Text → ℕ → Memory R → Option ℕ × Memory R
  unfolding get_found
  get k now s = get_found k now s (Dict.get k s.bindings)

  unfoldable pub is_consumed : Text → ℕ → Memory R → Bool × Memory R
  is_consumed k now s =
      let (found, s') = get k now s in (elim found [ none ↦ false | some e ↦ true ], s')

  -- The unconditional upsert; false if the store is full and the key is new.
  unfoldable pub set : Text → ℕ → ℕ → Memory R → Bool × Memory R
  set k expiry now s =
      let swept = sweep now s in
      if not (has_room swept) && not (has k swept.bindings)
      then (false, swept)
      else (true, put_binding k expiry swept)

  unfoldable pub release : Text → Memory R → Memory R
  release k s = record s {
    bindings = Dict.delete k s.bindings;
    receipts = Dict.delete k s.receipts;
  }

  pub size : Memory R → ℕ
  size s = length s.bindings

  receipt_found : Text → ℕ → Memory R → Option (R × ℕ) → Option R × Memory R
  receipt_found k now s none = (none, s)
  receipt_found k now s (some (r, expiry)) =
      if leb expiry now
      then (none, record s { receipts = Dict.delete k s.receipts })
      else (some r, s)

  unfoldable pub get_receipt : Text → ℕ → Memory R → Option R × Memory R
  unfolding receipt_found
  get_receipt k now s = receipt_found k now s (Dict.get k s.receipts)

  unfoldable pub set_receipt : Text → R → ℕ → Memory R → Memory R
  set_receipt k r expiry s = record s { receipts = Dict.set k (r, expiry) s.receipts }
