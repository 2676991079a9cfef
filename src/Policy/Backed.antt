-- ===== src/Policy/Backed.antt =====
-- The readout fabricates no budget: a remaining amount that it shows is backed by the ledger.
use xahc.Prelude.{
  ℕ, ◌≤◌, ◌≡◌, ◌≢◌, refl, Bool, true, false, Option, none, some, List, [], ◌∷◌, arith,
  if◌then◌else◌, ◌||◌,
}
use xahc.Prelude.Text.{Text}
use xahc.Js.{Value, str, prop, as_array}
use xahc.Node.{result_of, current_validated_ledger}
use xahc.Budget.{
  HookState, compute_budget, decode_8_byte_drops_hex, decode_per_ledgers,
  decode_stateful_state_value,
}
use xahc.Policy.Params.{Guardrail, find_guardrail, AddressCodec, allowlist_of}
use xahc.Policy.State.{
  PolicyNode, HookStateRead, unreadable, absent, value, read_stateful_hook_state,
}
use xahc.Policy.{
  Remaining, unknown, unopened, computed, Policy, per_tx_only, stateful, Readout, budget_of,
  remaining_of, live_budget, decoded_policy, get_stateful_policy, policy_of, found_policy,
  hooks_policy, answered_policy, get_policy, undecided, noted, with_policy, per_tx_note, is_given,
}

abbrev pub amount_left : Remaining → Option ℕ
amount_left unknown = none
amount_left (unopened n m) = some n
amount_left (computed start b) = some b.remaining

abbrev left_in : Option Policy → Option ℕ
left_in none = none
left_in (some (per_tx_only lim allowlist note)) = none
left_in (some (stateful l r note)) = amount_left r

-- policy.remaining, if it is there and not null.
abbrev pub remaining_shown : Readout → Option ℕ
remaining_shown out = left_in out.policy

-- The state of the Hook was read, and leaves at most the limit.
pub record IsRead (client : PolicyNode) (account : Text) (plm : ℕ) (ns : Option Text) (n : ℕ)
    : Type 0 where
  pub hash : Text
  pub named : ns ≡ some hash
  pub readable : read_stateful_hook_state client account hash ≢ unreadable
  pub within : n ≤ plm

budget_of_le :
    (now lim plm per : ℕ) (state : Option HookState) (n : ℕ)
    → amount_left (budget_of now lim plm per state).0 ≡ some n
    → n ≤ plm
unfolding budget_of compute_budget
budget_of_le now lim plm per none n h = absurd (cc (h))
budget_of_le now lim plm per (some state) n h = ground arith

remaining_of_le :
    (now lim plm per : ℕ) (r : HookStateRead) (n : ℕ)
    → amount_left (remaining_of now lim plm per r).0 ≡ some n
    → (r ≢ unreadable) × (n ≤ plm)
unfolding remaining_of
remaining_of_le now lim plm per unreadable n h = absurd (cc (h))
remaining_of_le now lim plm per absent n h = (λ e. absurd (cc (e)), ground arith)
remaining_of_le now lim plm per (value hex) n h =
    (λ e. absurd (cc (e)), budget_of_le now lim plm per (decode_stateful_state_value (str hex)) n h)

live_budget-IsRead :
    (client : PolicyNode) (account : Text) (lim plm per : ℕ) (now : Option ℕ) (ns : Option Text)
    (n : ℕ)
    → amount_left (live_budget client account lim plm per now ns).0 ≡ some n
    → IsRead client account plm ns n
unfolding live_budget
live_budget-IsRead client account lim plm per none ns n h = absurd (cc (h))
live_budget-IsRead client account lim plm per (some now) none n h = absurd (cc (h))
live_budget-IsRead client account lim plm per (some now) (some ns) n h =
    let (readable, within) =
      remaining_of_le now lim plm per (read_stateful_hook_state client account ns) n h in
    record { hash = ns; named = refl; readable = readable; within = within }

decoded_policy-IsRead :
    (client : PolicyNode) (out : Readout) (lim : ℕ) (ns : Option Text)
    (allowlist : Option (List Text)) (plm per : Option ℕ) (n : ℕ)
    → remaining_shown (decoded_policy client out lim ns allowlist plm per) ≡ some n
    → (limit : ℕ) × (plm ≡ some limit) × IsRead client out.account limit ns n
unfolding decoded_policy undecided
decoded_policy-IsRead client out lim ns allowlist none per n h = absurd (cc (h))
decoded_policy-IsRead client out lim ns allowlist (some plm) none n h = absurd (cc (h))
decoded_policy-IsRead client out lim ns allowlist (some plm) (some per) n h =
    (plm, refl, live_budget-IsRead client out.account lim plm per out.as_of_ledger ns n h)

-- What stands behind a remaining amount: an installed Hook with the guardrail's limits, each decoded,
-- and a state that was read.
pub record IsBacked (client : PolicyNode) (account : Text) (n : ℕ) : Type 0 where
  pub hooks : List Value
  pub installed :
      as_array (prop "account_objects" (result_of (client.validated_hooks account))) ≡ some hooks
  pub guardrail : Guardrail
  pub found : find_guardrail hooks ≡ some guardrail
  pub lim : ℕ
  pub lim_decoded : decode_8_byte_drops_hex (str guardrail.lim) ≡ some lim
  pub plm_hex : Text
  pub plm_given : guardrail.plm ≡ some plm_hex
  pub plm : ℕ
  pub plm_decoded : decode_8_byte_drops_hex (str plm_hex) ≡ some plm
  pub state : IsRead client account plm guardrail.namespace_id n

-- The part of it that concerns the period.
record IsPeriod (client : PolicyNode) (account : Text) (ns plm_hex : Option Text) (n : ℕ)
    : Type 0 where
  hex : Text
  given : plm_hex ≡ some hex
  plm : ℕ
  decoded : decode_8_byte_drops_hex (str hex) ≡ some plm
  state : IsRead client account plm ns n

get_stateful_policy-IsPeriod :
    (client : PolicyNode) (out : Readout) (lim : ℕ) (ns : Option Text)
    (allowlist : Option (List Text)) (plm per : Option Text) (n : ℕ)
    → remaining_shown (get_stateful_policy client out lim ns allowlist plm per) ≡ some n
    → IsPeriod client out.account ns plm n
unfolding get_stateful_policy undecided
get_stateful_policy-IsPeriod client out lim ns allowlist none per n h = absurd (cc (h))
get_stateful_policy-IsPeriod client out lim ns allowlist (some plm) none n h = absurd (cc (h))
get_stateful_policy-IsPeriod client out lim ns allowlist (some plm) (some per) n h =
    let (limit, e, read) =
      decoded_policy-IsRead client out lim ns allowlist (decode_8_byte_drops_hex (str plm))
        (decode_per_ledgers (str per)) n h in
    record { hex = plm; given = refl; plm = limit; decoded = e; state = read }

none≢some : (o : Option ℕ) (n : ℕ) → o ≡ none → o ≢ some n
none≢some o n e h = cc (e, h)

-- Of two readouts, the one that shows an amount.
choice_shown :
    (b : Bool) (s t : Readout) (n : ℕ)
    → remaining_shown t ≡ none
    → remaining_shown (if b then s else t) ≡ some n
    → remaining_shown s ≡ some n
choice_shown true s t n e h = h
choice_shown false s t n e h = absurd (none≢some (remaining_shown t) n e h)

policy_of-IsPeriod :
    (codec : AddressCodec) (client : PolicyNode) (out : Readout) (g : Guardrail) (lim : Option ℕ)
    (n : ℕ)
    → remaining_shown out ≡ none
    → remaining_shown (policy_of codec client out g lim) ≡ some n
    → ((limit : ℕ) × (lim ≡ some limit)) × IsPeriod client out.account g.namespace_id g.plm n
unfolding policy_of
policy_of-IsPeriod codec client out g none n p h = absurd (none≢some (remaining_shown out) n p h)
policy_of-IsPeriod codec client out g (some lim) n p h =
    let allowlist = allowlist_of codec g.dst in
    let s = get_stateful_policy client out lim g.namespace_id allowlist g.plm g.per in
    let t = with_policy out (per_tx_only lim allowlist (noted per_tx_note allowlist)) in
    let shown = choice_shown (is_given g.plm || is_given g.per) s t n refl h in
    (
      (lim, refl),
      get_stateful_policy-IsPeriod client out lim g.namespace_id allowlist g.plm g.per n shown,
    )

-- What stands behind an amount, from the search on.
record IsGuarded (client : PolicyNode) (account : Text) (o : Option Guardrail) (n : ℕ)
    : Type 0 where
  guardrail : Guardrail
  found : o ≡ some guardrail
  lim : ℕ
  lim_decoded : decode_8_byte_drops_hex (str guardrail.lim) ≡ some lim
  period : IsPeriod client account guardrail.namespace_id guardrail.plm n

found_policy-IsGuarded :
    (codec : AddressCodec) (client : PolicyNode) (out : Readout) (o : Option Guardrail) (n : ℕ)
    → remaining_shown out ≡ none
    → remaining_shown (found_policy codec client out o) ≡ some n
    → IsGuarded client out.account o n
unfolding found_policy
found_policy-IsGuarded codec client out none n p h = absurd (none≢some (remaining_shown out) n p h)
found_policy-IsGuarded codec client out (some g) n p h =
    let ((lim, e), period) =
      policy_of-IsPeriod codec client out g (decode_8_byte_drops_hex (str g.lim)) n p h in
    record { guardrail = g; found = refl; lim = lim; lim_decoded = e; period = period }

hooks_policy-IsGuarded :
    (codec : AddressCodec) (client : PolicyNode) (out : Readout) (o : Option (List Value)) (n : ℕ)
    → remaining_shown out ≡ none
    → remaining_shown (hooks_policy codec client out o) ≡ some n
    → (hooks : List Value) × (o ≡ some hooks)
      × IsGuarded client out.account (find_guardrail hooks) n
unfolding hooks_policy
hooks_policy-IsGuarded codec client out none n p h = absurd (none≢some (remaining_shown out) n p h)
hooks_policy-IsGuarded codec client out (some []) n p h =
    absurd (none≢some (remaining_shown out) n p h)
hooks_policy-IsGuarded codec client out (some (x ∷ xs)) n p h =
    let present = record out { guardrail_hook_present = some true } in
    (x ∷ xs, refl, found_policy-IsGuarded codec client present (find_guardrail (x ∷ xs)) n p h)

answered_policy-IsGuarded :
    (codec : AddressCodec) (client : PolicyNode) (out : Readout) (answer : Option Value) (n : ℕ)
    → remaining_shown out ≡ none
    → remaining_shown (answered_policy codec client out answer) ≡ some n
    → (hooks : List Value) × (as_array (prop "account_objects" (result_of answer)) ≡ some hooks)
      × IsGuarded client out.account (find_guardrail hooks) n
unfolding answered_policy
answered_policy-IsGuarded codec client out none n p h =
    absurd (none≢some (remaining_shown out) n p h)
answered_policy-IsGuarded codec client out (some r) n p h =
    hooks_policy-IsGuarded codec client out (as_array (prop "account_objects" (prop "result" r))) n
      p h

-- If the readout shows a remaining amount, then the node listed a Hook with the guardrail's limits,
-- each of which decodes; the state of that Hook was read; and the amount is at most the period's limit.
pub get_policy-IsBacked :
    (codec : AddressCodec) (client : PolicyNode) (account : Text) (n : ℕ)
    → remaining_shown (get_policy codec client account) ≡ some n
    → IsBacked client account n
unfolding get_policy
get_policy-IsBacked codec client account n h =
    let out : Readout = record {
      account = account;
      guardrail_hook_present = none;
      policy = none;
      as_of_ledger = current_validated_ledger client.node;
      note = none;
    } in
    let (hooks, installed, g) =
      answered_policy-IsGuarded codec client out (client.validated_hooks account) n refl h in
    record {
      hooks = hooks;
      installed = installed;
      guardrail = g.guardrail;
      found = g.found;
      lim = g.lim;
      lim_decoded = g.lim_decoded;
      plm_hex = g.period.hex;
      plm_given = g.period.given;
      plm = g.period.plm;
      plm_decoded = g.period.decoded;
      state = g.period.state;
    }
