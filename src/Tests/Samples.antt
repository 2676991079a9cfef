-- ===== src/Tests/Samples.antt =====
-- A payment of 1000 drops, its requirements, and the surroundings that settle it.
use xahc.Prelude.{ℕ, true, false, none, some, [], if◌then◌else◌}
use xahc.Prelude.Text.{codes, text_eq}
use xahc.Message.{ok}
use xahc.Js.{Value, str, num, obj, field, end, nat}
use xahc.Libs.{Libs, Tx}
use xahc.Node.{
  Node, ledger, hook_objects, account_info, account_info_signer_lists, signer_list_objects,
  current_validated_ledger,
}
use xahc.Receipt.{Crypto}
use xahc.Verify.{Verified, exact}
use xahc.Store.Window.{defaults}
use xahc.Store.Memory.{Memory}
use xahc.Metrics.{Metrics}
use xahc.Settle.Simulate.{unset}
use xahc.Settle.Submit.{resolved}
use xahc.Settle.Effects.{Receipt, Env, World}
use xahc.Settle.Before.{Plan}
use xahc.Settle.Once.{Call}

abbrev pub payment : Tx
payment = record {
  transaction_type = some (codes "Payment");
  network_id = some 21337;
  account = some (codes "rA");
  destination = some (codes "rB");
  flags = none;
  amount = str (codes "1000");
  last_ledger_sequence = some 120;
  sequence = some 7;
  invoice_id = none;
  signing_pub_key = some (codes "K");
  txn_signature = some (codes "S");
  signers = [];
}

abbrev pub libs : Libs
libs = record {
  decode = λ blob. if text_eq blob (codes "B1") then some payment else none;
  valid_classic_address = some (λ t. true);
  verify_signature = some (λ blob. some true);
  derive_address = some (λ key. some (codes "rA"));
  keypair_verify = some (λ m s k. some true);
  encode_for_multisigning = some (λ tx account. some (codes "M"));
}

abbrev pub node : Node
node ledger = some (obj (field "result" (obj (field "ledger_index" (num (nat 100)) end)) end))
node (hook_objects a) = none
node (account_info a) = none
node (account_info_signer_lists a) = none
node (signer_list_objects a) = none

abbrev pub response : Value
response = obj (
    field "result"
      (obj (
        field "hash" (str (codes "H1")) (
          field "meta"
            (obj (
              field "TransactionResult" (str (codes "tesSUCCESS"))
                (field "delivered_amount" (str (codes "1000")) end)))
            end)))
      end)

abbrev pub crypto : Crypto
crypto = record {
  public_hex = codes "00";
  sign = λ bytes. some (codes "aa");
  verify = λ key bytes sig. some true;
}

abbrev pub env : ℕ → Env
env at = record {
  wss = true;
  network = 21337;
  network_name = codes "xahau";
  libs = libs;
  window = defaults;
  crypto = crypto;
  utf8 = λ t. none;
  mcp = unset;
  dry_run = false;
  pre_sim_reject = false;
  client = ok node;
  get_ledger = current_validated_ledger;
  submit_and_wait = λ blob. resolved response;
  read_at = at;
  now = at;
  reread_at = at;
}

abbrev pub payload : Value
payload = obj (field "txBlob" (str (codes "B1")) end)

abbrev pub requirements : Value
requirements = obj (
    field "payTo" (str (codes "rB"))
      (field "scheme" (str (codes "exact")) (field "maxAmountRequired" (str (codes "1000")) end)))

abbrev pub report : Verified
report = record {
  payer = some (codes "rA");
  amount = codes "1000";
  asset = none;
  scheme = exact;
  signature_verified = true;
  replay_id = codes "acct:rA:7";
}

abbrev pub plan : Plan
plan = record { blob = codes "B1"; tx = payment; node = node; current = 100; last = 120 }

abbrev pub metrics : Metrics
metrics = record {
  verify_total = 0;
  settle_total = 0;
  settle_success = 0;
  settle_replayed = 0;
  settle_rejected = 0;
  settle_rejected_verify_failed = 0;
  settle_rejected_replay_inflight = 0;
  settle_rejected_store_full = 0;
  settle_rejected_submit_ambiguous = 0;
  settle_rejected_tem_rejected = 0;
  settle_rejected_on_ledger_failure = 0;
  settle_rejected_delivered_short = 0;
  settle_rejected_other = 0;
  rate_limited_total = 0;
  body_too_large_total = 0;
}

abbrev pub world : World (Memory Receipt)
world = record {
  store = record { bindings = []; receipts = []; max_entries = 10 };
  metrics = metrics;
  submitted = [];
}

abbrev pub call : ℕ → Call
call at = record { env = env at; payload = payload; req = requirements }
