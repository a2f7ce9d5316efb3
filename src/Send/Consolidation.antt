-- ===== src/Send/Consolidation.antt =====
-- `consolidateUtxos`.
use simply_sats.Prelude.{ℕ, Option, none, some, List, Result, ok, err}
use simply_sats.Types.{Utxo}
use simply_sats.Fees.{FeeRate}
use simply_sats.Builder.{ConsolidationReply, Backend, BuildError, build_consolidation_tx}
use simply_sats.Store.Defs.{Store}
use simply_sats.Send.Record.{
  ErrorCode, invalid_state, Events, Wallet, execute_broadcast, record_consolidation,
}
use simply_sats.Send.Payments.{Context}

-- `consolidateUtxos` does not catch what its builder throws.
pub data Outcome (A : Type 0) : Type 0 where
  returned : Result A ErrorCode → Outcome A
  thrown : BuildError → Outcome A

pub record Consolidated : Type 0 where
  pub txid : ℕ
  pub output_sats : ℕ
  pub fee : ℕ

abbrev pub after_consolidation :
    ConsolidationReply → ℕ → Result (Unit {0}) ErrorCode × Wallet → Outcome Consolidated × Wallet
after_consolidation b txid (ok _, w) =
    (returned (ok (record { txid = txid; output_sats = b.output_sats; fee = b.fee })), w)
after_consolidation b txid (err e, w) = (returned (err e), w)

abbrev pub record_broadcast_consolidation :
    Events
    → ℕ
    → ConsolidationReply
    → Wallet
    → Result ℕ ErrorCode × Store
    → Outcome Consolidated × Wallet
record_broadcast_consolidation ev account b w (err e, s) =
    (returned (err e), record w { store = s })
record_broadcast_consolidation ev account b w (ok txid, s) = after_consolidation b txid (
    record_consolidation ev
      (record { txid = txid; raw_tx = b.raw_tx; amount = none; account = some account })
      b.output_sats b.address b.spent_outpoints (record w { store = s }))

abbrev pub consolidate_built :
    Events → ℕ → Result ConsolidationReply BuildError → Wallet → Outcome Consolidated × Wallet
consolidate_built ev account (err e) w = (thrown e, w)
consolidate_built ev account (ok b) w =
    record_broadcast_consolidation ev account b w
      (execute_broadcast ev b.txid b.spent_outpoints w.store)

unfoldable pub consolidate_utxos :
    Context
    → Backend (List Utxo × FeeRate) ConsolidationReply
    → List Utxo
    → Option ℕ
    → Wallet
    → Outcome Consolidated × Wallet
consolidate_utxos c invoke utxos none w = (returned (err invalid_state), w)
consolidate_utxos c invoke utxos (some account) w =
    consolidate_built c.events account (build_consolidation_tx c.is_tauri invoke utxos c.fee_rate) w
