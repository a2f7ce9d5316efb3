-- ===== src/Store/Upkeep.antt =====
-- Maintenance: `toggleUtxoFrozen`, `repairUTXOs`, `clearUtxosForAccount` and
-- `deleteUtxosByTxid`.
pub mod Laws
use simply_sats.Prelude.{
  ℕ, Bool, true, false, not, ◌&&◌, Option, none, some, List, ◌==◌, if◌then◌else◌, filter, any,
  length,
}
use simply_sats.Types.{Outpoint}
use simply_sats.Store.Defs.{
  UtxoRow, Store, is_at, eq_column, in_account, is_null, basket_locks, update_where,
}

unfoldable pub toggle_utxo_frozen : Outpoint → Bool → Option ℕ → Store → Store
toggle_utxo_frozen o frozen account s = record s {
  rows =
      update_where (λ r. is_at o r && in_account account r)
        (λ r. record r { spendable = not frozen; frozen = some frozen }) s.rows;
}

abbrev pub is_frozen : UtxoRow → Bool
is_frozen r = elim r.frozen [ none ↦ false | some b ↦ b ]

abbrev pub needs_repair : Option ℕ → UtxoRow → Bool
needs_repair account r =
    not r.spendable
    && is_null r.spent_at
    && not (r.basket == basket_locks)
    && not (is_frozen r)
    && in_account account r

-- The number of rows repaired, and the table.
unfoldable pub repair_utxos : Option ℕ → Store → ℕ × Store
repair_utxos account s = (
  length (filter (needs_repair account) s.rows),
  record s {
    rows = update_where (needs_repair account) (λ r. record r { spendable = true }) s.rows;
  },
)

-- `DELETE FROM utxos WHERE …`; the tags go with their rows (ON DELETE CASCADE).
abbrev pub delete_where : (UtxoRow → Bool) → Store → Store
delete_where p s = record s {
  rows = filter (λ r. not (p r)) s.rows;
  tags = filter (λ e. not (any (λ r. p r && r.id == e.0) s.rows)) s.tags;
}

unfoldable pub clear_utxos_for_account : ℕ → Store → Store
clear_utxos_for_account account = delete_where (λ r. eq_column r.account_id account)

unfoldable pub delete_utxos_by_txid : ℕ → ℕ → Store → ℕ × Store
delete_utxos_by_txid txid account s =
    let p = λ (r : UtxoRow). r.txid == txid && eq_column r.account_id account in
    (length (filter p s.rows), delete_where p s)
