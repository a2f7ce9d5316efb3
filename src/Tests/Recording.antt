-- ===== src/Tests/Recording.antt =====
-- The table of transactions at small inputs.
use simply_sats.Prelude.{
  ℕ, ◌+◌, ◌≡◌, ◌≢◌, ◌≤◌, refl, none, some, [], ◌∷◌, All, arith, ◌==◌, if◌then◌else◌,
}
use simply_sats.Store.Queries.{get_spendable_utxos, get_balance_from_db}
use simply_sats.Store.Pending.{confirm_utxos_spent}
use simply_sats.Transactions.Defs.{
  pending, confirmed, received, sent, TxRow, TxTables, NewTx, run, insert_tx, insert_label,
}
use simply_sats.Transactions.Writes.{
  add_transaction, add_statements, fill_amount, settle_height, upsert_transaction,
  upsert_statements,
}
use simply_sats.Transactions.Queries.{
  get_transaction_by_txid, get_pending_transaction_txids, get_pending_incoming_amount_without_utxo,
  get_all_transactions, newest_first, order_by,
}
use simply_sats.Transactions.Adding.{IsKept, add_transaction-IsKept}
use simply_sats.Transactions.Guarding.{upsert_transaction-protects}
use simply_sats.Transactions.Awaited.{get_balance_from_database-recounts}
use simply_sats.WalletSync.Queries.{get_spendable_utxos_from_database, get_balance_from_database}
use simply_sats.Tests.Data.{two_rows, first_out}

abbrev known : TxRow
known = record {
  id = 1;
  txid = 11;
  raw_tx = some 8;
  description = none;
  created_at = 50;
  confirmed_at = none;
  block_height = none;
  status = pending;
  amount = some (received 1000);
  account_id = 1;
}

abbrev tables : TxTables
tables = record { rows = known ∷ []; next_id = 2; labels = [] }

abbrev found : NewTx
found = record {
  txid = 11;
  raw_tx = none;
  description = some 4;
  created_at = 90;
  confirmed_at = none;
  block_height = some 850000;
  status = confirmed;
  labels = 5 ∷ [];
  amount = some (received 900);
}

abbrev change : NewTx
change = record {
  txid = 12;
  raw_tx = some 3;
  description = none;
  created_at = 95;
  confirmed_at = none;
  block_height = none;
  status = pending;
  labels = [];
  amount = some (sent 399);
}

-- The known transaction is confirmed, and its amount is left alone.
add_transaction-found :
    (add_transaction none found none tables).1.rows
    ≡ record known { status = confirmed; block_height = some 850000 } ∷ []
unfolding add_transaction add_statements run insert_tx fill_amount settle_height insert_label
add_transaction-found = refl

add_transaction-IsKept_example :
    (q : TxRow) × (get_transaction_by_txid 11 1 (add_transaction none found none tables).1 ≡ some q)
    × IsKept known q
unfolding get_transaction_by_txid
add_transaction-IsKept_example = add_transaction-IsKept none found none tables 11 1 known refl

upsert_transaction-protects_example :
    All
      (λ u. u.txid ≢ 12)
      (get_spendable_utxos_from_database 1 (some 1) (some two_rows) (
        some (
          get_pending_transaction_txids
            (some 1)
            (upsert_transaction none change (some 1) tables).1)))
unfolding upsert_transaction upsert_statements run insert_tx insert_label
upsert_transaction-protects_example =
    upsert_transaction-protects none change 1 1 tables two_rows refl refl

-- Without the guard the coin of transaction 12 is offered.
upsert_transaction-two_rows : get_spendable_utxos (some 1) two_rows ≡ two_rows.rows
unfolding get_spendable_utxos
upsert_transaction-two_rows = refl

get_balance_from_database-recounts_example :
    1000
      + get_balance_from_db none
          (some 1)
          (confirm_utxos_spent 500 none (first_out ∷ []) 77 two_rows).1
    ≤ get_balance_from_database none
        (some 1)
        (some (confirm_utxos_spent 500 none (first_out ∷ []) 77 two_rows).1)
        (some (
          get_pending_incoming_amount_without_utxo 1
            (confirm_utxos_spent 500 none (first_out ∷ []) 77 two_rows).1
            tables))
unfolding get_transaction_by_txid
get_balance_from_database-recounts_example =
    get_balance_from_database-recounts 500 77 1 (first_out ∷ []) two_rows tables known refl refl
      (omega arith) ((λ h. refl), ((λ h. absurd (ground (arith, h))), tt))

all-tables :
    get_all_transactions
      (some 1)
      none
      none
      (upsert_transaction none change (some 1) (add_transaction none found none tables).1).1
    ≡ record {
      id = 2;
      txid = 12;
      raw_tx = some 3;
      description = none;
      created_at = 95;
      confirmed_at = none;
      block_height = none;
      status = pending;
      amount = some (sent 399);
      account_id = 1;
    }
      ∷ record known { status = confirmed; block_height = some 850000 }
      ∷ []
unfolding get_all_transactions newest_first order_by upsert_transaction upsert_statements
    add_transaction add_statements run insert_tx fill_amount settle_height insert_label
all-tables = refl

-- "trim" here takes the label 9 to the label 5, and 8 to nothing.
abbrev trim : ℕ → ℕ
trim l = if l == 9 then 5 else if l == 8 then 0 else l
