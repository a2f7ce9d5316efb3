-- ===== src/Tests/Syncing.antt =====
-- The synchronisation of an address at concrete inputs.
use simply_sats.Prelude.{
  ◌+◌, ◌≡◌, ◌==◌, if◌then◌else◌, refl, false, none, some, arith, List, [], ◌∷◌, ok,
}
use simply_sats.Types.{Outpoint}
use simply_sats.Store.Adding.{no_fault}
use simply_sats.WalletSync.{
  ChainCoin, AddressInfo, Answers, SyncState, SyncResult, reset_block_height_cache, sync_address,
}
use simply_sats.WalletSync.Reconciled.{IsReconciled, sync_address-IsReconciled}
use simply_sats.Store.Queries.{get_utxo_by_outpoint}
use simply_sats.Transactions.Defs.{sent}
use simply_sats.WalletSync.History.{WocTx, Sources, calculate_tx_amount}
use simply_sats.WalletSync.Amounts.{IsSound, calculate_tx_amount-IsSound}
use simply_sats.Tests.Data.{two_rows}
use simply_sats.Tests.Rows.{two_rows-IsValid}

abbrev info : AddressInfo
info = record { address = 6; basket = 1; account_id = some 1; locking_script = 9 }

abbrev coins : List ChainCoin
coins = record { at = record { txid = 50; vout = 0 }; satoshis = 700 } ∷ []

abbrev answers : Answers
answers = record {
  utxos = some coins;
  history = some 3;
  spendable_fails = false;
  pending_txids = some [];
  add_fails = λ o. no_fault;
  mark_fails = λ o. false;
  sync_state_fails = false;
  block_height = 850000;
  now = 2000;
}

abbrev state : SyncState
state = record { store = two_rows; synced = []; heights = reset_block_height_cache }

sync_address-IsReconciled_example :
    (r : SyncResult) × (st' : SyncState) × (sync_address info answers state ≡ ok (r, st'))
    × ((o : Outpoint) → IsReconciled info answers coins two_rows st'.store o)
sync_address-IsReconciled_example =
    sync_address-IsReconciled info answers coins state two_rows-IsValid refl refl refl (λ p. refl)
      (λ p. refl)

abbrev parent : WocTx
parent = record {
  vin = [];
  vout =
      record { satoshis = 50; hex = 1; addresses = [] }
      ∷ record { satoshis = 300; hex = 1; addresses = 7 ∷ [] }
      ∷ [];
}

abbrev env : Sources
env = record {
  addresses = 6 ∷ 7 ∷ [];
  script_of = λ a. a + 100;
  account = some 1;
  store = two_rows;
  db_fails = λ o. false;
  api = λ txid. if txid == 20 then some parent else none;
}

abbrev payment : WocTx
payment = record {
  vin =
      record { txid = some 11; vout = some 0 }
      ∷ record { txid = some 20; vout = some 1 }
      ∷ record { txid = none; vout = none }
      ∷ [];
  vout =
      record { satoshis = 500; hex = 106; addresses = [] }
      ∷ record { satoshis = 790; hex = 106; addresses = 9 ∷ [] }
      ∷ [];
}

-- 500 come to the address; 1000 of a known coin and 300 of the parent's output are spent.
calculate_tx_amount-IsSound_example :
    ((calculate_tx_amount env payment 6 []).0 ≡ sent 799)
    × IsSound env.api (calculate_tx_amount env payment 6 []).1
unfolding get_utxo_by_outpoint
calculate_tx_amount-IsSound_example =
    calculate_tx_amount-IsSound env payment 6 [] (record { answers = tt; bound = omega arith })
