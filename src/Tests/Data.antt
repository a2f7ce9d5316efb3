-- ===== src/Tests/Data.antt =====
-- Sample coins, tables and requests.
use simply_sats.Prelude.{ℕ, ◌+◌, ◌/◌, true, none, some, List, [], ◌∷◌}
use simply_sats.Types.{Utxo, ExtendedUtxo, Outpoint}
use simply_sats.Fees.{FeeRate}
use simply_sats.Store.Defs.{UtxoRow, Store, unspent}
use simply_sats.Store.Adding.{NewUtxo}

-- One satoshi for each byte.
abbrev pub rate_1 : FeeRate
rate_1 = record { is_valid = true; ceil_times = λ n. n }

-- A satoshi for each ten bytes, rounded up.
abbrev pub rate_tenth : FeeRate
rate_tenth = record { is_valid = true; ceil_times = λ n. (n + 9) / 10 }

abbrev pub coin : ℕ → ℕ → Utxo
coin txid satoshis = record { txid = txid; vout = 0; satoshis = satoshis; script = 9 }

abbrev pub keyed_coin : ℕ → ℕ → ExtendedUtxo
keyed_coin txid satoshis = record { utxo = coin txid satoshis; wif = 5; address = 6 }

abbrev pub three_coins : List Utxo
three_coins = coin 11 500 ∷ coin 12 300 ∷ coin 13 900 ∷ []

abbrev pub row : ℕ → ℕ → ℕ → UtxoRow
row id txid satoshis = record {
  id = id;
  txid = txid;
  vout = 0;
  satoshis = satoshis;
  locking_script = 9;
  address = some 6;
  basket = 1;
  spendable = true;
  created_at = 100;
  spent_at = none;
  spent_txid = none;
  spending_status = some unspent;
  pending_spending_txid = none;
  pending_since = none;
  frozen = none;
  account_id = some 1;
}

abbrev pub two_rows : Store
two_rows = record { rows = row 1 11 1000 ∷ row 2 12 300 ∷ []; next_id = 3; tags = [] }

abbrev pub first_out : Outpoint
first_out = record { txid = 11; vout = 0 }

abbrev pub second_out : Outpoint
second_out = record { txid = 12; vout = 0 }

-- The first coin again, now at an address the wallet derived.
abbrev pub again : NewUtxo
again = record {
  at = first_out;
  satoshis = 1000;
  locking_script = 9;
  address = some 6;
  basket = 2;
  spendable = true;
  created_at = 200;
  tags = [];
}
