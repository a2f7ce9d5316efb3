-- ===== src/Tests/Transfers.antt =====
-- Token transfers.
use simply_sats.Prelude.{ℕ, refl, true, false, none, some, List, [], ◌∷◌}
use simply_sats.Tokens.Selection.{TokenUtxo, Plan, plan_transfer}
use simply_sats.Tokens.Planning.{Covers, plan_transfer-Covers}
use simply_sats.Tokens.Transfer.{Environment, Transfer, wallet_entry, bsv21}
use simply_sats.Send.Record.{Wallet}
use simply_sats.Tests.Data.{rate_1, coin, two_rows}

abbrev token : ℕ → ℕ → TokenUtxo
token txid amt = record { txid = txid; vout = 0; satoshis = 1; amt = amt; script = none }

abbrev tokens : List TokenUtxo
tokens = token 11 30 ∷ token 12 50 ∷ token 14 20 ∷ []

abbrev plan : Plan
plan = record {
  token_inputs = token 11 30 ∷ token 12 50 ∷ [];
  num_outputs = 3;
  funding = record { used = coin 21 1000 ∷ []; total = 1000; fee = 556 };
}

plan_transfer-Covers_example : Covers rate_1 60 plan
unfolding plan_transfer
plan_transfer-Covers_example =
    plan_transfer-Covers rate_1 tokens 60 (coin 21 1000 ∷ coin 22 1000 ∷ []) plan refl

abbrev environment : Environment
environment = record {
  is_valid_address = λ a. true;
  is_tauri = true;
  rate = rate_1;
  address_of = λ k. some 6;
  script_of = λ a. some 9;
  build = λ command. some (record { raw_tx = 70; change = 400 });
  broadcast = λ raw_tx. some 77;
  now = 500;
  updates = λ o. true;
  record_fails = false;
}

-- The text "60".
abbrev request : Transfer
request = record {
  token_key = wallet_entry;
  token_utxos = tokens;
  ticker = 4;
  protocol = bsv21;
  amount = 54 ∷ 48 ∷ [];
  to_address = 3;
  funding_key = none;
  funding_utxos = coin 21 1000 ∷ [];
  change_address = 6;
}

abbrev before : Wallet
before = record { store = two_rows; sent = [] }
