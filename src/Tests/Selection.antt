-- ===== src/Tests/Selection.antt =====
-- Coin selection, fees and builders.
use simply_sats.Prelude.{ℕ, ◌≤◌, ◌≡◌, ◌↔◌, refl, true, false, List, [], ◌∷◌, ok, err, arith}
use simply_sats.Types.{Utxo, ExtendedUtxo}
use simply_sats.Coins.{select_coins}
use simply_sats.Coins.Selecting.{select_coins-sufficient}
use simply_sats.Fees.{
  ChangeAndFee, insufficient_funds, calculate_change_and_fee, calculate_tx_fee, calculate_exact_fee,
  calculate_max_send,
}
use simply_sats.Fees.Estimates.{calculate_exact_fee-agrees, calculate_max_send-refused}
use simply_sats.Builder.{RecipientOutput, BuildCommand, Backend, BackendReply, BuiltMultiOutput}
use simply_sats.Tests.Data.{rate_1, rate_tenth, coin, three_coins}

abbrev value : Utxo → ℕ
value u = u.satoshis

select_coins-sufficient_example :
    ((select_coins value three_coins 600 100).sufficient ≡ true) ↔ (700 ≤ 1700)
select_coins-sufficient_example = select_coins-sufficient value three_coins 600 100 (λ e. cc)

abbrev split : ChangeAndFee
split = record { fee = 374; change = 626; num_outputs = 2 }

calculate_exact_fee-agrees_example :
    (true ≡ true
      → calculate_change_and_fee 800 300 2 rate_1
        ≡ ok (record { fee = 374; change = 126; num_outputs = 2 }))
    × (true ≡ false → calculate_change_and_fee 800 300 2 rate_1 ≡ err (insufficient_funds 674 800))
unfolding calculate_exact_fee
calculate_exact_fee-agrees_example =
    calculate_exact_fee-agrees 300 (coin 12 300 ∷ coin 11 500 ∷ coin 13 900 ∷ []) rate_1
      (record { fee = 374; input_count = 2; output_count = 2; total_input = 800; can_send = true })
      refl (λ e. omega (arith, e))

calculate_max_send-refused_example :
    (select_coins value (coin 11 1000 ∷ []) 980 100).sufficient ≡ false
unfolding calculate_max_send calculate_tx_fee
calculate_max_send-refused_example =
    calculate_max_send-refused (coin 11 1000 ∷ []) rate_tenth
      (record { max_sats = 980; fee = 20; num_inputs = 1 }) refl (omega arith) (omega arith)

abbrev replying : Backend (BuildCommand ExtendedUtxo) BackendReply
replying command = ok (record {
  raw_tx = 70;
  txid = 71;
  fee = 200;
  change = 50;
  change_address = 6;
  spent_outpoints = [];
})

abbrev recipients : List RecipientOutput
recipients = record { address = 1; satoshis = 300 } ∷ record { address = 2; satoshis = 200 } ∷ []

abbrev multi_output : BuiltMultiOutput
multi_output = record {
  transaction = record {
    raw_tx = 70;
    txid = 71;
    fee = 200;
    change = 50;
    change_address = 6;
    num_outputs = 3;
    spent_outpoints = [];
  };
  total_sent = 500;
}
