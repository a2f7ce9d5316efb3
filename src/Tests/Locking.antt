-- ===== src/Tests/Locking.antt =====
-- Timelock scripts and their reconciliation at concrete inputs.
use simply_sats.Prelude.{
  ℕ, ◌≡◌, refl, false, not, ◌&&◌, ◌||◌, none, some, [], ◌∷◌, ok, ◌>>=◌, arith,
}
use simply_sats.Types.{Outpoint}
use simply_sats.Hex.{HexText, int2_hex}
use simply_sats.Locks.Script.{create_timelock_script, parse_timelock_script, parsed, noughts}
use simply_sats.Locks.RoundTrip.{parse-create}
use simply_sats.Locks.Merging.{
  LockedUtxo, height, TxAnswer, not_found, is_not_found, find_lock, has_key,
  combine_locks_with_existing, reconcile_locks,
}
use simply_sats.Locks.Merging.Lookup.{first_lock, or_lock, first_lock-combine}
use simply_sats.Locks.Merging.Keeping.{has_key-reconcile}

-- The little-endian text of 500000 is "20a107".
int2_hex-known : int2_hex 500000 ≡ 2 ∷ 0 ∷ 10 ∷ 1 ∷ 0 ∷ 7 ∷ []
unfolding int2_hex
int2_hex-known = refl

abbrev pkh : HexText
pkh = noughts 40

parse-create_example :
    (create_timelock_script pkh 850000 >>= λ s. ok (parse_timelock_script s))
    ≡ ok (some (parsed (some 850000) pkh))
parse-create_example = parse-create pkh 850000 refl (omega arith)

abbrev lock : ℕ → ℕ → LockedUtxo
lock txid created_at = record {
  at = record { txid = txid; vout = 0 };
  satoshis = 1000;
  locking_script = 3;
  unlock_block = 900000;
  public_key_hex = 4;
  created_at = created_at;
  lock_block = some (height 850000);
  confirmation_block = none;
}

abbrev spot : Outpoint
spot = record { txid = 5; vout = 0 }

first_lock-combine_example :
    first_lock spot (combine_locks_with_existing (lock 5 20 ∷ []) (lock 5 10 ∷ lock 6 10 ∷ []))
    ≡ or_lock (find_lock spot (lock 5 20 ∷ [])) (first_lock spot (lock 5 10 ∷ lock 6 10 ∷ []))
first_lock-combine_example = first_lock-combine spot (lock 5 20 ∷ []) (lock 5 10 ∷ lock 6 10 ∷ [])

abbrev ask : ℕ → TxAnswer
ask txid = not_found

has_key-reconcile_example :
    has_key (reconcile_locks ask (λ o. false) (lock 5 20 ∷ []) (lock 5 10 ∷ lock 6 10 ∷ [])) spot
    ≡ has_key (lock 5 20 ∷ []) spot
      || (has_key (lock 5 10 ∷ lock 6 10 ∷ []) spot && (not (is_not_found (ask 5)) || false))
has_key-reconcile_example =
    has_key-reconcile ask (λ o. false) (lock 5 20 ∷ []) (lock 5 10 ∷ lock 6 10 ∷ []) spot
