-- ===== src/WalletSync.antt =====
-- The reconciliation of an address with the chain (`syncAddress` and the block height cache of
-- src/services/sync/addressSync.ts). What the API and the clock answer, and which database calls fail,
-- are inputs. Outpoints are unique in the table, so the map of the known coins is a list of rows.
pub mod History
pub mod Amounts
pub mod Resolving
pub mod Phantoms
pub mod Resolved
pub mod Queries
pub mod Views
pub mod Payable
pub mod Table
pub mod Phases
pub mod Reconciled
use simply_sats.Prelude.{
  ℕ, suc, ◌+◌, ◌-◌, Bool, true, false, not, ◌&&◌, ◌||◌, Option, none, some, List, [], ◌∷◌, filter,
  any, sum_by, length, or_else, Result, ok, err, ◌==◌, ltb, if◌then◌else◌,
}
use simply_sats.Types.{Outpoint}
use simply_sats.Store.Defs.{UtxoRow, Store, DbError, query_failed, is_at, eq_column}
use simply_sats.Store.Queries.{get_spendable_utxos}
use simply_sats.Store.Pending.{mark_utxo_spent}
use simply_sats.Store.Adding.{NewUtxo, AddFault, add_utxo}

abbrev pub basket_ordinals : ℕ
basket_ordinals = 4

abbrev pub tag_ordinal : ℕ
tag_ordinal = 1

-- The text 'unknown' in the place of the spending txid.
abbrev pub unknown_txid : ℕ
unknown_txid = 1

abbrev pub block_height_cache_ttl : ℕ
block_height_cache_ttl = 60000

pub record HeightCache : Type 0 where
  pub height : ℕ
  pub cached_at : ℕ

abbrev pub reset_block_height_cache : HeightCache
reset_block_height_cache = record { height = 0; cached_at = 0 }

-- `answer` is what the API says; the clock does not run backwards.
unfoldable pub get_current_block_height : ℕ → ℕ → HeightCache → ℕ × HeightCache
get_current_block_height now answer cache =
    if ltb 0 cache.height && ltb (now - cache.cached_at) block_height_cache_ttl
    then (cache.height, cache)
    else if ltb 0 answer
    then (answer, record { height = answer; cached_at = now })
    else (answer, cache)

pub record ChainCoin : Type 0 where
  pub at : Outpoint
  pub satoshis : ℕ

pub record AddressInfo : Type 0 where
  pub address : ℕ
  pub basket : ℕ
  pub account_id : Option ℕ
  -- `getLockingScript(address)`
  pub locking_script : ℕ

-- `none` stands for an error. `history` is the number of entries; `add_fails` and
-- `mark_fails` tell for which outpoints the database call fails.
pub record Answers : Type 0 where
  pub utxos : Option (List ChainCoin)
  pub history : Option ℕ
  pub spendable_fails : Bool
  pub pending_txids : Option (List ℕ)
  pub add_fails : Outpoint → AddFault
  pub mark_fails : Outpoint → Bool
  pub sync_state_fails : Bool
  pub block_height : ℕ
  pub now : ℕ

-- `synced` are the addresses with the heights that `updateSyncState` wrote for them, the last one first.
pub record SyncState : Type 0 where
  pub store : Store
  pub synced : List (ℕ × ℕ)
  pub heights : HeightCache

-- `none` is the total of -1, which says that the address is to be left out of sums.
pub record SyncResult : Type 0 where
  pub new_utxos : ℕ
  pub spent_utxos : ℕ
  pub total_balance : Option ℕ

abbrev pub is_of : AddressInfo → UtxoRow → Bool
is_of info r = eq_column r.address info.address || r.locking_script == info.locking_script

unfoldable pub existing_utxos : AddressInfo → Store → List UtxoRow
unfolding get_spendable_utxos
existing_utxos info s = filter (is_of info) (get_spendable_utxos info.account_id s)

abbrev pub outpoint_of_row : UtxoRow → Outpoint
outpoint_of_row r = record { txid = r.txid; vout = r.vout }

abbrev pub is_known : List UtxoRow → Outpoint → Bool
is_known existing o = any (is_at o) existing

abbrev pub is_on_chain : List ChainCoin → Outpoint → Bool
is_on_chain coins o = any (λ c. o.txid == c.at.txid && o.vout == c.at.vout) coins

abbrev pub new_utxo : AddressInfo → ℕ → ChainCoin → NewUtxo
new_utxo info now c = record {
  at = c.at;
  satoshis = c.satoshis;
  locking_script = info.locking_script;
  address = some info.address;
  basket = info.basket;
  spendable = true;
  created_at = now;
  tags = if info.basket == basket_ordinals && c.satoshis == 1 then tag_ordinal ∷ [] else [];
}

abbrev pub skipped : SyncResult
skipped = record { new_utxos = 0; spent_utxos = 0; total_balance = none }

module _ (info : AddressInfo) (answers : Answers) where
  abbrev pub add_coin : List UtxoRow → ChainCoin → Store → Store
  add_coin existing c s =
      if is_known existing c.at
      then s
      else (add_utxo (answers.add_fails c.at) (new_utxo info answers.now c) info.account_id s).1

  -- The coins found on chain, in turn.
  unfoldable pub add_coins : List UtxoRow → List ChainCoin → Store → Store
  unfolding add_utxo
  add_coins existing [] s = s
  add_coins existing (c ∷ cs) s = add_coins existing cs (add_coin existing c s)

  abbrev pub pending_txids_or_none : List ℕ
  pending_txids_or_none = or_else answers.pending_txids []

  -- Not on chain, and no output of a transaction that is still pending.
  abbrev pub is_gone : List ChainCoin → UtxoRow → Bool
  is_gone coins r =
      not (is_on_chain coins (outpoint_of_row r))
      && not (any (λ t. r.txid == t) pending_txids_or_none)

  abbrev pub mark_row : List ChainCoin → UtxoRow → Store → Store
  mark_row coins r s =
      if is_gone coins r && not (answers.mark_fails (outpoint_of_row r))
      then mark_utxo_spent answers.now (outpoint_of_row r) unknown_txid info.account_id s
      else s

  unfoldable pub mark_gone : List ChainCoin → List UtxoRow → Store → Store
  unfolding mark_utxo_spent
  mark_gone coins [] s = s
  mark_gone coins (r ∷ rs) s = mark_gone coins rs (mark_row coins r s)

  -- The sync state is written for an address whose coins were reconciled.
  unfoldable pub reconcile : List ChainCoin → SyncState → SyncResult × SyncState
  unfolding existing_utxos add_coins mark_gone get_current_block_height
  reconcile coins st =
      let existing = existing_utxos info st.store in
      let (height, heights) =
        get_current_block_height answers.now answers.block_height st.heights in
      (
        record {
          new_utxos = length (filter (λ c. not (is_known existing c.at)) coins);
          spent_utxos = length (filter (is_gone coins) existing);
          total_balance = some (sum_by (λ c. c.satoshis) coins);
        },
        record {
          store = mark_gone coins existing (add_coins existing coins st.store);
          synced =
              if answers.sync_state_fails then st.synced else (info.address, height) ∷ st.synced;
          heights = heights;
        },
      )

  -- No coins on chain, coins in the table, and no history that would tell of a sweep.
  abbrev pub is_doubtful : List ChainCoin → List UtxoRow → Bool
  is_doubtful coins existing =
      length coins == 0 && ltb 0 (length existing) && or_else answers.history 0 == 0

  unfoldable pub sync_address : SyncState → Result (SyncResult × SyncState) DbError
  unfolding existing_utxos reconcile
  sync_address st = elim answers.utxos [
    | none ↦ ok (skipped, st)
    | some coins ↦
        if answers.spendable_fails
        then err query_failed
        else if is_doubtful coins (existing_utxos info st.store)
        then ok (skipped, st)
        else ok (reconcile coins st)
  ]
