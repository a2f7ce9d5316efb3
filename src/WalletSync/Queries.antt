-- ===== src/WalletSync/Queries.antt =====
-- The queries of the wallet (src/services/sync/utxoSync.ts) over the repository's. A query that fails
-- is `none`.
use simply_sats.Prelude.{
  ℕ, ◌+◌, Bool, not, Option, none, some, List, [], map, filter, any, sum_by, or_else, ◌==◌, ltb,
  if◌then◌else◌,
}
use simply_sats.Coins.{sort_utxos_by_value}
use simply_sats.Types.{Outpoint}
use simply_sats.Store.Defs.{UtxoRow, Store, basket_default}
use simply_sats.Store.Queries.{get_spendable_utxos}
use simply_sats.WalletSync.{basket_ordinals}

abbrev pub pending_txid_set : Option (List ℕ) → List ℕ
pending_txid_set answer = or_else answer []

abbrev pub is_among : List ℕ → ℕ → Bool
is_among txids txid = any (λ t. txid == t) txids

-- The pending incoming amount, asked for only with an account.
abbrev pub pending_inbound : Option ℕ → Option ℕ → ℕ
pending_inbound none inbound = 0
pending_inbound (some a) none = 0
pending_inbound (some a) (some amount) = if ltb 0 amount then amount else 0

abbrev pub balance_of : List UtxoRow → ℕ
balance_of utxos = sum_by (λ u. u.satoshis) utxos

abbrev pub in_basket : ℕ → UtxoRow → Bool
in_basket basket u = u.basket == basket

-- The balance of one basket, whose name is not empty.
abbrev pub basket_balance : ℕ → List UtxoRow → ℕ → ℕ
basket_balance basket utxos inbound =
    balance_of (filter (in_basket basket) utxos) + (if basket == basket_default then inbound else 0)

abbrev pub named_balance : Option ℕ → List UtxoRow → ℕ → ℕ
named_balance none utxos inbound = balance_of utxos + inbound
named_balance (some basket) utxos inbound =
    if basket == 0 then balance_of utxos + inbound else basket_balance basket utxos inbound

-- `queried` is the table, if the query for the spendable coins succeeds.
unfoldable pub get_balance_from_database : Option ℕ → Option ℕ → Option Store → Option ℕ → ℕ
unfolding get_spendable_utxos
get_balance_from_database basket account none inbound = 0
get_balance_from_database basket account (some s) inbound =
    named_balance basket (get_spendable_utxos account s) (pending_inbound account inbound)

unfoldable pub get_spendable_utxos_from_database :
    ℕ → Option ℕ → Option Store → Option (List ℕ) → List UtxoRow
unfolding get_spendable_utxos sort_utxos_by_value
get_spendable_utxos_from_database basket account none pending = []
get_spendable_utxos_from_database basket account (some s) pending =
    sort_utxos_by_value (λ u. u.satoshis)
      (filter (λ u. not (is_among (pending_txid_set pending) u.txid))
        (filter (in_basket basket) (get_spendable_utxos account s)))

pub record StoredOrdinal : Type 0 where
  pub at : Outpoint
  pub satoshis : ℕ
  -- The text `txid_vout`.
  pub origin : Outpoint

abbrev pub stored_ordinal : UtxoRow → StoredOrdinal
stored_ordinal u = record {
  at = record { txid = u.txid; vout = u.vout };
  satoshis = u.satoshis;
  origin = record { txid = u.txid; vout = u.vout };
}

unfoldable pub get_ordinals_from_database : Option ℕ → Option Store → List StoredOrdinal
unfolding get_spendable_utxos
get_ordinals_from_database account none = []
get_ordinals_from_database account (some s) =
    map stored_ordinal (filter (in_basket basket_ordinals) (get_spendable_utxos account s))
