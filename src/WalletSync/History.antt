-- ===== src/WalletSync/History.antt =====
-- The amount of a transaction in the history, `calculateTxAmount`, and the cache of transaction details
-- (src/services/sync/historySync.ts). An output stands with `btcToSatoshis(value)`; the locking scripts of
-- the addresses, the API's answers and the failures of the database are inputs.
use simply_sats.Prelude.{
  ℕ, zero, suc, ◌+◌, ◌-◌, Bool, Option, none, some, List, [], ◌∷◌, map, any, length, sum_by, ◌==◌,
  ltb, if◌then◌else◌,
}
use simply_sats.Dict.{Dict, lookup, insert, erase}
use simply_sats.Types.{Outpoint}
use simply_sats.Store.Defs.{UtxoRow, Store}
use simply_sats.Store.Queries.{get_utxo_by_outpoint}
use simply_sats.Transactions.Defs.{Amount, received, sent}

pub record WocOut : Type 0 where
  pub satoshis : ℕ
  pub hex : ℕ
  -- `scriptPubKey.addresses`, empty where it is missing
  pub addresses : List ℕ

pub record WocIn : Type 0 where
  pub txid : Option ℕ
  pub vout : Option ℕ

pub record WocTx : Type 0 where
  pub vin : List WocIn
  pub vout : List WocOut

abbrev pub max_tx_detail_cache_size : ℕ
max_tx_detail_cache_size = 5000

abbrev pub delete_oldest : Dict WocTx → Dict WocTx
delete_oldest [] = []
delete_oldest ((k, tx) ∷ cache) = erase k ((k, tx) ∷ cache)

unfoldable pub set_tx_detail_cache_entry : ℕ → WocTx → Dict WocTx → Dict WocTx
set_tx_detail_cache_entry txid detail cache =
    insert txid detail
      (if ltb (length cache) max_tx_detail_cache_size then cache else delete_oldest cache)

abbrev pub includes : List ℕ → ℕ → Bool
includes xs x = any (λ y. y == x) xs

abbrev pub is_our_output : WocOut → ℕ → ℕ → Bool
is_our_output out address script =
    if length out.addresses == 0 then out.hex == script else includes out.addresses address

abbrev pub is_our_output_multi : WocOut → List ℕ → List ℕ → Bool
is_our_output_multi out addresses scripts =
    if length out.addresses == 0
    then includes scripts out.hex
    else any (includes addresses) out.addresses

-- `received - spent`
abbrev pub net : ℕ → ℕ → Amount
net got spent = if ltb got spent then sent (spent - got - 1) else received (got - spent)

-- Whose amounts are asked for, and what answers.
pub record Sources : Type 0 where
  pub addresses : List ℕ
  pub script_of : ℕ → ℕ
  pub account : Option ℕ
  pub store : Store
  pub db_fails : Outpoint → Bool
  -- Nothing also where the call throws.
  pub api : ℕ → Option WocTx

-- `vin.txid && vin.vout !== undefined`
abbrev pub both : Option ℕ → Option ℕ → Option Outpoint
both none vout = none
both (some txid) none = none
both (some txid) (some vout) =
    if txid == 0 then none else some (record { txid = txid; vout = vout })

abbrev pub outpoint_of : WocIn → Option Outpoint
outpoint_of vin = both vin.txid vin.vout

abbrev pub known_coin : Sources → Outpoint → Option UtxoRow
known_coin env o = if env.db_fails o then none else get_utxo_by_outpoint o env.account env.store

abbrev pub keep_answer : ℕ → Option WocTx → Dict WocTx → Option WocTx × Dict WocTx
keep_answer txid none cache = (none, cache)
keep_answer txid (some tx) cache = (some tx, set_tx_detail_cache_entry txid tx cache)

-- The parent transaction, first from the cache.
abbrev pub parent_from : ℕ → Option WocTx → Option WocTx → Dict WocTx → Option WocTx × Dict WocTx
parent_from txid (some tx) answer cache = (some tx, cache)
parent_from txid none answer cache = keep_answer txid answer cache

abbrev pub get_elem? {ℓ} : {A : Type ℓ} → List A → ℕ → Option A
get_elem? [] i = none
get_elem? (x ∷ xs) zero = some x
get_elem? (x ∷ xs) (suc i) = get_elem? xs i

abbrev pub output_at : Option WocTx → ℕ → Option WocOut
output_at none i = none
output_at (some tx) i = get_elem? tx.vout i

abbrev pub our_satoshis : Sources → Option WocOut → ℕ
our_satoshis env none = 0
our_satoshis env (some out) =
    if is_our_output_multi out env.addresses (map env.script_of env.addresses)
    then out.satoshis
    else 0

-- Behind the lookup in the database.
abbrev pub spent_at : Sources → Outpoint → Option UtxoRow → Dict WocTx → ℕ × Dict WocTx
spent_at env o (some r) cache = (r.satoshis, cache)
spent_at env o none cache =
    let parent = parent_from o.txid (lookup o.txid cache) (env.api o.txid) cache in
    (our_satoshis env (output_at parent.0 o.vout), parent.1)

abbrev pub spent_by_input : Sources → Option Outpoint → Dict WocTx → ℕ × Dict WocTx
spent_by_input env none cache = (0, cache)
spent_by_input env (some o) cache = spent_at env o (known_coin env o) cache

unfoldable pub spent_by_each : Sources → List WocIn → Dict WocTx → ℕ × Dict WocTx
spent_by_each env [] cache = (0, cache)
spent_by_each env (vin ∷ vins) cache =
    let first = spent_by_input env (outpoint_of vin) cache in
    let rest = spent_by_each env vins first.1 in (first.0 + rest.0, rest.1)

abbrev pub received_by : ℕ → ℕ → WocOut → ℕ
received_by address script out = if is_our_output out address script then out.satoshis else 0

unfoldable pub calculate_tx_amount : Sources → WocTx → ℕ → Dict WocTx → Amount × Dict WocTx
unfolding spent_by_each
calculate_tx_amount env tx primary cache =
    let spent = spent_by_each env tx.vin cache in
    (net (sum_by (received_by primary (env.script_of primary)) tx.vout) spent.0, spent.1)
