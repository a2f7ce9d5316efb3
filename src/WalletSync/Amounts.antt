-- ===== src/WalletSync/Amounts.antt =====
-- The amounts that `calculateTxAmount` (src/services/sync/historySync.ts) finds do not depend on the cache.
use simply_sats.Prelude.{
  ℕ, ◌+◌, ◌≤◌, ◌<◌, ◌≡◌, refl, sym, ap, ◌∙◌, Option, none, some, List, [], ◌∷◌, All, length, sum_by,
  ◌==◌, ltb, Bool-cases, inl, inr, ==_iff, ==_refl, arith,
}
use simply_sats.Dict.{Dict, lookup, insert, erase, length-insert}
use simply_sats.Types.{Outpoint}
use simply_sats.Store.Defs.{UtxoRow}
use simply_sats.WalletSync.History.{
  WocTx, WocIn, Sources, max_tx_detail_cache_size, delete_oldest, set_tx_detail_cache_entry, net,
  outpoint_of, known_coin, parent_from, output_at, our_satoshis, spent_at, spent_by_input,
  spent_by_each, received_by, calculate_tx_amount,
}

-- Every entry is what the API answers, and there are not too many.
pub record IsSound (api : ℕ → Option WocTx) (cache : Dict WocTx) : Type 0 where
  pub answers : All (λ e. api e.0 ≡ some e.1) cache
  pub bound : length cache ≤ max_tx_detail_cache_size

-- What an input spends of ours: the coin the wallet knows, or else the output that the API tells of.
abbrev pub worth_of : Sources → Outpoint → Option UtxoRow → ℕ
worth_of env o (some r) = r.satoshis
worth_of env o none = our_satoshis env (output_at (env.api o.txid) o.vout)

abbrev pub worth_at : Sources → Option Outpoint → ℕ
worth_at env none = 0
worth_at env (some o) = worth_of env o (known_coin env o)

abbrev pub worth : Sources → WocIn → ℕ
worth env vin = worth_at env (outpoint_of vin)

lookup-answers :
    (api : ℕ → Option WocTx) (k : ℕ) (cache : Dict WocTx) (tx : WocTx)
    → All (λ e. api e.0 ≡ some e.1) cache
    → lookup k cache ≡ some tx
    → api k ≡ some tx
lookup-answers api k [] tx h e = ground (arith, e)
lookup-answers api k ((j, w) ∷ cache) tx h e = elim (Bool-cases (j == k)) [
  | inl e' ↦ grind arith
  | inr e' ↦ lookup-answers api k cache tx h.1 (grind arith)
]

insert-answers :
    (api : ℕ → Option WocTx) (k : ℕ) (tx : WocTx) (cache : Dict WocTx)
    → api k ≡ some tx
    → All (λ e. api e.0 ≡ some e.1) cache
    → All (λ e. api e.0 ≡ some e.1) (insert k tx cache)
insert-answers api k tx [] e h = (e, tt)
insert-answers api k tx ((j, w) ∷ cache) e h = elim (Bool-cases (j == k)) [
  | inl e' ↦ rw e' (ap api ((==_iff j k).0 e') ∙ e, h.1)
  | inr e' ↦ rw e' (h.0, insert-answers api k tx cache e h.1)
]

erase-answers :
    (api : ℕ → Option WocTx) (k : ℕ) (cache : Dict WocTx)
    → All (λ e. api e.0 ≡ some e.1) cache
    → All (λ e. api e.0 ≡ some e.1) (erase k cache)
erase-answers api k [] h = tt
erase-answers api k ((j, w) ∷ cache) h = elim (Bool-cases (j == k)) [
  | inl e ↦ rw e h.1
  | inr e ↦ rw e (h.0, erase-answers api k cache h.1)
]

delete_oldest-answers :
    (api : ℕ → Option WocTx) (cache : Dict WocTx)
    → All (λ e. api e.0 ≡ some e.1) cache
    → All (λ e. api e.0 ≡ some e.1) (delete_oldest cache)
delete_oldest-answers api [] h = tt
delete_oldest-answers api ((k, tx) ∷ cache) h = erase-answers api k ((k, tx) ∷ cache) h

length-delete_oldest :
    (cache : Dict WocTx) → 0 < length cache → length (delete_oldest cache) < length cache
length-delete_oldest [] h = h
length-delete_oldest ((k, tx) ∷ cache) h = rw (==_refl k) (omega arith)

insert-bound :
    (k : ℕ) (tx : WocTx) (cache : Dict WocTx) → length (insert k tx cache) ≤ length cache + 1
insert-bound k tx cache = ground (arith, length-insert k tx cache)

set-IsSound :
    (api : ℕ → Option WocTx) (k : ℕ) (tx : WocTx) (cache : Dict WocTx)
    → api k ≡ some tx
    → IsSound api cache
    → IsSound api (set_tx_detail_cache_entry k tx cache)
unfolding set_tx_detail_cache_entry
set-IsSound api k tx cache e s = elim (Bool-cases (ltb (length cache) max_tx_detail_cache_size)) [
  | inl e' ↦ rw e' (record {
    answers = insert-answers api k tx cache e s.answers;
    bound = ground (arith, insert-bound k tx cache, e');
  })
  | inr e' ↦ rw e' (record {
    answers =
        insert-answers api k tx (delete_oldest cache) e (delete_oldest-answers api cache s.answers);
    bound =
        ground
          (arith, insert-bound k tx (delete_oldest cache), length-delete_oldest cache, e', s.bound);
  })
]

-- What the cache or the API answers is what the API answers.
parent_from-IsSound :
    (api : ℕ → Option WocTx) (k : ℕ) (found answer : Option WocTx) (cache : Dict WocTx)
    → lookup k cache ≡ found
    → api k ≡ answer
    → IsSound api cache
    → ((parent_from k found answer cache).0 ≡ api k)
      × IsSound api (parent_from k found answer cache).1
parent_from-IsSound api k (some tx) answer cache hit e s =
    (sym (lookup-answers api k cache tx s.answers hit), s)
parent_from-IsSound api k none none cache miss e s = (sym e, s)
parent_from-IsSound api k none (some tx) cache miss e s = (sym e, set-IsSound api k tx cache e s)

spent_at-worth_of :
    (env : Sources) (o : Outpoint) (coin : Option UtxoRow) (cache : Dict WocTx)
    → IsSound env.api cache
    → ((spent_at env o coin cache).0 ≡ worth_of env o coin)
      × IsSound env.api (spent_at env o coin cache).1
spent_at-worth_of env o (some r) cache s = (refl, s)
spent_at-worth_of env o none cache s =
    let p =
      parent_from-IsSound env.api o.txid (lookup o.txid cache) (env.api o.txid) cache refl refl s in
    (ap (λ t. our_satoshis env (output_at t o.vout)) p.0, p.1)

spent_by_input-worth :
    (env : Sources) (at : Option Outpoint) (cache : Dict WocTx)
    → IsSound env.api cache
    → ((spent_by_input env at cache).0 ≡ worth_at env at)
      × IsSound env.api (spent_by_input env at cache).1
spent_by_input-worth env none cache s = (refl, s)
spent_by_input-worth env (some o) cache s = spent_at-worth_of env o (known_coin env o) cache s

spent_by_each-worth :
    (env : Sources) (vins : List WocIn) (cache : Dict WocTx)
    → IsSound env.api cache
    → ((spent_by_each env vins cache).0 ≡ sum_by (worth env) vins)
      × IsSound env.api (spent_by_each env vins cache).1
unfolding spent_by_each
spent_by_each-worth env [] cache s = (refl, s)
spent_by_each-worth env (vin ∷ vins) cache s =
    let first = spent_by_input-worth env (outpoint_of vin) cache s in
    let rest =
      spent_by_each-worth env vins (spent_by_input env (outpoint_of vin) cache).1 first.1 in
    (rw (first.0, rest.0) refl, rest.1)

-- From a cache that holds only what the API answers, and no more entries than its bound, `calculateTxAmount`
-- returns what it would without a cache: the outputs to the primary address, less for each input the coin
-- that the database knows, or else the parent's output if it is one of the wallet's. The cache stays such.
pub calculate_tx_amount-IsSound :
    (env : Sources) (tx : WocTx) (primary : ℕ) (cache : Dict WocTx)
    → IsSound env.api cache
    → ((calculate_tx_amount env tx primary cache).0
        ≡ net
            (sum_by (received_by primary (env.script_of primary)) tx.vout)
            (sum_by (worth env) tx.vin))
      × IsSound env.api (calculate_tx_amount env tx primary cache).1
unfolding calculate_tx_amount
calculate_tx_amount-IsSound env tx primary cache s =
    let spent = spent_by_each-worth env tx.vin cache s in
    (ap (net (sum_by (received_by primary (env.script_of primary)) tx.vout)) spent.0, spent.1)
