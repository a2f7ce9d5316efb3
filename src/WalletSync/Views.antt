-- ===== src/WalletSync/Views.antt =====
-- The wallet's queries against the repository's.
use simply_sats.Prelude.{
  ℕ, ◌+◌, ◌≡◌, refl, ap, inl, inr, Bool, true, ◌&&◌, ◌||◌, Option, none, some, List, [], ◌∷◌,
  filter, sum_by, Bool-cases, ◌==◌, if◌then◌else◌, arith,
}
use simply_sats.Store.Defs.{UtxoRow, Store, in_account, is_spendable, basket_default}
use simply_sats.Store.Queries.{get_spendable_utxos, get_balance_from_db, if_named}
use simply_sats.WalletSync.Queries.{
  in_basket, pending_inbound, balance_of, get_balance_from_database,
}

-- Whether incoming amounts count for the balance of a basket.
abbrev pub shows_inbound : Option ℕ → Bool
shows_inbound none = true
shows_inbound (some basket) = basket == 0 || basket == basket_default

-- The sum over the coins that pass `keep` and `named` is that over those of them that pass `named`.
balance_of-filter :
    (spendable keep named : UtxoRow → Bool) (rows : List UtxoRow)
    → balance_of (filter named (filter (λ r. spendable r && keep r) rows))
      ≡ sum_by (λ r. r.satoshis) (filter (λ r. spendable r && named r && keep r) rows)
balance_of-filter spendable keep named [] = refl
balance_of-filter spendable keep named (r ∷ rows) =
    ground (arith, balance_of-filter spendable keep named rows)

balance_of-filter_all :
    (spendable keep named : UtxoRow → Bool)
    → ((r : UtxoRow) → named r ≡ true)
    → (rows : List UtxoRow)
    → balance_of (filter (λ r. spendable r && keep r) rows)
      ≡ sum_by (λ r. r.satoshis) (filter (λ r. spendable r && named r && keep r) rows)
balance_of-filter_all spendable keep named all [] = refl
balance_of-filter_all spendable keep named all (r ∷ rows) =
    ground (arith, all r, balance_of-filter_all spendable keep named all rows)

-- With the table queried, the balance shown is that of the repository's query, and for the default basket
-- or all coins the pending incoming amount besides.
pub get_balance_from_database-agrees :
    (basket account inbound : Option ℕ) (s : Store)
    → get_balance_from_database basket account (some s) inbound
      ≡ get_balance_from_db basket account s
        + (if shows_inbound basket then pending_inbound account inbound else 0)
unfolding get_balance_from_database get_balance_from_db get_spendable_utxos
get_balance_from_database-agrees none account inbound s =
    ap (λ n. n + pending_inbound account inbound)
      (balance_of-filter_all is_spendable (in_account account) (if_named none) (λ r. refl) s.rows)
get_balance_from_database-agrees (some basket) account inbound s = elim (Bool-cases (basket == 0)) [
  | inl e ↦ rw e (
      ap (λ n. n + pending_inbound account inbound)
        (balance_of-filter_all is_spendable (in_account account) (λ r. true || r.basket == basket)
          (λ r. refl) s.rows))
  | inr e ↦ rw e (
      ap (λ n. n + (if basket == basket_default then pending_inbound account inbound else 0))
        (balance_of-filter is_spendable (in_account account) (in_basket basket) s.rows))
]
