-- ===== src/Store/Defs.antt =====
-- Rows of the table `utxos` (src-tauri/migrations/001_initial.sql and the later columns), and the
-- SQL statements the repository runs on them. A text stands as a number, the empty text as 0; a
-- nullable column is an `Option`; a comparison with NULL fails.
use simply_sats.Prelude.{
  ℕ, Bool, true, false, ◌&&◌, Option, none, some, List, map, ◌==◌, if◌then◌else◌,
}
use simply_sats.Types.{Outpoint}

-- CHECK(spending_status IN ('unspent', 'pending', 'spent'))
pub data SpendingStatus : Type 0 where
  unspent pending spent : SpendingStatus

pub record UtxoRow : Type 0 where
  pub id : ℕ
  pub txid : ℕ
  pub vout : ℕ
  pub satoshis : ℕ
  pub locking_script : ℕ
  pub address : Option ℕ
  pub basket : ℕ
  pub spendable : Bool
  pub created_at : ℕ
  pub spent_at : Option ℕ
  pub spent_txid : Option ℕ
  pub spending_status : Option SpendingStatus
  pub pending_spending_txid : Option ℕ
  pub pending_since : Option ℕ
  pub frozen : Option Bool
  pub account_id : Option ℕ

-- `tags` is the table `utxo_tags`, as pairs of a row's id and a tag.
pub record Store : Type 0 where
  pub rows : List UtxoRow
  pub next_id : ℕ
  pub tags : List (ℕ × ℕ)

pub data DbError : Type 0 where
  query_failed : DbError

-- The baskets whose names the repository tests.
abbrev pub basket_default : ℕ
basket_default = 1

abbrev pub basket_derived : ℕ
basket_derived = 2

abbrev pub basket_locks : ℕ
basket_locks = 3

-- `txid = $1 AND vout = $2`
abbrev pub is_at : Outpoint → UtxoRow → Bool
is_at o r = r.txid == o.txid && r.vout == o.vout

-- `column = $n` on a nullable column
abbrev pub eq_column : Option ℕ → ℕ → Bool
eq_column none k = false
eq_column (some j) k = j == k

-- A condition that the code adds only for a given argument.
abbrev pub if_given : Option ℕ → (ℕ → Bool) → Bool
if_given none p = true
if_given (some k) p = p k

-- `account_id = $n`, if an account is given
abbrev pub in_account : Option ℕ → UtxoRow → Bool
in_account account r = if_given account (λ a. eq_column r.account_id a)

-- `spending_status IS NULL OR spending_status = 'unspent'`
abbrev pub is_unspent : Option SpendingStatus → Bool
is_unspent none = true
is_unspent (some unspent) = true
is_unspent (some pending) = false
is_unspent (some spent) = false

-- `spending_status = 'pending'`
abbrev pub is_pending : Option SpendingStatus → Bool
is_pending none = false
is_pending (some unspent) = false
is_pending (some pending) = true
is_pending (some spent) = false

abbrev pub is_null : Option ℕ → Bool
is_null none = true
is_null (some _) = false

-- The condition all queries for spendable coins share.
abbrev pub is_spendable : UtxoRow → Bool
is_spendable r = r.spendable && is_null r.spent_at && is_unspent r.spending_status

-- `UPDATE utxos SET … WHERE …`
abbrev pub update_where : (UtxoRow → Bool) → (UtxoRow → UtxoRow) → List UtxoRow → List UtxoRow
update_where p f rs = map (λ r. if p r then f r else r) rs
