-- ===== src/Store/Adding.antt =====
-- `addUTXO`: what sync and the send code call for an output found on chain.
use simply_sats.Prelude.{
  ℕ, suc, Bool, true, false, not, ◌&&◌, ◌||◌, Option, none, some, List, [], ◌∷◌, map, ◌==◌,
  if◌then◌else◌, is_some, or_else, any, ok, err, Result,
}
use simply_sats.Types.{Outpoint}
use simply_sats.Store.Defs.{
  UtxoRow, Store, DbError, query_failed, unspent, basket_derived, update_where,
}
pub mod Appending
pub mod Laws
pub mod Rules
use simply_sats.Store.Queries.{get_utxo_by_outpoint}

-- `Omit<UTXO, 'id'>`, with the fields that `addUTXO` reads.
pub record NewUtxo : Type 0 where
  pub at : Outpoint
  pub satoshis : ℕ
  pub locking_script : ℕ
  pub address : Option ℕ
  pub basket : ℕ
  pub spendable : Bool
  pub created_at : ℕ
  pub tags : List ℕ

-- Neither null nor the empty text.
abbrev pub is_present : Option ℕ → Bool
is_present none = false
is_present (some a) = not (a == 0)

abbrev pub same_address : Option ℕ → Option ℕ → Bool
same_address none b = false
same_address (some a) none = false
same_address (some a) (some b) = a == b

abbrev pub address_confirmed : UtxoRow → NewUtxo → Bool
address_confirmed ex u =
    is_present ex.address && is_present u.address && same_address ex.address u.address

-- The account that a row found again belongs to.
unfoldable pub resolve_account : UtxoRow → NewUtxo → Option ℕ → ℕ
resolve_account ex u account =
    if address_confirmed ex u && is_some ex.account_id
    then or_else ex.account_id 1
    else if not (is_present ex.address)
        || not (is_present u.address)
        || same_address ex.address u.address
    then or_else account 1
    else or_else ex.account_id 1

abbrev pub coalesce : Option ℕ → Option ℕ → Option ℕ
coalesce none old = old
coalesce (some a) old = some a

abbrev pub refresh : NewUtxo → ℕ → UtxoRow → UtxoRow
refresh u account r = record r {
  address = coalesce u.address r.address;
  spendable = u.spendable;
  spent_at = none;
  spending_status = some unspent;
  pending_spending_txid = none;
  pending_since = none;
  account_id = some account;
}

abbrev pub upgrade : NewUtxo → ℕ → UtxoRow → UtxoRow
upgrade u account r = record r {
  basket = basket_derived;
  address = u.address;
  locking_script = u.locking_script;
  spendable = u.spendable;
  spent_at = none;
  spending_status = some unspent;
  pending_spending_txid = none;
  pending_since = none;
  account_id = some account;
}

-- The three cases for a row that is there already.
unfoldable pub found_again : UtxoRow → NewUtxo → ℕ → UtxoRow → UtxoRow
found_again ex u account =
    if ex.basket == basket_derived
    then refresh u account
    else if u.basket == basket_derived
    then upgrade u account
    else refresh u account

abbrev pub new_row : NewUtxo → ℕ → ℕ → UtxoRow
new_row u account id = record {
  id = id;
  txid = u.at.txid;
  vout = u.at.vout;
  satoshis = u.satoshis;
  locking_script = u.locking_script;
  address = u.address;
  basket = u.basket;
  spendable = u.spendable;
  created_at = u.created_at;
  spent_at = none;
  spent_txid = none;
  spending_status = some unspent;
  pending_spending_txid = none;
  pending_since = none;
  frozen = some false;
  account_id = some account;
}

-- A tag that is there already violates UNIQUE(utxo_id, tag), and is skipped.
abbrev pub insert_tags : ℕ → List ℕ → List (ℕ × ℕ) → List (ℕ × ℕ)
insert_tags id [] table = table
insert_tags id (t ∷ ts) table =
    insert_tags id ts (if any (λ e. e.0 == id && e.1 == t) table then table else (id, t) ∷ table)

-- The rows come back in the order of insertion, so a new row goes to the end.
abbrev pub append_row : List UtxoRow → UtxoRow → List UtxoRow
append_row [] r = r ∷ []
append_row (q ∷ qs) r = q ∷ append_row qs r

abbrev pub add_found : UtxoRow → NewUtxo → Option ℕ → Store → ℕ × Store
add_found ex u account s = (
  ex.id,
  record s {
    rows =
        update_where (λ r. r.id == ex.id) (found_again ex u (resolve_account ex u account)) s.rows;
  },
)

abbrev pub add_new : NewUtxo → Option ℕ → Store → ℕ × Store
add_new u account s = (
  s.next_id,
  record {
    rows = append_row s.rows (new_row u (or_else account 1) s.next_id);
    next_id = suc s.next_id;
    tags = insert_tags s.next_id u.tags s.tags;
  },
)

-- The two halves of the function, by whether the outpoint has a row.
unfoldable pub place : Option UtxoRow → NewUtxo → Option ℕ → Store → ℕ × Store
unfolding resolve_account found_again
place (some ex) u account s = add_found ex u account s
place none u account s = add_new u account s

-- Which statement throws: none; the one that looks up or writes the row, or one before; or the SELECT
-- that reads an inserted row back.
pub data AddFault : Type 0 where
  no_fault write_fails verify_fails : AddFault

-- An inserted row that cannot be read back stays, without its tags. A row that was there is not read back.
unfoldable pub place_unverified :
    Option UtxoRow → NewUtxo → Option ℕ → Store → Result ℕ DbError × Store
unfolding place
place_unverified (some ex) u account s = (ok ex.id, (place (some ex) u account s).1)
place_unverified none u account s =
    (err query_failed, (place none (record u { tags = [] }) account s).1)

-- The id of the row, and the table.
unfoldable pub add_utxo : AddFault → NewUtxo → Option ℕ → Store → Result ℕ DbError × Store
unfolding place place_unverified get_utxo_by_outpoint
add_utxo write_fails u account s = (err query_failed, s)
add_utxo verify_fails u account s = place_unverified (get_utxo_by_outpoint u.at none s) u account s
add_utxo no_fault u account s =
    let (id, s') = place (get_utxo_by_outpoint u.at none s) u account s in (ok id, s')
