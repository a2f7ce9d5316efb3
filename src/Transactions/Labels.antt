-- ===== src/Transactions/Labels.antt =====
-- Replacing the labels of a transaction.
use simply_sats.Prelude.{
  ℕ, ◌≡◌, refl, sym, ap, ◌∙◌, Bool, true, false, not, ◌&&◌, none, some, List, [], ◌∷◌, ◌++◌, map,
  filter, any, All, ◌==◌, ok, append-nil, append_assoc, arith,
}
use simply_sats.Transactions.Defs.{TxLabel, TxTables, is_tx, is_label}
use simply_sats.Transactions.Writes.{
  insert_labels, trimmed, replace_labels, update_transaction_labels,
}
use simply_sats.Transactions.Queries.{get_transaction_labels}

-- No label twice.
abbrev pub AreDistinct : List ℕ → Type 0
AreDistinct [] = Unit
AreDistinct (l ∷ ls) = (any (λ k. l == k) ls ≡ false) × AreDistinct ls

abbrev labelled : ℕ → ℕ → ℕ → TxLabel
labelled txid account l = record { txid = txid; label = l; account_id = account }

-- None of the labels is there.
abbrev AreNew : ℕ → ℕ → List TxLabel → List ℕ → Type 0
AreNew txid account table ls = All (λ l. any (is_label txid l account) table ≡ false) ls

is_label-other :
    (txid account l k : ℕ) (table : List TxLabel)
    → any (is_label txid k account) table ≡ false
    → (l == k) ≡ false
    → any (is_label txid k account) (table ++ (labelled txid account l ∷ [])) ≡ false
is_label-other txid account l k [] h ne = ground arith
is_label-other txid account l k (x ∷ table) h ne =
    ground (arith, is_label-other txid account l k table)

AreNew-insert :
    (txid account l : ℕ) (table : List TxLabel) (ls : List ℕ)
    → AreNew txid account table ls
    → any (λ k. l == k) ls ≡ false
    → AreNew txid account (table ++ (labelled txid account l ∷ [])) ls
AreNew-insert txid account l table [] new ne = tt
AreNew-insert txid account l table (k ∷ ls) new ne = (
  is_label-other txid account l k table new.0 (ground (arith, ne)),
  AreNew-insert txid account l table ls new.1 (ground (arith, ne)),
)

insert_labels-new :
    (txid account : ℕ) (ls : List ℕ) (s : TxTables)
    → AreDistinct ls
    → AreNew txid account s.labels ls
    → insert_labels none txid account ls s
      ≡ (ok tt, record s { labels = s.labels ++ map (labelled txid account) ls })
unfolding insert_labels
insert_labels-new txid account [] s d new =
    ap (λ t. (ok tt, record s { labels = t })) (sym (append-nil s.labels))
insert_labels-new txid account (l ∷ ls) s d new = rw new.0 (
    insert_labels-new txid account ls
      (record s { labels = s.labels ++ (labelled txid account l ∷ []) }) d.1
      (AreNew-insert txid account l s.labels ls new.1 d.0)
    ∙ ap (λ t. (ok tt, record s { labels = t }))
        (append_assoc s.labels (labelled txid account l ∷ []) (map (labelled txid account) ls)))

abbrev is_of : ℕ → ℕ → TxLabel → Bool
is_of txid account l = l.txid == txid && l.account_id == account

deleted-AreNew :
    (txid account : ℕ) (table : List TxLabel) (ls : List ℕ)
    → AreNew txid account (filter (λ l. not (is_of txid account l)) table) ls
deleted-AreNew txid account table [] = tt
deleted-AreNew txid account table (l ∷ ls) =
    (deleted-new txid account l table, deleted-AreNew txid account table ls)
  where
    deleted-new :
        (txid account l : ℕ) (table : List TxLabel)
        → any (is_label txid l account) (filter (λ x. not (is_of txid account x)) table) ≡ false
    deleted-new txid account l [] = refl
    deleted-new txid account l (x ∷ table) = ground (arith, deleted-new txid account l table)

is_of-labelled : (txid account l : ℕ) → is_of txid account (labelled txid account l) ≡ true
is_of-labelled txid account l = ground arith

labels-deleted :
    (txid account : ℕ) (table : List TxLabel) (ls : List ℕ)
    → map
        (λ l. l.label)
        (filter
          (is_of txid account)
          (filter (λ l. not (is_of txid account l)) table ++ map (labelled txid account) ls))
      ≡ ls
labels-deleted txid account [] [] = refl
labels-deleted txid account [] (l ∷ ls) =
    rw (is_of-labelled txid account l) (ap (◌∷◌ l) (labels-deleted txid account [] ls))
labels-deleted txid account (x ∷ table) ls = ground (arith, labels-deleted txid account table ls)

-- Replacing the labels of a transaction that the account has, by labels that are distinct once trimmed,
-- succeeds, and they are read back in their order; the rows stay as they are.
pub update_transaction_labels-read_back :
    (trim : ℕ → ℕ) (txid account : ℕ) (labels : List ℕ) (s : TxTables)
    → any (is_tx txid account) s.rows ≡ true
    → AreDistinct (trimmed trim labels)
    → let r = update_transaction_labels trim none txid labels (some account) s in
      (r.0 ≡ ok tt)
      × (get_transaction_labels txid (some account) r.1 ≡ trimmed trim labels)
      × (r.1.rows ≡ s.rows)
unfolding update_transaction_labels replace_labels get_transaction_labels
update_transaction_labels-read_back trim txid account labels s known d =
    let kept = filter (λ l. not (is_of txid account l)) s.labels in
    let done =
      insert_labels-new txid account (trimmed trim labels) (record s { labels = kept }) d
        (deleted-AreNew txid account s.labels (trimmed trim labels)) in
    rw (known, done) (refl, labels-deleted txid account s.labels (trimmed trim labels), refl)
