-- ===== src/Tokens/Booking.antt =====
-- What a token transfer leaves in the table of coins.
use simply_sats.Prelude.{
  ℕ, ◌≡◌, refl, sym, ◌∙◌, ap, Bool, true, not, ◌&&◌, ◌||◌, Option, none, some, List, [], ◌∷◌, ◌++◌,
  map, arith, filter, filter-map, filter-filter, if◌then◌else◌, Bool-cases, Option-cases, inl, inr,
  Result, ok, err, Result-cases,
}
use simply_sats.Types.{Outpoint}
use simply_sats.Store.Defs.{spent, UtxoRow, Store, is_at, is_spendable, in_account}
use simply_sats.Store.Queries.{get_spendable_utxos}
use simply_sats.Store.Pending.{mark_utxo_spent}
use simply_sats.Store.Pending.Rows.{is_hit}
use simply_sats.Send.Record.{Wallet}
use simply_sats.Tokens.Selection.{TransferError, Plan, plan_transfer, parse_amount}
use simply_sats.Tokens.Planning.{Covers, plan_transfer-Covers}
use simply_sats.Tokens.Transfer.{
  Environment, Transfer, BuiltTokenTransfer, mark_utxos_spent, outpoint_of_token,
  outpoint_of_funding, sent_transfer, finalize_token_transfer, token_inputs_with, after_build,
  guarded, script_of_key, key, transfer_with, transfer_token,
}

-- The spendable coins of an account that no outpoint of the list names.
abbrev pub SpendableAfter : List Outpoint → Store → Store → Type 0
SpendableAfter os s s' =
    (account : Option ℕ)
    → get_spendable_utxos account s'
      ≡ filter (λ r. not (is_hit os r)) (get_spendable_utxos account s)

mark_one :
    (now : ℕ) (o : Outpoint) (txid : ℕ) (s : Store)
    → SpendableAfter (o ∷ []) s (mark_utxo_spent now o txid none s)
unfolding mark_utxo_spent get_spendable_utxos
mark_one now o txid s account =
    filter-map (λ r. is_spendable r && in_account account r)
      (λ r. (is_spendable r && in_account account r) && not (is_hit (o ∷ []) r))
      (λ r. if is_at o r && true then spent_row r else r)
      (λ r. (ground arith, λ e. ground (arith, e))) s.rows
    ∙ sym (
        filter-filter (λ r. is_spendable r && in_account account r) (λ r. not (is_hit (o ∷ []) r))
          s.rows)
  where
    spent_row : UtxoRow → UtxoRow
    spent_row r = record r {
      spent_at = some now;
      spent_txid = some txid;
      spending_status = some spent;
    }

is_hit-append :
    (os ps : List Outpoint) (r : UtxoRow) → is_hit (os ++ ps) r ≡ (is_hit os r || is_hit ps r)
is_hit-append [] ps r = refl
is_hit-append (o ∷ os) ps r = ground (arith, is_hit-append os ps r)

filter-not_hit :
    (os ps : List Outpoint) (rs : List UtxoRow)
    → filter (λ r. not (is_hit (os ++ ps) r)) rs
      ≡ filter (λ r. not (is_hit ps r)) (filter (λ r. not (is_hit os r)) rs)
filter-not_hit os ps [] = refl
filter-not_hit os ps (r ∷ rs) = ground (arith, is_hit-append os ps r, filter-not_hit os ps rs)

filter-true : (rs : List UtxoRow) → filter (λ r. true) rs ≡ rs
filter-true [] = refl
filter-true (r ∷ rs) = ap (◌∷◌ r) (filter-true rs)

SpendableAfter-trans :
    (os ps : List Outpoint) (s t u : Store)
    → SpendableAfter os s t
    → SpendableAfter ps t u
    → SpendableAfter (os ++ ps) s u
SpendableAfter-trans os ps s t u h k account =
    k account
    ∙ ap (filter (λ r. not (is_hit ps r))) (h account)
    ∙ sym (filter-not_hit os ps (get_spendable_utxos account s))

-- Marking takes exactly the coins off the spendable ones whose statement goes through.
mark_utxos_spent_lem :
    (now : ℕ) (updates : Outpoint → Bool) (os : List Outpoint) (txid : ℕ) (s : Store)
    → SpendableAfter (filter updates os) s (mark_utxos_spent now updates os txid none s)
unfolding mark_utxos_spent
mark_utxos_spent_lem now updates [] txid s =
    λ account. sym (filter-true (get_spendable_utxos account s))
mark_utxos_spent_lem now updates (o ∷ os) txid s = elim (Bool-cases (updates o)) [
  | inl e ↦ rw e (
      SpendableAfter-trans (o ∷ []) (filter updates os) s (mark_utxo_spent now o txid none s) _
        (mark_one now o txid s) (mark_utxos_spent_lem now updates os txid _))
  | inr e ↦ rw e (mark_utxos_spent_lem now updates os txid s)
]

-- The inputs whose statement goes through.
abbrev pub marked : Environment → Plan → List Outpoint
marked env p =
    filter env.updates (map outpoint_of_funding p.funding.used)
    ++ filter env.updates (map outpoint_of_token p.token_inputs)

-- A refusal changes nothing; a transfer was planned, covered, and took its inputs, and no
-- other coin, off the spendable ones; it was broadcast, and is recorded once, unless that write fails.
abbrev pub Books : Environment → Transfer → Wallet → Result ℕ TransferError × Wallet → Type 0
Books env t w (err e, w') = w' ≡ w
Books env t w (ok txid, w') =
    (amount : ℕ) × (p : Plan) × (built : BuiltTokenTransfer) × (parse_amount t.amount ≡ some amount)
    × (plan_transfer env.rate t.token_utxos amount t.funding_utxos ≡ ok p)
    × Covers env.rate amount p
    × (env.broadcast built.raw_tx ≡ some txid)
    × SpendableAfter (marked env p) w.store w'.store
    × (w'.sent ≡ (if env.record_fails then w.sent else sent_transfer txid built ∷ w.sent))

finalize_token_transfer-Books :
    (env : Environment) (t : Transfer) (built : BuiltTokenTransfer) (amount : ℕ) (p : Plan)
    (w : Wallet)
    → parse_amount t.amount ≡ some amount
    → plan_transfer env.rate t.token_utxos amount t.funding_utxos ≡ ok p
    → Books env t w (finalize_token_transfer env built p w)
unfolding finalize_token_transfer
finalize_token_transfer-Books env t built amount p w a e =
    elim (Option-cases (env.broadcast built.raw_tx)) [
      | inl q ↦ rw (q, finalize_token_transfer) refl
      | inr (txid, q) ↦
          rw (q, finalize_token_transfer)
            (
              amount,
              p,
              built,
              a,
              e,
              plan_transfer-Covers env.rate t.token_utxos amount t.funding_utxos p e,
              q,
              SpendableAfter-trans _ _ w.store _ _
                  (mark_utxos_spent_lem env.now env.updates (map outpoint_of_funding p.funding.used)
                    txid w.store)
                  (mark_utxos_spent_lem env.now env.updates (map outpoint_of_token p.token_inputs)
                    txid _),
              refl,
            )
    ]

after_build-Books :
    (env : Environment) (t : Transfer) (amount : ℕ) (p : Plan) (w : Wallet)
    → parse_amount t.amount ≡ some amount
    → plan_transfer env.rate t.token_utxos amount t.funding_utxos ≡ ok p
    → (built : Option BuiltTokenTransfer) → Books env t w (after_build env p w built)
unfolding after_build
after_build-Books env t amount p w a e none = refl
after_build-Books env t amount p w a e (some built) =
    finalize_token_transfer-Books env t built amount p w a e

transfer_with-Books :
    (env : Environment) (default : Option ℕ) (amount : ℕ) (t : Transfer) (w : Wallet)
    → parse_amount t.amount ≡ some amount
    → Books env t w (transfer_with env default amount t w)
unfolding transfer_with
transfer_with-Books env default amount t w a =
    elim (Result-cases (plan_transfer env.rate t.token_utxos amount t.funding_utxos)) [
      | inr (x, e) ↦ rw (e, transfer_with) refl
      | inl (p, e) ↦ elim (Option-cases (token_inputs_with default p.token_inputs)) [
        | inl q ↦ rw (e, transfer_with) (rw q refl)
        | inr (inputs, q) ↦ rw (e, transfer_with) (rw q (after_build-Books env t amount p w a e _))
      ]
    ]

guarded-Books :
    (env : Environment) (t : Transfer) (k : ℕ → Result ℕ TransferError × Wallet) (w : Wallet)
    → ((amount : ℕ) → parse_amount t.amount ≡ some amount → Books env t w (k amount))
    → Books env t w (guarded env t k w)
guarded-Books env t k w h = elim (Bool-cases (env.is_valid_address t.to_address)) [
  | inr e ↦ rw e refl
  | inl e ↦ elim (Option-cases (parse_amount t.amount)) [
    | inl q ↦ rw e (rw q refl)
    | inr (amount, q) ↦ elim (Bool-cases env.is_tauri) [
      | inl b ↦ rw e (rw q (rw b (h amount q)))
      | inr b ↦ rw e (rw q (rw b refl))
    ]
  ]
]

-- A transfer with private keys is refused and leaves coins and records alone, or it was planned for
-- the requested amount and broadcast, its inputs cover amount and fee, the marked inputs, and no
-- other coins, are off the spendable ones, and the transaction is recorded once, unless that write fails.
transfer_token-Books :
    (env : Environment) (token_wif funding_wif : ℕ) (t : Transfer) (w : Wallet)
    → Books env t w (transfer_token env token_wif funding_wif t w)
unfolding transfer_token
transfer_token-Books env token_wif funding_wif t w = guarded-Books env t _ w λ amount q.
    elim (Option-cases (script_of_key env token_wif)) [
      | inl e ↦ rw e refl
      | inr (script, e) ↦ elim (Option-cases (script_of_key env funding_wif)) [
        | inl e' ↦ rw e (rw e' refl)
        | inr (_, e') ↦ rw e (
            rw e' (
              transfer_with-Books env (some script) amount
                (record t { token_key = key token_wif; funding_key = some funding_wif }) w q))
      ]
    ]
