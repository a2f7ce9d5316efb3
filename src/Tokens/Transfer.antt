-- ===== src/Tokens/Transfer.antt =====
-- `transferToken`, `transferTokenFromStore`, `finalizeTokenTransfer` and the two choices between the
-- addresses, `sendToken` and `sendTokenFromStore`. The Tauri commands, the broadcast and the API
-- that lists the tokens are parameters; each of them can throw (`none`).
use simply_sats.Prelude.{
  ℕ, Bool, not, Option, none, some, List, [], ◌∷◌, map, ltb, ◌==◌, if◌then◌else◌, length, sum_by,
  Result, ok, err,
}
use simply_sats.Types.{Utxo, Outpoint}
use simply_sats.Fees.{FeeRate}
use simply_sats.Store.Defs.{Store}
use simply_sats.Store.Pending.{mark_utxo_spent}
use simply_sats.Send.Record.{recorded, Wallet, SentTransaction}
use simply_sats.Tokens.Selection.{
  TokenUtxo, TransferError, invalid_recipient, invalid_amount, needs_tauri, no_token_utxos, thrown,
  parse_amount, Plan, plan_transfer,
}

-- Which key signs for the tokens: a private key, or an entry of the backend's key store.
pub data TokenKey : Type 0 where
  key : ℕ → TokenKey
  wallet_entry ordinals_entry : TokenKey

pub data Protocol : Type 0 where
  bsv20 bsv21 : Protocol

-- An input as the backend is given it.
pub record BackendInput : Type 0 where
  pub at : Outpoint
  pub satoshis : ℕ
  pub script : ℕ

pub record TransferCommand : Type 0 where
  pub token_key : TokenKey
  pub token_inputs : List BackendInput
  pub funding_key : Option ℕ
  pub funding_inputs : List BackendInput
  pub recipient : ℕ
  pub amount : ℕ
  pub ticker : ℕ
  pub protocol : Protocol
  pub change_address : ℕ

pub record BuiltTokenTransfer : Type 0 where
  pub raw_tx : ℕ
  pub change : ℕ

pub record Environment : Type 0 where
  pub is_valid_address : ℕ → Bool
  pub is_tauri : Bool
  pub rate : FeeRate
  -- `keys_from_wif`, `p2pkhLockingScriptHex`, the build command and `broadcastTransaction`
  pub address_of : ℕ → Option ℕ
  pub script_of : ℕ → Option ℕ
  pub build : TransferCommand → Option BuiltTokenTransfer
  pub broadcast : ℕ → Option ℕ
  -- The clock, and whether the UPDATE for an outpoint goes through.
  pub now : ℕ
  pub updates : Outpoint → Bool
  -- `upsertTransaction` fails, which `recordSentTransaction` only logs.
  pub record_fails : Bool

-- `markUtxosSpent` goes on after an UPDATE that fails.
unfoldable pub mark_utxos_spent :
    ℕ → (Outpoint → Bool) → List Outpoint → ℕ → Option ℕ → Store → Store
mark_utxos_spent now updates [] txid account s = s
mark_utxos_spent now updates (o ∷ os) txid account s =
    mark_utxos_spent now updates os txid account
      (if updates o then mark_utxo_spent now o txid account s else s)

abbrev pub outpoint_of_token : TokenUtxo → Outpoint
outpoint_of_token u = record { txid = u.txid; vout = u.vout }

abbrev pub outpoint_of_funding : Utxo → Outpoint
outpoint_of_funding u = record { txid = u.txid; vout = u.vout }

-- `bsvChange < 0 ? 0 : bsvChange`, of a change that is never negative.
abbrev pub sent_transfer : ℕ → BuiltTokenTransfer → SentTransaction
sent_transfer txid built = record {
  txid = txid;
  raw_tx = built.raw_tx;
  amount = some built.change;
  account = none;
}

unfoldable pub finalize_token_transfer :
    Environment → BuiltTokenTransfer → Plan → Wallet → Result ℕ TransferError × Wallet
unfolding mark_utxos_spent
finalize_token_transfer env built p w = elim (env.broadcast built.raw_tx) [
  | none ↦ (err thrown, w)
  | some txid ↦ (
    ok txid,
    record {
      store =
          mark_utxos_spent env.now env.updates (map outpoint_of_token p.token_inputs) txid none (
            mark_utxos_spent env.now env.updates (map outpoint_of_funding p.funding.used) txid none
              w.store);
      sent = recorded env.record_fails (sent_transfer txid built) w.sent;
    },
  )
]

-- `u.script ?? …`, where the default is a call that can throw.
abbrev pub token_inputs_with : Option ℕ → List TokenUtxo → Option (List BackendInput)
token_inputs_with default [] = some []
token_inputs_with default (u ∷ us) = elim u.script [
  | some script ↦ with_input u script (token_inputs_with default us)
  | none ↦ elim default [
    | none ↦ none
    | some script ↦ with_input u script (token_inputs_with default us)
  ]
]
  where
    with_input : TokenUtxo → ℕ → Option (List BackendInput) → Option (List BackendInput)
    with_input u script none = none
    with_input u script (some rest) =
        some (record { at = outpoint_of_token u; satoshis = u.satoshis; script = script } ∷ rest)

abbrev pub funding_input : Utxo → BackendInput
funding_input u = record { at = outpoint_of_funding u; satoshis = u.satoshis; script = u.script }

-- A request: what the caller passes on to the backend as it is.
pub record Transfer : Type 0 where
  pub token_key : TokenKey
  pub token_utxos : List TokenUtxo
  pub ticker : ℕ
  pub protocol : Protocol
  pub amount : List ℕ
  pub to_address : ℕ
  pub funding_key : Option ℕ
  pub funding_utxos : List Utxo
  pub change_address : ℕ

unfoldable pub after_build :
    Environment → Plan → Wallet → Option BuiltTokenTransfer → Result ℕ TransferError × Wallet
unfolding finalize_token_transfer
after_build env p w none = (err thrown, w)
after_build env p w (some built) = finalize_token_transfer env built p w

-- From the selection on; `default` is the script of a token input without one.
unfoldable pub transfer_with :
    Environment → Option ℕ → ℕ → Transfer → Wallet → Result ℕ TransferError × Wallet
unfolding plan_transfer after_build
transfer_with env default amount t w =
    elim (plan_transfer env.rate t.token_utxos amount t.funding_utxos) [
      | err e ↦ (err e, w)
      | ok p ↦ elim (token_inputs_with default p.token_inputs) [
        | none ↦ (err thrown, w)
        | some inputs ↦ after_build env p w (
            env.build (record {
              token_key = t.token_key;
              token_inputs = inputs;
              funding_key = t.funding_key;
              funding_inputs = map funding_input p.funding.used;
              recipient = t.to_address;
              amount = amount;
              ticker = t.ticker;
              protocol = t.protocol;
              change_address = t.change_address;
            }))
      ]
    ]

-- The guards both functions begin with.
abbrev pub guarded :
    Environment
    → Transfer
    → (ℕ → Result ℕ TransferError × Wallet)
    → Wallet
    → Result ℕ TransferError × Wallet
guarded env t k w =
    if not (env.is_valid_address t.to_address)
    then (err invalid_recipient, w)
    else elim (parse_amount t.amount) [
      | none ↦ (err invalid_amount, w)
      | some amount ↦ if env.is_tauri then k amount else (err needs_tauri, w)
    ]

-- The script of the address that a private key belongs to.
abbrev pub script_of_key : Environment → ℕ → Option ℕ
script_of_key env wif = elim (env.address_of wif) [ none ↦ none | some a ↦ env.script_of a ]

-- The script of the funding address is computed and, every coin having a script, not used.
unfoldable pub transfer_token :
    Environment → ℕ → ℕ → Transfer → Wallet → Result ℕ TransferError × Wallet
unfolding transfer_with parse_amount
transfer_token env token_wif funding_wif t w =
    guarded env t
      (λ amount. elim (script_of_key env token_wif) [
        | none ↦ (err thrown, w)
        | some script ↦ elim (script_of_key env funding_wif) [
          | none ↦ (err thrown, w)
          | some _ ↦
              transfer_with env (some script) amount
                (record t { token_key = key token_wif; funding_key = some funding_wif }) w
        ]
      ])
      w

unfoldable pub transfer_token_from_store :
    Environment → Transfer → Wallet → Result ℕ TransferError × Wallet
unfolding transfer_with parse_amount
transfer_token_from_store env t w =
    guarded env t
      (λ amount.
        transfer_with env (env.script_of t.change_address) amount (record t { funding_key = none })
          w)
      w

-- The request with the tokens of one address, whose change comes back to it.
abbrev pub from_address : TokenKey → List TokenUtxo → ℕ → Transfer → Transfer
from_address entry tokens change_address t = record t {
  token_key = entry;
  token_utxos = tokens;
  change_address = change_address;
}

-- `fetched` is what the API lists for the two addresses.
unfoldable pub send_token_from_store :
    Environment
    → Option (List TokenUtxo × List TokenUtxo)
    → ℕ
    → ℕ
    → Transfer
    → Wallet
    → Result ℕ TransferError × Wallet
unfolding transfer_token_from_store
send_token_from_store env none wallet_address ord_address t w = (err thrown, w)
send_token_from_store env (some ([], [])) wallet_address ord_address t w = (err no_token_utxos, w)
send_token_from_store env (some (wallet_tokens, ord_tokens)) wallet_address ord_address t w =
    let total : List TokenUtxo → ℕ = λ us. sum_by (λ (u : TokenUtxo). u.amt) us in
    let from_wallet : Transfer = from_address wallet_entry wallet_tokens wallet_address t in
    let from_ordinals : Transfer = from_address ordinals_entry ord_tokens ord_address t in
    let chosen : Transfer =
      if ltb (total wallet_tokens) (total ord_tokens)
      then (if length ord_tokens == 0 then from_wallet else from_ordinals)
      else (if length wallet_tokens == 0 then from_ordinals else from_wallet) in
    transfer_token_from_store env chosen w
