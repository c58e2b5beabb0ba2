-- ===== src/Chain/Utxo.antt =====
-- infra/chain_adapters/btc_blockstream.py: the outputs of BTC and LTC transactions that pay a
-- watched address. One attempt at a request is a parameter.
use escrow_hub.Common.{
  ℕ, zero, suc, pos, Bool, true, false, ◌||◌, Option, none, some, List, [], ◌∷◌, ◌++◌,
  if◌then◌else◌, leb, ◌==◌,
}
use escrow_hub.Text.{Text, codes, text_eq}
use escrow_hub.Asset.{Asset}
use escrow_hub.Outcome.{Result, ok, err, ◌>>=◌, retryable}
use escrow_hub.Chain.Scan.{ChainDeposit, collect}

pub record Output : Type 0 where
  pub scriptpubkey_address : Option Text
  pub value : ℕ

pub record UtxoTransaction : Type 0 where
  pub txid : Text
  pub confirmations : ℕ
  pub vout : List Output

-- One attempt: an answer, an HTTP error with its code, or another failure that is retried.
pub data Attempt : Type 0 where
  answered : List UtxoTransaction → Attempt
  http_error : ℕ → Attempt
  failed : Attempt

abbrev pub retried_codes : List ℕ
retried_codes = 403 ∷ 408 ∷ 409 ∷ 425 ∷ 429 ∷ 500 ∷ 502 ∷ 503 ∷ 504 ∷ []

unfoldable pub mem : ℕ → List ℕ → Bool
mem n [] = false
mem n (m ∷ ms) = m == n || mem n ms

-- The attempts that are left, from the number `attempt` on.
unfoldable pub attempts_from : ℕ → ℕ → (ℕ → Attempt) → Result (List UtxoTransaction)
unfolding mem
attempts_from zero attempt request = err retryable
attempts_from (suc left) attempt request =
    let rest = attempts_from left (suc attempt) request in
    elim (request attempt) [
      | answered txs ↦ ok txs
      | http_error code ↦ if mem code retried_codes then rest else err retryable
      | failed ↦ rest
    ]

unfoldable pub fetch_json : (ℕ → Attempt) → Result (List UtxoTransaction)
unfolding attempts_from
fetch_json = attempts_from 3 0

pub record UtxoConfig : Type 0 where
  pub asset : Asset
  pub min_conf : ℕ
  pub address_user_map : List (Text × ℕ)
  pub str_int : ℕ → Text
  -- the requests to the base URL, and to the secondary one where it is set
  pub primary : Text → ℕ → Attempt
  pub secondary : Option (Text → ℕ → Attempt)

unfoldable pub has_txid : Text → List UtxoTransaction → Bool
has_txid txid [] = false
has_txid txid (tx ∷ txs) = text_eq tx.txid txid || has_txid txid txs

-- `secondary_txids is None or txid in secondary_txids`
unfoldable pub confirmed_by : Option (List UtxoTransaction) → Text → Bool
unfolding has_txid
confirmed_by none txid = true
confirmed_by (some txs) txid = has_txid txid txs

abbrev pub pays : Text → Output → Bool
pays address output = elim output.scriptpubkey_address [ none ↦ false | some a ↦ text_eq a address ]

abbrev pub output_deposit : UtxoConfig → ℕ → UtxoTransaction → ℕ → Output → ChainDeposit
output_deposit cfg user_id tx idx output = record {
  user_id = user_id;
  asset = cfg.asset;
  amount = record { coeff = pos output.value; places = 8 };
  txid = tx.txid;
  unique_key = tx.txid ++ codes ":" ++ cfg.str_int idx;
  confirmations = tx.confirmations;
  finalized = leb cfg.min_conf tx.confirmations;
}

-- `for idx, vout in enumerate(…)`
unfoldable pub outputs_from :
    UtxoConfig → Text → ℕ → UtxoTransaction → ℕ → List Output → List ChainDeposit
outputs_from cfg address user_id tx idx [] = []
outputs_from cfg address user_id tx idx (output ∷ rest) =
    let others = outputs_from cfg address user_id tx (suc idx) rest in
    if pays address output then output_deposit cfg user_id tx idx output ∷ others else others

unfoldable pub transactions_deposits :
    UtxoConfig → Text → ℕ → Option (List UtxoTransaction) → List UtxoTransaction → List ChainDeposit
unfolding outputs_from confirmed_by
transactions_deposits cfg address user_id secondary [] = []
transactions_deposits cfg address user_id secondary (tx ∷ txs) =
    let others = transactions_deposits cfg address user_id secondary txs in
    if confirmed_by secondary tx.txid
    then outputs_from cfg address user_id tx 0 tx.vout ++ others
    else others

unfoldable pub secondary_transactions : UtxoConfig → Text → Result (Option (List UtxoTransaction))
unfolding fetch_json
secondary_transactions cfg address = elim cfg.secondary [
  | none ↦ ok none
  | some request ↦ fetch_json (request address) >>= λ txs. ok (some txs)
]

unfoldable pub address_deposits : UtxoConfig → Text × ℕ → Result (List ChainDeposit)
unfolding fetch_json secondary_transactions transactions_deposits
address_deposits cfg (address, user_id) = fetch_json (cfg.primary address) >>= λ txs.
    secondary_transactions cfg address >>= λ others.
    ok (transactions_deposits cfg address user_id others txs)

unfoldable pub fetch_deposits : UtxoConfig → Result (List ChainDeposit)
unfolding collect address_deposits
fetch_deposits cfg = collect (address_deposits cfg) cfg.address_user_map
