-- ===== src/Chain/Watch.antt =====
-- watchers/eth_watcher.py, watchers/sol_watcher.py, watchers/btc_watcher.py: `run_once`, and the
-- cycle of run_eth_watcher.py and its siblings round it. The messages to Telegram are not modelled.
use escrow_hub.Common.{map, ℕ, ◌+◌, Bool, true, false, Option, none, some, List, [], ◌∷◌}
use escrow_hub.Text.{Text, codes}
use escrow_hub.Asset.{chain_family, eth, usdt}
use escrow_hub.Outcome.{Result, ok, err, ◌>>=◌}
use escrow_hub.Settings.{Settings}
use escrow_hub.Outside.{Outside}
use escrow_hub.Db.Transaction.{Connection, commit, rollback}
use escrow_hub.Wallet.Deposits.{Transfer, credit_deposit_if_confirmed}
use escrow_hub.Watcher.{Rows, read_watcher_cursor, write_watcher_cursor, upsert_watcher_status}
use escrow_hub.Chain.Scan.{ChainDeposit}
use escrow_hub.Chain.Eth.{EthConfig, EthNode, fetch_deposits}
use escrow_hub.Wallet.Routes.{monitored_deposit_address_map}
use escrow_hub.Db.{Db}

-- The connection of a cycle, and the table watcher_status.
pub record Polled : Type 0 where
  pub connection : Connection
  pub rows : Rows

abbrev pub transfer_of : ChainDeposit → Transfer
transfer_of dep = record {
  asset = dep.asset;
  txid = dep.txid;
  unique_key = dep.unique_key;
  chain_family = chain_family dep.asset;
  confirmations = dep.confirmations;
  finalized = dep.finalized;
}

abbrev pub credit : Settings → ChainDeposit → Connection → Result Bool × Connection
credit settings dep = credit_deposit_if_confirmed settings dep.user_id dep.amount (transfer_of dep)

abbrev pub counted : Result Bool → ℕ
counted (ok true) = 1
counted (ok false) = 0
counted (err e) = 0

-- The loop of the ETH and SOL watchers: an exception of one deposit is logged.
unfoldable pub ingest_each : Settings → List ChainDeposit → Connection → ℕ × Connection
ingest_each settings [] c = (0, c)
ingest_each settings (dep ∷ deps) c =
    let (r, c') = credit settings dep c in
    let (n, c'') = ingest_each settings deps c' in (counted r + n, c'')

abbrev pub add_credit : Bool → Result ℕ × Connection → Result ℕ × Connection
add_credit credited (r, c) = (elim r [ err e ↦ err e | ok n ↦ ok (counted (ok credited) + n) ], c)

-- The loop of the BTC and LTC watcher: an exception ends it.
unfoldable pub ingest_all : Settings → List ChainDeposit → Connection → Result ℕ × Connection
ingest_all settings [] c = (ok 0, c)
ingest_all settings (dep ∷ deps) c =
    let (r, c') = credit settings dep c in
    let rest = ingest_all settings deps c' in
    elim r [ err e ↦ (err e, c') | ok credited ↦ add_credit credited rest ]

unfoldable pub move_cursor : ℕ → Text → Option ℕ → Rows → Rows
unfolding write_watcher_cursor
move_cursor now name none rows = rows
move_cursor now name (some cursor) rows = write_watcher_cursor now name cursor rows

-- `run_once` of the ETH and SOL watchers, of what the adapter fetched
unfoldable pub run_once :
    Settings → ℕ → Text → Result (List ChainDeposit × Option ℕ) → Polled → Result ℕ × Polled
unfolding ingest_each move_cursor
run_once settings now name (err e) p = (err e, record p { connection = rollback p.connection })
run_once settings now name (ok (deposits, finalized)) p =
    let (credited, c) = ingest_each settings deposits p.connection in
    (ok credited, record { connection = commit c; rows = move_cursor now name finalized p.rows })

-- `run_once` of the BTC and LTC watcher
unfoldable pub run_once_utxo :
    Settings → Result (List ChainDeposit) → Connection → Result ℕ × Connection
unfolding ingest_all
run_once_utxo settings (err e) c = (err e, rollback c)
run_once_utxo settings (ok deposits) c =
    let (r, c') = ingest_all settings deposits c in
    elim r [ err e ↦ (err e, rollback c') | ok n ↦ (ok n, commit c') ]

-- One turn of the loop of `main`: the status of the cycle is written whatever `run_once` does.
unfoldable pub report_cycle : Outside → Text → Result ℕ → Rows → Rows
unfolding upsert_watcher_status
report_cycle o name (ok credited) rows =
    upsert_watcher_status (o.sanitize_runtime_error 220) o.now name true none (some (codes "ok"))
      rows
report_cycle o name (err e) rows =
    upsert_watcher_status (o.sanitize_runtime_error 220) o.now name false
      (some (o.sanitize_runtime_error 220 (o.str_exception e))) (some (codes "transient_failure"))
      rows

unfoldable pub cycle :
    Outside → Settings → Text → Result (List ChainDeposit × Option ℕ) → Polled → Polled
unfolding run_once report_cycle
cycle o settings name fetched p =
    let (r, p') = run_once settings o.now name fetched p in
    record p' { rows = report_cycle o name r p'.rows }

abbrev lower_key : (Text → Text) → Text × ℕ → Text × ℕ
lower_key lower (address, user_id) = (lower address, user_id)

-- `_address_map` of run_eth_watcher.py
unfoldable pub address_map : Outside → Db → Result (List (Text × ℕ))
address_map o db = monitored_deposit_address_map o o.vault (eth ∷ usdt ∷ []) db >>= λ pairs.
    ok (map (lower_key o.libraries.lower) pairs)

abbrev pub with_users : List (Text × ℕ) → EthConfig → EthConfig
with_users users cfg = record cfg { address_user_map = users }

-- What a cycle of the ETH watcher fetches: the map of addresses is made anew for each cycle, and what
-- it raises ends the cycle.
unfoldable pub fetch :
    Outside → EthConfig → EthNode → Polled → Result (List ChainDeposit × Option ℕ)
unfolding address_map
fetch o cfg node p = address_map o p.connection.working >>= λ users.
    fetch_deposits (with_users users cfg) node [] (read_watcher_cursor (codes "eth_watcher") p.rows)
