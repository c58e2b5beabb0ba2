-- ===== src/Chain/Watched.antt =====
-- The cycles of the ETH watcher: what the wallet is given, and where the cursor stands.
use escrow_hub.Common.{
  ℕ, ◌≤◌, ◌≡◌, refl, ◌∙◌, Bool, true, false, Option, none, some, List, [], ◌∷◌, ◌++◌, if◌then◌else◌,
  arith,
}
use escrow_hub.Text.{Text, codes}
use escrow_hub.Outcome.{Error, Result, ok, err, ok-injective, ◌>>=◌, ◌>>◌}
use escrow_hub.Outcome
use escrow_hub.Outside.{Outside}
use escrow_hub.Settings.{Settings}
use escrow_hub.Watcher.{Rows, read_watcher_cursor, write_watcher_cursor}
use escrow_hub.Watcher.Health.{report-cursor, written-cursor}
use escrow_hub.Chain.Scan.{ChainDeposit, load_cursor}
use escrow_hub.Chain.Eth.{EthConfig, EthNode, block_deposits}
use escrow_hub.Db.Transaction.{Connection, commit, rollback}
use escrow_hub.Chain.Watch.{
  fetch, with_users, address_map, ingest_each, Polled, run_once, report_cycle, cycle, move_cursor,
}
use escrow_hub.Chain.Includes.{Includes}

-- A cycle of the watcher: when it runs, and what the node answers.
pub record Turn : Type 0 where
  pub outside : Outside
  pub node : EthNode

abbrev pub fetched : EthConfig → Turn → Polled → Result (List ChainDeposit × Option ℕ)
fetched cfg turn p = fetch turn.outside cfg turn.node p

abbrev pub after_cycle : Settings → EthConfig → Turn → Polled → Polled
after_cycle settings cfg turn p =
    cycle turn.outside settings (codes "eth_watcher") (fetched cfg turn p) p

-- The cycles of the watcher's loop.
unfoldable pub watch : Settings → EthConfig → List Turn → Polled → Polled
watch settings cfg [] p = p
watch settings cfg (turn ∷ turns) p = watch settings cfg turns (after_cycle settings cfg turn p)

abbrev pub deposits_of : Result (List ChainDeposit × Option ℕ) → List ChainDeposit
deposits_of (err e) = []
deposits_of (ok (deposits, cursor)) = deposits

-- What each cycle fetches.
unfoldable pub fetches :
    Settings → EthConfig → List Turn → Polled → List (Result (List ChainDeposit × Option ℕ))
fetches settings cfg [] p = []
fetches settings cfg (turn ∷ turns) p =
    fetched cfg turn p ∷ fetches settings cfg turns (after_cycle settings cfg turn p)

-- The deposits in what was fetched.
abbrev pub all_deposits : List (Result (List ChainDeposit × Option ℕ)) → List ChainDeposit
all_deposits [] = []
all_deposits (r ∷ rs) = deposits_of r ++ all_deposits rs

-- The wallet's connection once it is given all of what was fetched, cycle by cycle.
abbrev pub credited_all :
    Settings → List (Result (List ChainDeposit × Option ℕ)) → Connection → Connection
credited_all settings [] c = c
credited_all settings (err e ∷ rs) c = credited_all settings rs (rollback c)
credited_all settings (ok (deposits, cursor) ∷ rs) c =
    credited_all settings rs (commit (ingest_each settings deposits c).1)

abbrev pub cursor_after : Result (List ChainDeposit × Option ℕ) → Option ℕ → Option ℕ
cursor_after (err e) stored = stored
cursor_after (ok (deposits, none)) stored = stored
cursor_after (ok (deposits, some cursor)) stored = some cursor

reported-cursor :
    (o : Outside) (name : Text) (r : Result ℕ) (rows : Rows)
    → read_watcher_cursor name (report_cycle o name r rows) ≡ read_watcher_cursor name rows
unfolding report_cycle
reported-cursor o name (ok n) rows =
    report-cursor (o.sanitize_runtime_error 220) name
      (record { at = o.now; success = true; error = none; health = some (codes "ok") }) rows
reported-cursor o name (err e) rows =
    report-cursor (o.sanitize_runtime_error 220) name
      (record {
        at = o.now;
        success = false;
        error = some (o.sanitize_runtime_error 220 (o.str_exception e));
        health = some (codes "transient_failure");
      })
      rows

pub cycle-cursor :
    (o : Outside) (settings : Settings) (name : Text)
    (fetched : Result (List ChainDeposit × Option ℕ)) (p : Polled)
    → read_watcher_cursor name (cycle o settings name fetched p).rows
      ≡ cursor_after fetched (read_watcher_cursor name p.rows)
unfolding cycle run_once move_cursor
cycle-cursor o settings name (err e) p = reported-cursor o name (err e) p.rows
cycle-cursor o settings name (ok (deposits, none)) p =
    reported-cursor o name (run_once settings o.now name (ok (deposits, none)) p).0 p.rows
cycle-cursor o settings name (ok (deposits, some cursor)) p =
    reported-cursor o name (run_once settings o.now name (ok (deposits, some cursor)) p).0
      (write_watcher_cursor o.now name cursor p.rows)
    ∙ written-cursor o.now name cursor p.rows

pub if_false {ℓ} :
    {A : Type ℓ} {test : Bool} (x : A) {y : A} → test ≡ false → (if test then x else y) ≡ y
if_false {test = true} x h = absurd (ground (arith, h))
if_false {test = false} x h = refl

pub start_le : (floor : ℕ) (stored : Option ℕ) → floor ≤ load_cursor floor stored
unfolding load_cursor
start_le floor none = omega arith
start_le floor (some c) = omega arith

-- Every answer about the block that a node gives, read with the addresses of its cycle, holds the
-- same deposits.
abbrev pub Agrees : Settings → EthConfig → ℕ → List ChainDeposit → List Turn → Polled → Type 0
Agrees settings cfg b deposits [] p = Unit {0}
Agrees settings cfg b deposits (turn ∷ turns) p =
    ((users : List (Text × ℕ)) (found : List ChainDeposit)
      → address_map turn.outside p.connection.working ≡ ok users
      → block_deposits (with_users users cfg) turn.node b ≡ ok found
      → found ≡ deposits)
    × Agrees settings cfg b deposits turns (after_cycle settings cfg turn p)
