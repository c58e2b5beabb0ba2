-- ===== src/Watcher.antt =====
-- watcher_status_service.py: the health rows of the watchers, and the operator's view of them.
pub mod Health
use escrow_hub.Common.{
  ℕ, suc, Bool, true, false, not, ◌&&◌, ◌||◌, Option, none, some, List, [], ◌∷◌, ◌++◌,
  if◌then◌else◌,
}
use escrow_hub.Text.{Text, codes, is_empty, text_eq, strip, lower, starts_with}
use escrow_hub.Tenant.{is_some}
use escrow_hub.Provider.Store.{mem_text, text_or}

abbrev pub valid_health : List Text
valid_health =
    codes "ok"
    ∷ codes "degraded"
    ∷ codes "fatal_startup_blocked"
    ∷ codes "transient_failure"
    ∷ codes "disabled"
    ∷ []

-- (blocked, disabled, degraded)
unfoldable pub classify_watcher_health_state : Option Text → Bool × Bool × Bool
classify_watcher_health_state raw_health =
    let health = lower (strip (text_or [] raw_health)) in
    (
      text_eq health (codes "fatal_startup_blocked"),
      text_eq health (codes "disabled"),
      text_eq health (codes "degraded") || text_eq health (codes "transient_failure"),
    )

pub data OperatorHealth : Type 0 where
  blocked disabled ready degraded : OperatorHealth

unfoldable pub map_operator_health_state : Bool → Bool → Bool → Bool → OperatorHealth
map_operator_health_state is_ready is_blocked is_disabled is_degraded =
    if is_blocked
    then blocked
    else if is_disabled
    then disabled
    else if is_ready && not is_degraded
    then ready
    else degraded

-- `marker in text`
unfoldable pub has_part : Text → Text → Bool
has_part marker [] = is_empty marker
has_part marker (c ∷ s) = starts_with marker (c ∷ s) || has_part marker s

unfoldable pub has_any : List Text → Text → Bool
unfolding has_part
has_any [] text = false
has_any (m ∷ ms) text = has_part m text || has_any ms text

abbrev pub http_startup_markers : List Text
http_startup_markers =
    codes "address_provider_url is missing"
    ∷ codes "address_provider_token is required"
    ∷ codes "must use https://"
    ∷ codes "production deposit issuance unavailable"
    ∷ []

abbrev pub http_reason_markers : List Text
http_reason_markers =
    codes "address_provider_url is missing"
    ∷ codes "address_provider_token"
    ∷ codes "must use https://"
    ∷ []

abbrev pub local_markers : List Text
local_markers =
    codes "hd_wallet_seed_hex is missing"
    ∷ codes "hd_wallet_seed_hex must be valid hex"
    ∷ codes "hd_wallet_seed_hex is too short"
    ∷ codes "encryption_key is required"
    ∷ []

abbrev pub local_kinds : List Text
local_kinds = codes "local_hd" ∷ codes "local" ∷ codes "seed" ∷ codes "auto" ∷ codes "default" ∷ []

-- `startup_error and any(…)`
unfoldable pub http_blocked : Bool → Option Text → Option Text → Bool
unfolding has_any
http_blocked provider_ready startup_error provider_reason =
    has_any http_startup_markers (lower (text_or [] startup_error))
    || (not provider_ready && has_any http_reason_markers (lower (text_or [] provider_reason)))

unfoldable pub local_blocked : Bool → Option Text → Option Text → Bool
unfolding has_any
local_blocked provider_ready startup_error provider_reason =
    not provider_ready
    && has_any local_markers (lower (text_or (text_or [] provider_reason) startup_error))

abbrev pub health_of : Bool → Bool → OperatorHealth
health_of is_ready is_blocked =
    map_operator_health_state is_ready is_blocked false (not is_blocked && not is_ready)

-- The state and the reason; `sanitize` is `sanitize_runtime_error`.
unfoldable pub normalize_deposit_provider_state :
    (Text → Text) → Bool → Bool → Text → Option Text → Option Text → OperatorHealth × Text
unfolding http_blocked local_blocked map_operator_health_state
normalize_deposit_provider_state sanitize provider_ready issuance_ready provider_kind startup_error
      provider_reason =
    let kind = lower (strip provider_kind) in
    let reason = sanitize (text_or (text_or (codes "ok") provider_reason) startup_error) in
    if is_empty kind || text_eq kind (codes "disabled")
    then (
      map_operator_health_state false false true false,
      codes "ADDRESS_PROVIDER disabled by configuration",
    )
    else if text_eq kind (codes "http")
    then (
      health_of (provider_ready && issuance_ready)
          (http_blocked provider_ready startup_error provider_reason),
      reason,
    )
    else if mem_text kind local_kinds
    then (
      health_of (provider_ready && issuance_ready)
          (local_blocked provider_ready startup_error provider_reason),
      reason,
    )
    else (
      map_operator_health_state false false true false,
      codes "unsupported ADDRESS_PROVIDER mode: " ++ kind,
    )

pub record WatcherRow : Type 0 where
  pub last_run_at : Option ℕ
  pub last_success_at : Option ℕ
  pub last_error : Option Text
  pub consecutive_failures : ℕ
  pub updated_at : Option ℕ
  pub cursor : Option ℕ
  pub health_state : Text

abbrev pub Rows : Type 0
Rows = List (Text × WatcherRow)

unfoldable pub find_row : Text → Rows → Option WatcherRow
find_row name [] = none
find_row name ((n, r) ∷ rows) = if text_eq n name then some r else find_row name rows

-- The row with its new value: an UPDATE of the row that is there, or an INSERT.
unfoldable pub put_row : Text → WatcherRow → Rows → Rows
put_row name r [] = (name, r) ∷ []
put_row name r ((n, old) ∷ rows) =
    if text_eq n name then (n, r) ∷ rows else (n, old) ∷ put_row name r rows

abbrev pub reported_health : Bool → Option Text → Text
reported_health true health = codes "ok"
reported_health false none = codes "transient_failure"
reported_health false (some h) = if mem_text h valid_health then h else codes "transient_failure"

abbrev pub last_success : Bool → ℕ → Option ℕ → Option ℕ
last_success true now before = some now
last_success false now before = before

abbrev pub failures_after : Bool → ℕ → ℕ
failures_after true before = 0
failures_after false before = suc before

abbrev pub reported_row :
    (Text → Text) → ℕ → Bool → Option Text → Option Text → Option WatcherRow → WatcherRow
reported_row sanitize now success error health row = record {
  last_run_at = some now;
  last_success_at =
      last_success success now (elim row [ none ↦ none | some r ↦ r.last_success_at ]);
  last_error = if success then none else some (sanitize (text_or [] error));
  consecutive_failures =
      failures_after success (elim row [ none ↦ 0 | some r ↦ r.consecutive_failures ]);
  updated_at = some now;
  cursor = elim row [ none ↦ none | some r ↦ r.cursor ];
  health_state = reported_health success health;
}

unfoldable pub upsert_watcher_status :
    (Text → Text) → ℕ → Text → Bool → Option Text → Option Text → Rows → Rows
unfolding mem_text put_row
upsert_watcher_status sanitize now watcher_name success error health rows =
    put_row watcher_name
      (reported_row sanitize now success error health (find_row watcher_name rows)) rows

abbrev pub absent_row : WatcherRow
absent_row = record {
  last_run_at = none;
  last_success_at = none;
  last_error = none;
  consecutive_failures = 0;
  updated_at = none;
  cursor = none;
  health_state = codes "disabled";
}

-- One entry of `read_watcher_status`.
unfoldable pub read_watcher_row : Text → Rows → WatcherRow
read_watcher_row name rows = elim (find_row name rows) [ none ↦ absent_row | some r ↦ r ]

unfoldable pub read_watcher_status : List Text → Rows → Rows
unfolding read_watcher_row
read_watcher_status [] rows = []
read_watcher_status (n ∷ ns) rows = (n, read_watcher_row n rows) ∷ read_watcher_status ns rows

abbrev pub cursor_of : Option WatcherRow → Option ℕ
cursor_of none = none
cursor_of (some r) = r.cursor

unfoldable pub read_watcher_cursor : Text → Rows → Option ℕ
read_watcher_cursor name rows = cursor_of (find_row name rows)

abbrev pub moved_row : ℕ → ℕ → Option WatcherRow → WatcherRow
moved_row now cursor none = record absent_row {
  updated_at = some now;
  cursor = some cursor;
  health_state = codes "ok";
}
moved_row now cursor (some r) = record r { cursor = some cursor; updated_at = some now }

unfoldable pub write_watcher_cursor : ℕ → Text → ℕ → Rows → Rows
unfolding put_row
write_watcher_cursor now watcher_name cursor rows =
    put_row watcher_name (moved_row now cursor (find_row watcher_name rows)) rows
