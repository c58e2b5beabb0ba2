-- ===== src/Watcher/Health.antt =====
-- What the rows of the watchers keep.
use escrow_hub.Common.{
  ℕ, ◌≡◌, refl, ap, ◌∙◌, Bool, Bool-cases, Option, none, some, List, [], ◌∷◌, inl, inr,
}
use escrow_hub.Text.{Text, text_eq, text_eq_refl}
use escrow_hub.Watcher.{
  Rows, WatcherRow, find_row, put_row, moved_row, reported_row, upsert_watcher_status,
  write_watcher_cursor, read_watcher_cursor, cursor_of,
}

find-put_same :
    (name : Text) (r : WatcherRow) (rows : Rows) → find_row name (put_row name r rows) ≡ some r
unfolding find_row put_row
find-put_same name r [] = rw (text_eq_refl name) refl
find-put_same name r ((n, old) ∷ rows) = elim (Bool-cases (text_eq n name)) [
  | inl e ↦ rw (e) (rw e refl)
  | inr e ↦ rw (e) (rw e (find-put_same name r rows))
]

-- A report, with what `upsert_watcher_status` is given.
pub record Report : Type 0 where
  pub at : ℕ
  pub success : Bool
  pub error : Option Text
  pub health : Option Text

unfoldable pub apply_reports : (Text → Text) → Text → List Report → Rows → Rows
apply_reports sanitize name [] rows = rows
apply_reports sanitize name (r ∷ rs) rows =
    apply_reports sanitize name rs
      (upsert_watcher_status sanitize r.at name r.success r.error r.health rows)

pub report-cursor :
    (sanitize : Text → Text) (name : Text) (r : Report) (rows : Rows)
    → read_watcher_cursor name
        (upsert_watcher_status sanitize r.at name r.success r.error r.health rows)
      ≡ read_watcher_cursor name rows
unfolding read_watcher_cursor upsert_watcher_status
report-cursor sanitize name r rows =
    ap cursor_of (
      find-put_same name
        (reported_row sanitize r.at r.success r.error r.health (find_row name rows)) rows)
    ∙ by_row (find_row name rows)
  where
    by_row :
        (o : Option WatcherRow)
        → (reported_row sanitize r.at r.success r.error r.health o).cursor ≡ cursor_of o
    by_row none = refl
    by_row (some old) = refl

reports-cursor :
    (sanitize : Text → Text) (name : Text) (rs : List Report) (rows : Rows)
    → read_watcher_cursor name (apply_reports sanitize name rs rows) ≡ read_watcher_cursor name rows
unfolding apply_reports
reports-cursor sanitize name [] rows = refl
reports-cursor sanitize name (r ∷ rs) rows =
    reports-cursor sanitize name rs
      (upsert_watcher_status sanitize r.at name r.success r.error r.health rows)
    ∙ report-cursor sanitize name r rows

pub written-cursor :
    (now : ℕ) (name : Text) (cursor : ℕ) (rows : Rows)
    → read_watcher_cursor name (write_watcher_cursor now name cursor rows) ≡ some cursor
unfolding read_watcher_cursor write_watcher_cursor
written-cursor now name cursor rows =
    ap cursor_of (find-put_same name (moved_row now cursor (find_row name rows)) rows)
    ∙ by_row (find_row name rows)
  where
    by_row : (o : Option WatcherRow) → (moved_row now cursor o).cursor ≡ some cursor
    by_row none = refl
    by_row (some r) = refl

-- A cursor that a watcher writes is the one that it reads again, whatever successes and
-- failures are reported of the watcher in between.
pub cursor_kept :
    (sanitize : Text → Text) (now : ℕ) (name : Text) (cursor : ℕ) (rs : List Report) (rows : Rows)
    → read_watcher_cursor name
        (apply_reports sanitize name rs (write_watcher_cursor now name cursor rows))
      ≡ some cursor
cursor_kept sanitize now name cursor rs rows =
    reports-cursor sanitize name rs (write_watcher_cursor now name cursor rows)
    ∙ written-cursor now name cursor rows
