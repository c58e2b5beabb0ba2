-- ===== src/Escrow/Exits.antt =====
-- Every escrow whose funds are held has a way out: calls that return and let the funds go.
use escrow_hub.Common.{ℕ, ◌≡◌, refl, ap, ◌∙◌, true, some, List, [], ◌∷◌}
use escrow_hub.Decimal.{zero_amount}
use escrow_hub.Settings.{Settings}
use escrow_hub.Price.{Quotes}
use escrow_hub.Table.{find}
use escrow_hub.Db.{
  LedgerEntry, LockStatus, Lock, EscrowRow, EscrowStatus, pending, active, completed, cancelled,
  disputed, locked, released, refund_buyer,
}
use escrow_hub.Db.Transaction.{Connection, IsSettled}
use escrow_hub.Escrow.{with_status}
use escrow_hub.Escrow.Service.{mem_id}
use escrow_hub.Escrow.Linked.{held_status, has_lock}
use escrow_hub.Asset.{Asset}
use escrow_hub.Decimal.{units}
use escrow_hub.Ledger.{of_user}
use escrow_hub.Ledger.Sums.{Book, book, total_units, entry_amount}
use escrow_hub.Escrow.Book.{pay}
use escrow_hub.Escrow.Life.{IsSound}
use escrow_hub.Escrow.History.{
  Request, disputes, resolves, cancels, serve, run, serve-Serves, run-Runs,
}
use escrow_hub.Escrow.Returns.{
  after_cancels, after_disputes, after_refund, cancels-book, after_disputes_funds, resolves-book,
}

-- The calls that let the funds of an escrow go.
abbrev pub way_out : ℕ → ℕ → EscrowRow → EscrowStatus → List Request
way_out moderator id row pending = cancels id row.buyer_id ∷ []
way_out moderator id row active =
    disputes id row.buyer_id [] ∷ resolves id moderator refund_buyer zero_amount ∷ []
way_out moderator id row disputed = resolves id moderator refund_buyer zero_amount ∷ []
way_out moderator id row completed = []
way_out moderator id row cancelled = []

-- What its status then is.
abbrev pub outcome : EscrowStatus → EscrowStatus
outcome pending = cancelled
outcome active = completed
outcome disputed = completed
outcome completed = completed
outcome cancelled = cancelled

reached :
    (s : Settings) (q : Quotes) (id moderator : ℕ) (c : Connection) {row : EscrowRow}
    (status : EscrowStatus)
    → find id c.working.escrows ≡ some row
    → IsSettled c
    → IsSound c.working
    → mem_id moderator s.moderator_ids ≡ true
    → row.status ≡ status
    → find id (run s q (way_out moderator id row status) c).working.escrows
      ≡ some (with_status (outcome status) row)
unfolding run
reached s q id moderator c pending found n v known st = after_cancels s q id c found v st
reached s q id moderator c {row} active found n v known st =
    let middle = serve s q (disputes id row.buyer_id []) c in
    let kept = serve-Serves s q (disputes id row.buyer_id []) c n v in
    after_refund s q id middle (after_disputes s q id c found st) moderator known kept.steps.sound
      refl
reached s q id moderator c disputed found n v known st =
    after_refund s q id c found moderator known v st
reached s q id moderator c {row} completed found n v known st =
    found ∙ ap (λ x. some (with_status x row)) st
reached s q id moderator c {row} cancelled found n v known st =
    found ∙ ap (λ x. some (with_status x row)) st

-- What the book is once funds that were held under the lock have gone back to its user.
abbrev pub funds_back : ℕ → Lock → LockStatus → Book → Book
funds_back n l locked b = pay l.user_id l.asset (units n l.amount) b
funds_back n l released b = b

paid_back :
    (s : Settings) (q : Quotes) (id moderator n : ℕ) (u : ℕ) (a : Asset) (c : Connection)
    {row : EscrowRow} {l : Lock} (status : EscrowStatus)
    → find id c.working.escrows ≡ some row
    → find id c.working.escrow_locks ≡ some l
    → IsSettled c
    → IsSound c.working
    → mem_id moderator s.moderator_ids ≡ true
    → row.status ≡ status
    → book n (run s q (way_out moderator id row status) c).working u a
      ≡ funds_back n l (held_status status) (book n c.working) u a
unfolding run
paid_back s q id moderator n u a c pending found locked_as settled v known st =
    cancels-book s q id c found n u a v st locked_as
paid_back s q id moderator n u a c {row} {l} active found locked_as settled v known st =
    let middle = serve s q (disputes id row.buyer_id []) c in
    let kept = serve-Serves s q (disputes id row.buyer_id []) c settled v in
    let (locks, ledger) = after_disputes_funds s q id c found st in
    resolves-book s q id middle (after_disputes s q id c found st) n u a moderator known
      kept.steps.sound refl (ap (find id) locks ∙ locked_as)
    ∙ ap
        (λ (es : List LedgerEntry).
          pay l.user_id l.asset (units n l.amount)
            (λ v b. total_units n (of_user v b) entry_amount es) u a)
        ledger
paid_back s q id moderator n u a c disputed found locked_as settled v known st =
    resolves-book s q id c found n u a moderator known v st locked_as
paid_back s q id moderator n u a c completed found locked_as settled v known st = refl
paid_back s q id moderator n u a c cancelled found locked_as settled v known st = refl

outcome_final : (status : EscrowStatus) → held_status (outcome status) ≡ released
outcome_final pending = refl
outcome_final active = refl
outcome_final disputed = refl
outcome_final completed = refl
outcome_final cancelled = refl

-- On a settled connection whose locks are in step with its escrows, funds that are held always
-- have a way out: a pending escrow is cancelled by its buyer's call, a disputed one is
-- refunded by any moderator's, and an active one by its buyer's dispute and that refund. After
-- these calls the escrow is cancelled or completed, its lock is released, the user that funds
-- were held for has the locked amount back, and no other balance of any user has changed.
pub run-way_out :
    (s : Settings) (q : Quotes) (id moderator n : ℕ) (c : Connection) (row : EscrowRow) (l : Lock)
    → IsSettled c
    → IsSound c.working
    → mem_id moderator s.moderator_ids ≡ true
    → find id c.working.escrows ≡ some row
    → find id c.working.escrow_locks ≡ some l
    → let after = (run s q (way_out moderator id row row.status) c).working in
      (find id after.escrows ≡ some (with_status (outcome row.status) row))
      × (held_status (outcome row.status) ≡ released)
      × ((k : Lock) × (find id after.escrow_locks ≡ some k) × (k.status ≡ released))
      × ((u : ℕ) (a : Asset)
          → book n after u a ≡ funds_back n l (held_status row.status) (book n c.working) u a)
run-way_out s q id moderator n c row l settled v known found locked_as =
    let end = reached s q id moderator c row.status found settled v known refl in
    let after = run-Runs s q (way_out moderator id row row.status) c settled v in
    let (lock, lock_found, _, _, kept) = has_lock after.sound id end in
    (
      end,
      outcome_final row.status,
      (lock, lock_found, kept ∙ outcome_final row.status),
      λ u a. paid_back s q id moderator n u a c row.status found locked_as settled v known refl,
    )
