-- ===== src/Escrow/Returns.antt =====
-- escrow_service.py: the calls that return on an escrow whose funds are held (a cancellation, a
-- dispute, a refund), and what they leave in its row and in the book.
use escrow_hub.Common.{Option, subst, ℕ, ◌≡◌, refl, ap, ◌∙◌, true, some, List, [], arith, ==_refl}
use escrow_hub.Text.{Text}
use escrow_hub.Decimal.{Decimal, zero_amount}
use escrow_hub.Settings.{Settings}
use escrow_hub.Price.{Quotes}
use escrow_hub.Outcome.{ok}
use escrow_hub.Table.{Table, find, update, find-update}
use escrow_hub.Db.{
  Db, LedgerEntry, Lock, EscrowRow, EscrowStatus, pending, active, completed, cancelled, disputed,
  locked, refund_buyer,
}
use escrow_hub.Db.Transaction.{Connection, transaction-returns}
use escrow_hub.Wallet.Locks.{cancel_escrow_lock}
use escrow_hub.Wallet.Locks.Effects.{Held, after_cancel}
use escrow_hub.Escrow.{with_status}
use escrow_hub.Escrow.Rows.{is_participant}
use escrow_hub.Escrow.Settle.{cancel_body}
use escrow_hub.Escrow.Dispute.{dispute_body, resolve_body, settle_dispute}
use escrow_hub.Escrow.Service.{cancel_escrow, dispute, mem_id}
use escrow_hub.Escrow.Linked.{held_status, has_lock}
use escrow_hub.Asset.{Asset}
use escrow_hub.Decimal.{units}
use escrow_hub.Ledger.Sums.{book}
use escrow_hub.Escrow.Book.{pay, refunded-book}
use escrow_hub.Escrow.Effects.{Settles, refund, dispute_body-ok, cancel_body-ok}
use escrow_hub.Escrow.Payout.{Ends, to_buyer, resolve_body-ok}
use escrow_hub.Escrow.Life.{IsSound}
use escrow_hub.Escrow.History.{disputes, resolves, cancels, serve, resolve_allowed}

pub found_same : {o : Option Lock} {a b : Lock} → o ≡ some a → o ≡ some b → a ≡ b
found_same p q = cc

-- A dispute that ends for the buyer books the refund.
refund_paid :
    {settings : Settings} {id : ℕ} {row : EscrowRow} {percent : Decimal} {db : Db} {l : Lock}
    {paid : List LedgerEntry}
    → Ends settings id row percent db refund_buyer l paid
    → paid ≡ refund id l
refund_paid to_buyer = refl

pub cancel_escrow_lock_lem :
    (escrow_id : ℕ) (db : Db) {l : Lock}
    → Held escrow_id db l
    → cancel_escrow_lock escrow_id db ≡ (ok tt, after_cancel escrow_id l db)
unfolding cancel_escrow_lock
cancel_escrow_lock_lem escrow_id db held = ground arith

module _ (escrow_id : ℕ) (db : Db) {row : EscrowRow}
    (found : find escrow_id db.escrows ≡ some row) where
  pub its_hold : IsSound db → held_status row.status ≡ locked → (l : Lock) × Held escrow_id db l
  its_hold v held =
      let (l, lock_found, _, _, kept) = has_lock v escrow_id found in (l, (lock_found, kept ∙ held))

  pub cancel_returns :
      (actor : ℕ)
      → IsSound db
      → row.status ≡ pending
      → is_participant actor row ≡ true
      → (cancel_body escrow_id actor db).0 ≡ ok tt
  unfolding cancel_body
  cancel_returns actor v st party =
      let (l, held) = its_hold v (ap held_status st) in
      let done = cancel_escrow_lock_lem escrow_id db held in ground arith

  dispute_returns :
      (actor : ℕ) (reason : Text)
      → row.status ≡ active
      → is_participant actor row ≡ true
      → (dispute_body escrow_id actor reason db).0 ≡ ok tt
  unfolding dispute_body
  dispute_returns actor reason st party = ground arith

  refund_returns :
      (settings : Settings) (admin : ℕ) (percent : Decimal)
      → IsSound db
      → row.status ≡ disputed
      → (resolve_body settings escrow_id admin refund_buyer percent db).0 ≡ ok tt
  unfolding resolve_body settle_dispute
  refund_returns settings admin percent v st =
      let (l, held) = its_hold v (ap held_status st) in
      let done = cancel_escrow_lock_lem escrow_id db held in ground arith

moved_row :
    (escrow_id : ℕ) (s : EscrowStatus) {row : EscrowRow} (before : Table EscrowRow)
    {after : Table EscrowRow}
    → find escrow_id before ≡ some row
    → after ≡ update escrow_id (with_status s) before
    → find escrow_id after ≡ some (with_status s row)
moved_row escrow_id s before found moved =
    rw (moved, find-update escrow_id escrow_id (with_status s) before, ==_refl escrow_id, found)
      refl

pub buyer-participant : (row : EscrowRow) → is_participant row.buyer_id row ≡ true
buyer-participant row = rw (==_refl row.buyer_id) refl

module _ (s : Settings) (q : Quotes) (id : ℕ) (c : Connection) {row : EscrowRow}
    (found : find id c.working.escrows ≡ some row) where
  pub after_cancels :
      IsSound c.working
      → row.status ≡ pending
      → find id (serve s q (cancels id row.buyer_id) c).working.escrows
        ≡ some (with_status cancelled row)
  unfolding serve cancel_escrow
  after_cancels v st =
      let done = cancel_returns id c.working found row.buyer_id v st (buyer-participant row) in
      let (_, _, d, _, _) = cancel_body-ok id row.buyer_id c.working done in
      moved_row id cancelled c.working.escrows found (
        ap (λ db. db.escrows) (transaction-returns (cancel_body id row.buyer_id) c done)
        ∙ d.escrows)

  pub after_disputes :
      row.status ≡ active
      → find id (serve s q (disputes id row.buyer_id []) c).working.escrows
        ≡ some (with_status disputed row)
  unfolding serve dispute
  after_disputes st =
      let done = dispute_returns id c.working found row.buyer_id [] st (buyer-participant row) in
      let (_, d, _, _) = dispute_body-ok id row.buyer_id [] c.working done in
      moved_row id disputed c.working.escrows found (
        ap (λ db. db.escrows) (transaction-returns (dispute_body id row.buyer_id []) c done)
        ∙ d.escrows)

  pub after_refund :
      (moderator : ℕ)
      → mem_id moderator s.moderator_ids ≡ true
      → IsSound c.working
      → row.status ≡ disputed
      → find id (serve s q (resolves id moderator refund_buyer zero_amount) c).working.escrows
        ≡ some (with_status completed row)
  unfolding serve
  after_refund moderator known v st =
      let done = refund_returns id c.working found s moderator zero_amount v st in
      let (_, _, _, d, _, _) =
        resolve_body-ok s id moderator refund_buyer zero_amount c.working done in
      rw (resolve_allowed s id moderator refund_buyer zero_amount c known) (
        moved_row id completed c.working.escrows found (
          ap (λ db. db.escrows)
            (transaction-returns (resolve_body s id moderator refund_buyer zero_amount) c done)
          ∙ d.escrows))

  -- The lock's user gets back what was locked.
  pub cancels-book :
      (n : ℕ) (u : ℕ) (a : Asset) {l : Lock}
      → IsSound c.working
      → row.status ≡ pending
      → find id c.working.escrow_locks ≡ some l
      → book n (serve s q (cancels id row.buyer_id) c).working u a
        ≡ pay l.user_id l.asset (units n l.amount) (book n c.working) u a
  unfolding serve cancel_escrow
  cancels-book n u a {l} v st locked_as =
      let done = cancel_returns id c.working found row.buyer_id v st (buyer-participant row) in
      let (_, k, d, _, _) = cancel_body-ok id row.buyer_id c.working done in
      ap (λ db. book n db u a) (transaction-returns (cancel_body id row.buyer_id) c done)
      ∙ refunded-book n u a d
      ∙ ap (λ m. pay m.user_id m.asset (units n m.amount) (book n c.working) u a)
          (found_same d.lock_found locked_as)

  -- A dispute moves no funds.
  pub after_disputes_funds :
      row.status ≡ active
      → ((serve s q (disputes id row.buyer_id []) c).working.escrow_locks ≡ c.working.escrow_locks)
        × ((serve s q (disputes id row.buyer_id []) c).working.ledger_entries
            ≡ c.working.ledger_entries)
  unfolding serve dispute
  after_disputes_funds st =
      let done = dispute_returns id c.working found row.buyer_id [] st (buyer-participant row) in
      let (_, d, _, _) = dispute_body-ok id row.buyer_id [] c.working done in
      let same = transaction-returns (dispute_body id row.buyer_id []) c done in
      (ap (λ db. db.escrow_locks) same ∙ d.locks, ap (λ db. db.ledger_entries) same ∙ d.ledger)

  pub resolves-book :
      (n : ℕ) (u : ℕ) (a : Asset) (moderator : ℕ) {l : Lock}
      → mem_id moderator s.moderator_ids ≡ true
      → IsSound c.working
      → row.status ≡ disputed
      → find id c.working.escrow_locks ≡ some l
      → book n (serve s q (resolves id moderator refund_buyer zero_amount) c).working u a
        ≡ pay l.user_id l.asset (units n l.amount) (book n c.working) u a
  unfolding serve
  resolves-book n u a moderator {l} known v st locked_as =
      let done = refund_returns id c.working found s moderator zero_amount v st in
      let (ended, k, paid, d, _, ends) =
        resolve_body-ok s id moderator refund_buyer zero_amount c.working done in
      rw (resolve_allowed s id moderator refund_buyer zero_amount c known) (
        ap (λ db. book n db u a)
          (transaction-returns (resolve_body s id moderator refund_buyer zero_amount) c done)
        ∙ refunded-book n u a (
            subst
              (λ (es : List LedgerEntry).
                Settles id ended k completed es c.working
                  (resolve_body s id moderator refund_buyer zero_amount c.working).1)
              (refund_paid ends) d)
        ∙ ap (λ m. pay m.user_id m.asset (units n m.amount) (book n c.working) u a)
            (found_same d.lock_found locked_as))
