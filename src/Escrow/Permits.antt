-- ===== src/Escrow/Permits.antt =====
-- escrow_service.py: the guards of each method, who may call it and in which status.
use escrow_hub.Common.{ℕ, ◌≡◌, refl, ap, ◌∙◌, Bool, true, false, not, ◌&&◌, ◌||◌, some, arith, ◌==◌}
use escrow_hub.Text.{Text}
use escrow_hub.Decimal.{Decimal}
use escrow_hub.Settings.{Settings}
use escrow_hub.Outcome.{Result, ok, err}
use escrow_hub.Table.{find}
use escrow_hub.Db.{Db, EscrowRow, pending, active, completed, cancelled, disputed, refund_buyer}
use escrow_hub.Escrow.Rows.{is_participant, is_status}
use escrow_hub.Escrow.Create.{accept_body}
use escrow_hub.Escrow.Settle.{cancel_body, cancel_mutual_body, check_mutual, matches_request}
use escrow_hub.Escrow.Dispute.{dispute_body, resolve_body, settle_dispute}
use escrow_hub.Escrow.Linked.{held_status}
use escrow_hub.Escrow.Life.{IsSound}
use escrow_hub.Db.Transaction.{Connection, transaction-result}
use escrow_hub.Escrow.Service.{
  dispute, cancel_escrow, cancel_escrow_mutual, resolve_dispute, mem_id,
}
use escrow_hub.Escrow.Returns.{its_hold, cancel_escrow_lock_lem}

abbrev pub succeeds {ℓ} : {A : Type ℓ} → Result A → Bool
succeeds (ok a) = true
succeeds (err e) = false

module _ (id : ℕ) (db : Db) {row : EscrowRow} (found : find id db.escrows ≡ some row) where
  accept_permits :
      (actor : ℕ)
      → succeeds (accept_body id actor db).0
        ≡ is_status row.status pending && row.seller_id == actor
  unfolding accept_body
  accept_permits actor = ground arith

  dispute_permits :
      (actor : ℕ) (reason : Text)
      → succeeds (dispute_body id actor reason db).0
        ≡ (is_status row.status pending || is_status row.status active) && is_participant actor row
  unfolding dispute_body
  dispute_permits actor reason = ground arith

  cancel_permits :
      (actor : ℕ)
      → IsSound db
      → succeeds (cancel_body id actor db).0
        ≡ is_status row.status pending && is_participant actor row
  unfolding cancel_body
  cancel_permits actor v =
      elim row.status
          as (λ st.
            row.status ≡ st
            → succeeds (cancel_body id actor db).0
              ≡ is_status st pending && is_participant actor row) [
                | pending ↦ λ e.
                    let (l, held) = its_hold id db found v (ap held_status e) in
                    let done = cancel_escrow_lock_lem id db held in ground arith
                | active ↦ λ e. ground arith
                | disputed ↦ λ e. ground arith
                | completed ↦ λ e. ground arith
                | cancelled ↦ λ e. ground arith
              ]
        refl

  mutual_permits :
      (requester responder : ℕ)
      → IsSound db
      → succeeds (cancel_mutual_body id requester responder db).0
        ≡ is_status row.status active
          && is_participant requester row
          && is_participant responder row
          && not (requester == responder)
          && matches_request requester responder (find id db.active_cancel_requests)
  unfolding cancel_mutual_body check_mutual
  mutual_permits requester responder v =
      elim row.status
          as (λ st.
            row.status ≡ st
            → succeeds (cancel_mutual_body id requester responder db).0
              ≡ is_status st active
                && is_participant requester row
                && is_participant responder row
                && not (requester == responder)
                && matches_request requester responder (find id db.active_cancel_requests)) [
                  | active ↦ λ e.
                      let (l, held) = its_hold id db found v (ap held_status e) in
                      let done = cancel_escrow_lock_lem id db held in ground arith
                  | pending ↦ λ e. ground arith
                  | disputed ↦ λ e. ground arith
                  | completed ↦ λ e. ground arith
                  | cancelled ↦ λ e. ground arith
                ]
        refl

  refund_permits :
      (settings : Settings) (admin : ℕ) (percent : Decimal)
      → IsSound db
      → succeeds (resolve_body settings id admin refund_buyer percent db).0
        ≡ is_status row.status disputed
  unfolding resolve_body settle_dispute
  refund_permits settings admin percent v =
      elim row.status
          as (λ st.
            row.status ≡ st
            → succeeds (resolve_body settings id admin refund_buyer percent db).0
              ≡ is_status st disputed) [
                | disputed ↦ λ e.
                    let (l, held) = its_hold id db found v (ap held_status e) in
                    let done = cancel_escrow_lock_lem id db held in ground arith
                | pending ↦ λ e. ground arith
                | active ↦ λ e. ground arith
                | completed ↦ λ e. ground arith
                | cancelled ↦ λ e. ground arith
              ]
        refl

-- The check of the caller comes before the transaction.
moderator_permits :
    (s : Settings) (id actor : ℕ) (percent : Decimal) (c : Connection) {row : EscrowRow}
    → IsSound c.working
    → find id c.working.escrows ≡ some row
    → succeeds (resolve_dispute s id actor refund_buyer percent c).0
      ≡ mem_id actor s.moderator_ids && is_status row.status disputed
unfolding resolve_dispute
moderator_permits s id actor percent c {row} v found =
    let body =
      ap succeeds (transaction-result (resolve_body s id actor refund_buyer percent) c)
      ∙ refund_permits id c.working found s actor percent v in
    ground (arith, body)

-- Of an escrow that is stored, with locks in step with the escrows: the transaction of its
-- acceptance succeeds exactly if it is pending and the caller is its seller, its cancellation
-- exactly if it is pending and the caller is its buyer or seller, a dispute exactly if it is
-- pending or active and the caller is one of these, a cancellation by consent exactly if it is
-- active, both users are different parties and the first has an open request to the second,
-- and a moderator's refund exactly if it is disputed and the caller is a moderator.
pub permits :
    (s : Settings) (id actor other : ℕ) (reason : Text) (percent : Decimal) (c : Connection)
    {row : EscrowRow}
    → IsSound c.working
    → find id c.working.escrows ≡ some row
    → (succeeds (accept_body id actor c.working).0
        ≡ is_status row.status pending && row.seller_id == actor)
      × (succeeds (cancel_escrow id actor c).0
          ≡ is_status row.status pending && is_participant actor row)
      × (succeeds (dispute id actor reason c).0
          ≡ (is_status row.status pending || is_status row.status active)
            && is_participant actor row)
      × (succeeds (cancel_escrow_mutual id actor other c).0
          ≡ is_status row.status active
            && is_participant actor row
            && is_participant other row
            && not (actor == other)
            && matches_request actor other (find id c.working.active_cancel_requests))
      × (succeeds (resolve_dispute s id actor refund_buyer percent c).0
          ≡ mem_id actor s.moderator_ids && is_status row.status disputed)
unfolding cancel_escrow dispute cancel_escrow_mutual
permits s id actor other reason percent c v found = (
  accept_permits id c.working found actor,
  ap succeeds (transaction-result (cancel_body id actor) c)
      ∙ cancel_permits id c.working found actor v,
  ap succeeds (transaction-result (dispute_body id actor reason) c)
      ∙ dispute_permits id c.working found actor reason,
  ap succeeds (transaction-result (cancel_mutual_body id actor other) c)
      ∙ mutual_permits id c.working found actor other v,
  moderator_permits s id actor percent c v found,
)
