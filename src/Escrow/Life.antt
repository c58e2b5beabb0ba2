-- ===== src/Escrow/Life.antt =====
-- The life of an escrow: which status may follow which, and that every transaction which returns
-- keeps the rows to it and the locks to the rows.
use escrow_hub.Common.{
  ℕ, ◌≡◌, refl, sym, ap, subst, ◌∙◌, Option, some, List, inl, inr, arith, ◌==◌, ==_iff, Bool-cases,
}
use escrow_hub.Text.{Text}
use escrow_hub.Asset.{Asset}
use escrow_hub.Decimal.{Decimal}
use escrow_hub.Settings.{Settings}
use escrow_hub.Fee.{FeeBreakdown}
use escrow_hub.Outcome.{ok}
use escrow_hub.Table.{Table, find, update, find-update, find-cons}
use escrow_hub.Db.{
  Db, Lock, EscrowRow, EscrowStatus, pending, active, completed, cancelled, disputed, released,
  LedgerEntry, Resolution,
}
use escrow_hub.Escrow.{with_status}
use escrow_hub.Escrow.Create.{create_body, accept_body}
use escrow_hub.Escrow.Settle.{release_body, cancel_body, cancel_mutual_body}
use escrow_hub.Escrow.Dispute.{dispute_body, resolve_body}
use escrow_hub.Escrow.Linked.{
  AreLinked, held_status, fresh_lock, open-AreLinked, status-AreLinked, settle-AreLinked,
}
use escrow_hub.Escrow.Effects.{
  Shifts, Settles, create_body-ok, after_create, accept_body-ok, dispute_body-ok, cancel_body-ok,
  cancel_mutual_body-ok,
}
use escrow_hub.Escrow.Payout.{release_body-ok, resolve_body-ok}

-- The status that an escrow may take next.
pub data Follows : EscrowStatus → EscrowStatus → Type 0 where
  stays : {s : EscrowStatus} → Follows s s
  accepts : Follows pending active
  disputes_pending : Follows pending disputed
  disputes_active : Follows active disputed
  completes : Follows active completed
  resolves : Follows disputed completed
  cancels : Follows pending cancelled
  cancels_mutually : Follows active cancelled

abbrev pub IsSound : Db → Type 0
IsSound db = AreLinked db.escrows db.escrow_locks db.next_escrow

-- What a step does to the rows: the invariant is kept, and a row changes in its status only, to
-- one that may follow.
pub record Steps (db db' : Db) : Type 0 where
  pub sound : IsSound db'
  pub follows :
      (id : ℕ) (row : EscrowRow)
      → find id db.escrows ≡ some row
      → (s : EscrowStatus) × (find id db'.escrows ≡ some (with_status s row)) × Follows row.status s

update-Follows :
    (k : ℕ) (s : EscrowStatus) (t : Table EscrowRow) (changed : EscrowRow)
    → find k t ≡ some changed
    → Follows changed.status s
    → (id : ℕ) (row : EscrowRow) → find id t ≡ some row
    → (s' : EscrowStatus) × (find id (update k (with_status s) t) ≡ some (with_status s' row))
      × Follows row.status s'
update-Follows k s t changed found f id row h = elim (Bool-cases (k == id)) [
  | inr e ↦ (row.status, rw (find-update id k (with_status s) t, e) h, stays)
  | inl e ↦
      let here : find id t ≡ some changed = rw (sym ((==_iff k id).0 e)) found in
      let same : changed ≡ row = ground arith in
      (
        s,
        rw (find-update id k (with_status s) t, e, h) refl,
        subst (λ r. Follows r.status s) same f,
      )
]

same_row : {o : Option EscrowRow} {a b : EscrowRow} → o ≡ some a → o ≡ some b → a ≡ b
same_row p q = cc

Shifts-Steps :
    {id : ℕ} {row : EscrowRow} {s : EscrowStatus} {db db' : Db}
    → IsSound db
    → Shifts id row s db db'
    → held_status s ≡ held_status row.status
    → Follows row.status s
    → Steps db db'
Shifts-Steps {id} {row} {s} {db} {db'} v d same f = record {
  sound =
      rw (d.escrows, d.locks, d.next_escrow)
        (status-AreLinked v id s
          (λ r found. same ∙ ap (λ t. held_status t.status) (same_row (d.found) found)));
  follows = rw (d.escrows) (update-Follows id s db.escrows row d.found f);
}

Settles-Steps :
    {id : ℕ} {row : EscrowRow} {l : Lock} {s : EscrowStatus} {paid : List LedgerEntry} {db db' : Db}
    → IsSound db
    → Settles id row l s paid db db'
    → held_status s ≡ released
    → Follows row.status s
    → Steps db db'
Settles-Steps {id} {row} {l} {s} {paid} {db} {db'} v d over f = record {
  sound = rw (d.escrows, d.locks, d.next_escrow) (settle-AreLinked v id s over);
  follows = rw (d.escrows) (update-Follows id s db.escrows row d.found f);
}

pub create_body-Steps :
    (bot_id buyer_id seller_id : ℕ) (asset : Asset) (amount : Decimal) (text : Text) (db : Db)
    {id : ℕ}
    → IsSound db
    → (create_body bot_id buyer_id seller_id asset amount text db).0 ≡ ok id
    → Steps db (create_body bot_id buyer_id seller_id asset amount text db).1
create_body-Steps bot_id buyer_id seller_id asset amount text db v h =
    let (_, _, after) =
      create_body-ok bot_id buyer_id seller_id asset amount text db (fresh_lock v) h in
    rw after (record {
      sound = open-AreLinked v _ _ refl refl refl;
      follows = λ id row found. (row.status, older id row found, stays);
    })
  where
    older :
        (id : ℕ) (row : EscrowRow)
        → find id db.escrows ≡ some row
        → find id (after_create bot_id buyer_id seller_id asset amount text db).escrows ≡ some row
    older id row found = elim (Bool-cases (db.next_escrow == id)) [
      | inl e ↦ absurd (ground (arith, v.fresh id (omega (arith, (==_iff db.next_escrow id).0 e))))
      | inr e ↦ rw (find-cons, e) found
    ]

pub accept_body-Steps :
    (escrow_id actor : ℕ) (db : Db)
    → IsSound db
    → (accept_body escrow_id actor db).0 ≡ ok tt
    → Steps db (accept_body escrow_id actor db).1
accept_body-Steps escrow_id actor db v h =
    let (row, d, from, _) = accept_body-ok escrow_id actor db h in
    Shifts-Steps v d (ap held_status (sym from)) (subst (λ t. Follows t active) (sym from) accepts)

pub dispute_body-Steps :
    (escrow_id actor : ℕ) (reason : Text) (db : Db)
    → IsSound db
    → (dispute_body escrow_id actor reason db).0 ≡ ok tt
    → Steps db (dispute_body escrow_id actor reason db).1
dispute_body-Steps escrow_id actor reason db v h =
    let (row, d, from, _) = dispute_body-ok escrow_id actor reason db h in
    elim from [
      | inl e ↦
          Shifts-Steps v d (ap held_status (sym e))
            (subst (λ t. Follows t disputed) (sym e) disputes_pending)
      | inr e ↦
          Shifts-Steps v d (ap held_status (sym e))
            (subst (λ t. Follows t disputed) (sym e) disputes_active)
    ]

pub cancel_body-Steps :
    (escrow_id actor : ℕ) (db : Db)
    → IsSound db
    → (cancel_body escrow_id actor db).0 ≡ ok tt
    → Steps db (cancel_body escrow_id actor db).1
cancel_body-Steps escrow_id actor db v h =
    let (row, l, d, from, _) = cancel_body-ok escrow_id actor db h in
    Settles-Steps v d refl (subst (λ t. Follows t cancelled) (sym from) cancels)

pub cancel_mutual_body-Steps :
    (escrow_id requester responder : ℕ) (db : Db)
    → IsSound db
    → (cancel_mutual_body escrow_id requester responder db).0 ≡ ok tt
    → Steps db (cancel_mutual_body escrow_id requester responder db).1
cancel_mutual_body-Steps escrow_id requester responder db v h =
    let (row, l, d, may) = cancel_mutual_body-ok escrow_id requester responder db h in
    Settles-Steps v d refl (subst (λ t. Follows t cancelled) (sym may.0) cancels_mutually)

pub release_body-Steps :
    (settings : Settings) (escrow_id actor : ℕ) (db : Db) {r : EscrowRow × FeeBreakdown}
    → IsSound db
    → (release_body settings escrow_id actor db).0 ≡ ok r
    → Steps db (release_body settings escrow_id actor db).1
release_body-Steps settings escrow_id actor db {r} v h =
    let (l, tenant, p, d, from, _) = release_body-ok settings escrow_id actor db h in
    Settles-Steps v d refl (subst (λ t. Follows t completed) (sym from) completes)

pub resolve_body-Steps :
    (settings : Settings) (escrow_id admin : ℕ) (resolution : Resolution) (percent : Decimal)
    (db : Db)
    → IsSound db
    → (resolve_body settings escrow_id admin resolution percent db).0 ≡ ok tt
    → Steps db (resolve_body settings escrow_id admin resolution percent db).1
resolve_body-Steps settings escrow_id admin resolution percent db v h =
    let (row, l, paid, d, from, _) =
      resolve_body-ok settings escrow_id admin resolution percent db h in
    Settles-Steps v d refl (subst (λ t. Follows t completed) (sym from) resolves)
