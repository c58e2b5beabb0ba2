-- ===== src/Escrow/Effects.antt =====
-- What a transaction that returns has found and written, operation by operation.
use escrow_hub.Common.{
  ℕ, suc, ◌≡◌, ◌∙◌, true, false, none, some, List, [], ◌∷◌, ◌++◌, ◌⊎◌, ◌≢◌, if◌then◌else◌, arith,
  Option-cases, Bool-cases, inl, inr,
}
use escrow_hub.Text.{Text}
use escrow_hub.Decimal.{Decimal, neg, lt}
use escrow_hub.Asset.{Asset}
use escrow_hub.Settings.{Settings}
use escrow_hub.Fee.{FeeBreakdown, calculate_total_fees}
use escrow_hub.Outcome.{Result, ok, err, Result-cases, insufficient_balance}
use escrow_hub.Table.{find, update}
use escrow_hub.Tenant.{TenantView, get_tenant}
use escrow_hub.Ledger
use escrow_hub.Wallet.Users.Resolve.{
  resolve_user, users_after, next_user_after, after_ensure, known-resolved, known-again,
}
use escrow_hub.Wallet.Locks.{release_escrow}
use escrow_hub.Wallet.Locks.Effects.{
  entry, Held, released_locks, after_release, lock_row, balance_of, cancel_escrow_lock-ok,
  release_escrow-ok, available_balance_lem, lock_for_escrow_lem,
}
use escrow_hub.Db.{
  Db, Lock, EscrowRow, EscrowStatus, pending, active, cancelled, disputed, locked, escrow_created,
  escrow_lock, escrow_unlock, escrow_release, platform_fee, bot_fee, user, platform_revenue,
  bot_owner_revenue, LedgerEntry,
}
use escrow_hub.Escrow.{with_status, is_participant}
use escrow_hub.Escrow.Create.{create_body, accept_body}
use escrow_hub.Escrow.Dispute.{dispute_body}
use escrow_hub.Escrow.Settle.{
  pay_out, check_mutual, cancel_body, cancel_mutual_body, matches_request,
}

abbrev pub new_row : ℕ → ℕ → ℕ → Asset → Decimal → Text → EscrowRow
new_row bot_id buyer_id seller_id asset amount text = record {
  bot_id = bot_id;
  buyer_id = buyer_id;
  seller_id = seller_id;
  asset = asset;
  amount = amount;
  status = pending;
  description = text;
}

-- The row, the lock, the debit and the event of a new escrow.
abbrev pub after_create : ℕ → ℕ → ℕ → Asset → Decimal → Text → Db → Db
after_create bot_id buyer_id seller_id asset amount text db =
    let uid : ℕ = resolve_user buyer_id db in
    record db {
      users = users_after buyer_id db;
      next_user = next_user_after buyer_id db;
      escrows = (db.next_escrow, new_row bot_id buyer_id seller_id asset amount text) ∷ db.escrows;
      next_escrow = suc db.next_escrow;
      escrow_locks = (db.next_escrow, lock_row uid asset amount) ∷ db.escrow_locks;
      ledger_entries =
          entry user (some uid) asset (neg amount) escrow_lock db.next_escrow ∷ db.ledger_entries;
      escrow_events = (db.next_escrow, escrow_created amount asset) ∷ db.escrow_events;
    }

-- With no lock under the next id, the balance alone decides.
pub create_body_lem :
    (bot_id buyer_id seller_id : ℕ) (asset : Asset) (amount : Decimal) (text : Text) (db : Db)
    → find db.next_escrow db.escrow_locks ≡ none
    → create_body bot_id buyer_id seller_id asset amount text db ≡ (
        if lt (balance_of buyer_id asset db) amount
        then (err insufficient_balance, after_ensure buyer_id db)
        else (ok db.next_escrow, after_create bot_id buyer_id seller_id asset amount text db))
unfolding create_body Ledger.available_balance
create_body_lem bot_id buyer_id seller_id asset amount text db fresh =
    let uid : ℕ = resolve_user buyer_id db in
    ground (
      arith,
      available_balance_lem buyer_id asset db,
      known-resolved buyer_id db,
      known-again buyer_id db,
      lock_for_escrow_lem db.next_escrow buyer_id uid asset amount
          (record (after_ensure buyer_id db) {
            escrows =
                (db.next_escrow, new_row bot_id buyer_id seller_id asset amount text) ∷ db.escrows;
            next_escrow = suc db.next_escrow;
          }),
    )

-- A creation that returns: the new id, the balance that covered the amount, and the rows.
pub create_body-ok :
    (bot_id buyer_id seller_id : ℕ) (asset : Asset) (amount : Decimal) (text : Text) (db : Db)
    {id : ℕ}
    → find db.next_escrow db.escrow_locks ≡ none
    → (create_body bot_id buyer_id seller_id asset amount text db).0 ≡ ok id
    → (id ≡ db.next_escrow)
      × (lt (balance_of buyer_id asset db) amount ≡ false)
      × ((create_body bot_id buyer_id seller_id asset amount text db).1
          ≡ after_create bot_id buyer_id seller_id asset amount text db)
create_body-ok bot_id buyer_id seller_id asset amount text db fresh h =
    let e = create_body_lem bot_id buyer_id seller_id asset amount text db fresh in
    elim (Bool-cases (lt (balance_of buyer_id asset db) amount)) [
      | inl less ↦ absurd (ground (arith, e))
      | inr enough ↦ (ground (arith, e), enough, ground (arith, e))
    ]

-- The tables of the escrows after a change of one status, with the funds left alone.
pub record Shifts (escrow_id : ℕ) (row : EscrowRow) (s : EscrowStatus) (db db' : Db) : Type 0 where
  pub found : find escrow_id db.escrows ≡ some row
  pub escrows : db'.escrows ≡ update escrow_id (with_status s) db.escrows
  pub next_escrow : db'.next_escrow ≡ db.next_escrow
  pub locks : db'.escrow_locks ≡ db.escrow_locks
  pub ledger : db'.ledger_entries ≡ db.ledger_entries

-- The same after an escrow's end: its lock was held and is released, and `paid` is booked.
pub record Settles (escrow_id : ℕ) (row : EscrowRow) (l : Lock) (s : EscrowStatus)
    (paid : List LedgerEntry) (db db' : Db) : Type 0 where
  pub found : find escrow_id db.escrows ≡ some row
  pub lock_found : find escrow_id db.escrow_locks ≡ some l
  pub held : l.status ≡ locked
  pub escrows : db'.escrows ≡ update escrow_id (with_status s) db.escrows
  pub next_escrow : db'.next_escrow ≡ db.next_escrow
  pub locks : db'.escrow_locks ≡ released_locks escrow_id db
  pub ledger : db'.ledger_entries ≡ paid ++ db.ledger_entries

-- A pending escrow that its seller accepts.
pub accept_body-ok :
    (escrow_id actor : ℕ) (db : Db)
    → (accept_body escrow_id actor db).0 ≡ ok tt
    → (row : EscrowRow) × Shifts escrow_id row active db (accept_body escrow_id actor db).1
      × (row.status ≡ pending)
      × (row.seller_id ≡ actor)
unfolding accept_body
accept_body-ok escrow_id actor db h = elim (Option-cases (find escrow_id db.escrows)) [
  | inl e ↦ absurd (ground arith)
  | inr (row, e) ↦ (row, ground arith, ground arith, ground arith)
]

-- An escrow that is pending or active, disputed by one of its two parties.
pub dispute_body-ok :
    (escrow_id actor : ℕ) (reason : Text) (db : Db)
    → (dispute_body escrow_id actor reason db).0 ≡ ok tt
    → (row : EscrowRow) × Shifts escrow_id row disputed db
        (dispute_body escrow_id actor reason db).1
      × ((row.status ≡ pending) ⊎ (row.status ≡ active))
      × ((actor ≡ row.buyer_id) ⊎ (actor ≡ row.seller_id))
unfolding dispute_body
dispute_body-ok escrow_id actor reason db h = elim (Option-cases (find escrow_id db.escrows)) [
  | inl e ↦ absurd (ground arith)
  | inr (row, e) ↦ (row, ground arith, ground arith, ground arith)
]

-- The refund of a lock.
abbrev pub refund : ℕ → Lock → List LedgerEntry
refund escrow_id l = entry user (some l.user_id) l.asset l.amount escrow_unlock escrow_id ∷ []

pub cancel_body-ok :
    (escrow_id actor : ℕ) (db : Db)
    → (cancel_body escrow_id actor db).0 ≡ ok tt
    → (row : EscrowRow) × (l : Lock) × Settles escrow_id row l cancelled
        (refund escrow_id l)
        db
        (cancel_body escrow_id actor db).1
      × (row.status ≡ pending)
      × ((actor ≡ row.buyer_id) ⊎ (actor ≡ row.seller_id))
unfolding cancel_body
cancel_body-ok escrow_id actor db h = elim (Option-cases (find escrow_id db.escrows)) [
  | inl e ↦ absurd (ground arith)
  | inr (row, e) ↦
      let (l, (found, held), after) = cancel_escrow_lock-ok escrow_id db (ground arith) in
      (row, l, ground arith, ground arith, ground arith)
]

-- An active escrow's two parties, one of whom has an open request with the other.
abbrev pub MayCancel : ℕ → ℕ → ℕ → EscrowRow → Db → Type 0
MayCancel escrow_id requester responder row db =
    (row.status ≡ active)
    × (is_participant requester row ≡ true)
    × (is_participant responder row ≡ true)
    × (requester ≢ responder)
    × (matches_request requester responder (find escrow_id db.active_cancel_requests) ≡ true)

check_mutual-ok :
    (escrow_id requester responder : ℕ) (row : EscrowRow) (db : Db)
    → (check_mutual escrow_id requester responder row db).0 ≡ ok tt
    → MayCancel escrow_id requester responder row db
      × ((check_mutual escrow_id requester responder row db).1 ≡ db)
unfolding check_mutual
check_mutual-ok escrow_id requester responder row db h =
    ((ground arith, ground arith, ground arith, ground arith, ground arith), ground arith)

pub cancel_mutual_body-ok :
    (escrow_id requester responder : ℕ) (db : Db)
    → (cancel_mutual_body escrow_id requester responder db).0 ≡ ok tt
    → (row : EscrowRow) × (l : Lock) × Settles escrow_id row l cancelled
        (refund escrow_id l)
        db
        (cancel_mutual_body escrow_id requester responder db).1
      × MayCancel escrow_id requester responder row db
unfolding cancel_mutual_body
cancel_mutual_body-ok escrow_id requester responder db h =
    elim (Option-cases (find escrow_id db.escrows)) [
      | inl e ↦ absurd (ground arith)
      | inr (row, e) ↦
          let (may, same) = check_mutual-ok escrow_id requester responder row db (ground arith) in
          let (l, (found, held), after) = cancel_escrow_lock-ok escrow_id db (ground arith) in
          (row, l, ground arith, may)
    ]

-- What a release books: the seller's payout and the two fees.
abbrev pub payout : ℕ → ℕ → ℕ → Asset → FeeBreakdown → List LedgerEntry
payout escrow_id seller_id owner asset fees =
    entry bot_owner_revenue (some owner) asset fees.bot_fee bot_fee escrow_id
    ∷ entry platform_revenue none asset fees.platform_fee platform_fee escrow_id
    ∷ entry user (some seller_id) asset fees.seller_payout escrow_release escrow_id
    ∷ []

abbrev pub fees_of : Settings → Decimal → TenantView → Result FeeBreakdown
fees_of settings amount tenant =
    calculate_total_fees settings.escrow_platform_fee_percent amount tenant.bot_extra_fee_percent

abbrev released_db : ℕ → EscrowRow → TenantView → FeeBreakdown → Db → Result (Unit {0}) × Db
released_db escrow_id row tenant fees db =
    release_escrow escrow_id row.seller_id fees.platform_fee fees.bot_fee fees.seller_payout
      tenant.owner_user_id row.asset db

pay_out_lem :
    (settings : Settings) (escrow_id : ℕ) (row : EscrowRow) (db : Db) (tenant : TenantView)
    (fees : FeeBreakdown) {paid : FeeBreakdown}
    → get_tenant row.bot_id db ≡ some tenant
    → fees_of settings row.amount tenant ≡ ok fees
    → (pay_out settings escrow_id row db).0 ≡ ok paid
    → (paid ≡ fees)
      × ((released_db escrow_id row tenant fees db).0 ≡ ok tt)
      × ((pay_out settings escrow_id row db).1 ≡ (released_db escrow_id row tenant fees db).1)
unfolding pay_out
pay_out_lem settings escrow_id row db tenant fees t p h =
    elim (Result-cases (released_db escrow_id row tenant fees db).0) [
      | inr (e, failed) ↦ absurd (ground arith)
      | inl (_, done) ↦ (ground arith, done, ground arith)
    ]

pub pay_out-ok :
    (settings : Settings) (escrow_id : ℕ) (row : EscrowRow) (db : Db) {fees : FeeBreakdown}
    → (pay_out settings escrow_id row db).0 ≡ ok fees
    → (tenant : TenantView) × (l : Lock) × (get_tenant row.bot_id db ≡ some tenant)
      × (fees_of settings row.amount tenant ≡ ok fees)
      × Held escrow_id db l
      × ((pay_out settings escrow_id row db).1
          ≡ after_release escrow_id row.seller_id fees.platform_fee fees.bot_fee fees.seller_payout
              tenant.owner_user_id row.asset db)
pay_out-ok settings escrow_id row db {fees} h = elim (Option-cases (get_tenant row.bot_id db)) [
  | inl e ↦ absurd (unfold pay_out in ground arith)
  | inr (tenant, t) ↦ elim (Result-cases (fees_of settings row.amount tenant)) [
    | inr (x, p) ↦ absurd (unfold pay_out in ground arith)
    | inl (f, p) ↦
        let (same, done, after) = pay_out_lem settings escrow_id row db tenant f t p h in
        let (l, held, booked) =
          release_escrow-ok escrow_id row.seller_id f.platform_fee f.bot_fee f.seller_payout
            tenant.owner_user_id row.asset db done in
        (tenant, l, t, rw same p, held, rw same (after ∙ booked))
  ]
]
