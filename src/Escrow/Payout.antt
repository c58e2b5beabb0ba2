-- ===== src/Escrow/Payout.antt =====
-- What `release` and `resolve_dispute` have found and written when they return.
use escrow_hub.Common.{ℕ, ◌≡◌, none, some, List, [], ◌∷◌, ◌++◌, arith, Option-cases, inl, inr}
use escrow_hub.Decimal.{Decimal, ◌*ᵈ◌, ◌-ᵈ◌, div_hundred}
use escrow_hub.Settings.{Settings}
use escrow_hub.Fee.{FeeBreakdown}
use escrow_hub.Outcome.{ok, Result-cases}
use escrow_hub.Table.{find}
use escrow_hub.Tenant.{TenantView, get_tenant}
use escrow_hub.Wallet.Locks.Effects.{entry, Held, released_locks, cancel_escrow_lock-ok}
use escrow_hub.Db.{
  Db, Lock, EscrowRow, active, completed, disputed, LedgerEntry, Resolution, release_seller,
  refund_buyer, split, other_resolution, user, platform_revenue, bot_owner_revenue, escrow_release,
  adjustment, platform_fee, bot_fee,
}
use escrow_hub.Escrow.Settle.{pay_out, release_body}
use escrow_hub.Escrow.Dispute.{split_lock, settle_dispute, resolve_body}
use escrow_hub.Escrow.Effects.{Settles, refund, payout, fees_of, pay_out-ok}

-- The tenant of an escrow and the fees on an amount.
pub record Priced (settings : Settings) (row : EscrowRow) (amount : Decimal) (tenant : TenantView)
    (fees : FeeBreakdown) (db : Db) : Type 0 where
  pub tenant_found : get_tenant row.bot_id db ≡ some tenant
  pub priced : fees_of settings amount tenant ≡ ok fees

-- An active escrow that its buyer releases.
pub release_body-ok :
    (settings : Settings) (escrow_id actor : ℕ) (db : Db) {row : EscrowRow} {fees : FeeBreakdown}
    → (release_body settings escrow_id actor db).0 ≡ ok (row, fees)
    → (l : Lock) × (tenant : TenantView) × Priced settings row row.amount tenant fees db
      × Settles escrow_id row l completed
          (payout escrow_id row.seller_id tenant.owner_user_id row.asset fees)
          db
          (release_body settings escrow_id actor db).1
      × (row.status ≡ active)
      × (row.buyer_id ≡ actor)
unfolding release_body
release_body-ok settings escrow_id actor db {row} {fees} h =
    elim (Option-cases (find escrow_id db.escrows)) [
      | inl e ↦ absurd (ground arith)
      | inr (found, e) ↦ elim (Result-cases (pay_out settings escrow_id found db).0) [
        | inr (x, failed) ↦ absurd (ground arith)
        | inl (f, done) ↦
            let (tenant, l, t, p, (lf, held), after) =
              pay_out-ok settings escrow_id found db done in
            let same : found ≡ row = ground arith in
            let same' : f ≡ fees = ground arith in
            (l, tenant, ground arith, ground arith, ground arith, ground arith)
      ]
    ]

-- The two parts of a split lock.
abbrev pub seller_part : Lock → Decimal → Decimal
seller_part l percent = div_hundred (l.amount *ᵈ percent)

abbrev pub buyer_part : Lock → Decimal → Decimal
buyer_part l percent = l.amount -ᵈ seller_part l percent

-- What a split books: the seller's part through the fees, and the buyer's part.
abbrev pub shared : ℕ → EscrowRow → ℕ → FeeBreakdown → Decimal → List LedgerEntry
shared escrow_id row owner fees rest =
    entry bot_owner_revenue (some owner) row.asset fees.bot_fee bot_fee escrow_id
    ∷ entry platform_revenue none row.asset fees.platform_fee platform_fee escrow_id
    ∷ entry user (some row.buyer_id) row.asset rest adjustment escrow_id
    ∷ entry user (some row.seller_id) row.asset fees.seller_payout escrow_release escrow_id
    ∷ []

abbrev pub after_split : ℕ → EscrowRow → ℕ → FeeBreakdown → Decimal → Db → Db
after_split escrow_id row owner fees rest db = record db {
  escrow_locks = released_locks escrow_id db;
  ledger_entries = shared escrow_id row owner fees rest ++ db.ledger_entries;
}

pub split_lock-ok :
    (settings : Settings) (escrow_id : ℕ) (row : EscrowRow) (percent : Decimal) (db : Db)
    → (split_lock settings escrow_id row percent db).0 ≡ ok tt
    → (l : Lock) × (tenant : TenantView) × (fees : FeeBreakdown) × Held escrow_id db l
      × Priced settings row (seller_part l percent) tenant fees db
      × ((split_lock settings escrow_id row percent db).1
          ≡ after_split escrow_id row tenant.owner_user_id fees (buyer_part l percent) db)
unfolding split_lock
split_lock-ok settings escrow_id row percent db h =
    elim (Option-cases (find escrow_id db.escrow_locks)) [
      | inl e ↦ absurd (ground arith)
      | inr (l, e) ↦ elim (Option-cases (get_tenant row.bot_id db)) [
        | inl t ↦ absurd (ground arith)
        | inr (tenant, t) ↦ elim (Result-cases (fees_of settings (seller_part l percent) tenant)) [
          | inr (x, p) ↦ absurd (ground arith)
          | inl (f, p) ↦ (
            l,
            tenant,
            f,
            (e, ground arith),
            record { tenant_found = t; priced = p },
            ground arith,
          )
        ]
      ]
    ]

-- How a dispute ends: all to the seller, all back to the buyer, or split.
pub data Ends (settings : Settings) (escrow_id : ℕ) (row : EscrowRow) (percent : Decimal) (db : Db)
    : Resolution → Lock → List LedgerEntry → Type 0 where
  to_seller :
      {l : Lock} {tenant : TenantView} {fees : FeeBreakdown}
      → Priced settings row row.amount tenant fees db
      → Ends settings escrow_id row percent db release_seller l
          (payout escrow_id row.seller_id tenant.owner_user_id row.asset fees)
  to_buyer : {l : Lock} → Ends settings escrow_id row percent db refund_buyer l (refund escrow_id l)
  to_both :
      {l : Lock} {tenant : TenantView} {fees : FeeBreakdown}
      → Priced settings row (seller_part l percent) tenant fees db
      → Ends settings escrow_id row percent db split l
          (shared escrow_id row tenant.owner_user_id fees (buyer_part l percent))

-- A settled dispute has released the lock and booked one of the three endings.
abbrev Settled : Settings → ℕ → EscrowRow → Decimal → Resolution → Db → Db → Type 0
Settled settings escrow_id row percent resolution db db' =
    (l : Lock) × (paid : List LedgerEntry) × Ends settings escrow_id row percent db resolution l
      paid
    × Held escrow_id db l
    × (db' ≡ record db {
      escrow_locks = released_locks escrow_id db;
      ledger_entries = paid ++ db.ledger_entries;
    })

settle_dispute-ok :
    (settings : Settings) (escrow_id : ℕ) (row : EscrowRow) (resolution : Resolution)
    (percent : Decimal) (db : Db)
    → (settle_dispute settings escrow_id row resolution percent db).0 ≡ ok tt
    → Settled settings escrow_id row percent resolution db
        (settle_dispute settings escrow_id row resolution percent db).1
unfolding settle_dispute
settle_dispute-ok settings escrow_id row release_seller percent db h =
    elim (Result-cases (pay_out settings escrow_id row db).0) [
      | inr (x, failed) ↦ absurd (ground arith)
      | inl (f, done) ↦
          let (tenant, l, t, p, held, after) = pay_out-ok settings escrow_id row db done in
          (l, _, to_seller (record { tenant_found = t; priced = p }), held, ground arith)
    ]
settle_dispute-ok settings escrow_id row refund_buyer percent db h =
    let (l, held, after) = cancel_escrow_lock-ok escrow_id db h in (l, _, to_buyer, held, after)
settle_dispute-ok settings escrow_id row split percent db h =
    let (l, tenant, f, held, p, after) = split_lock-ok settings escrow_id row percent db h in
    (l, _, to_both p, held, after)
settle_dispute-ok settings escrow_id row (other_resolution _) percent db h = absurd (ground arith)

-- A disputed escrow that a moderator resolves.
pub resolve_body-ok :
    (settings : Settings) (escrow_id admin : ℕ) (resolution : Resolution) (percent : Decimal)
    (db : Db)
    → (resolve_body settings escrow_id admin resolution percent db).0 ≡ ok tt
    → (row : EscrowRow) × (l : Lock) × (paid : List LedgerEntry) × Settles escrow_id row l completed
        paid db
        (resolve_body settings escrow_id admin resolution percent db).1
      × (row.status ≡ disputed)
      × Ends settings escrow_id row percent db resolution l paid
unfolding resolve_body
resolve_body-ok settings escrow_id admin resolution percent db h =
    elim (Option-cases (find escrow_id db.escrows)) [
      | inl e ↦ absurd (ground arith)
      | inr (row, e) ↦
          elim (Result-cases (settle_dispute settings escrow_id row resolution percent db).0) [
            | inr (x, failed) ↦ absurd (ground arith)
            | inl (_, done) ↦
                let (l, paid, ends, (lf, held), after) =
                  settle_dispute-ok settings escrow_id row resolution percent db done in
                (row, l, paid, ground arith, ground arith, ends)
          ]
    ]
