-- ===== src/Wallet/Withdrawals/History.antt =====
-- Any sequence of status changes of withdrawals.
use escrow_hub.Common.{
  ℕ, ◌≤◌, ◌≡◌, refl, sym, subst, Bool, true, false, Bool-cases, Option-cases, Option, none, some,
  inl, inr, List, [], ◌∷◌, arith, if◌then◌else◌,
}
use escrow_hub.Text.{Text}
use escrow_hub.Decimal.{lt, zero_amount}
use escrow_hub.Outcome.{Result, ok, err}
use escrow_hub.Tenant.{is_some}
use escrow_hub.Outside.{Outside}
use escrow_hub.Table.{find, update}
use escrow_hub.Db.{Db, Action, ◌>>◌, ◌>>=◌, gets, run_if, Withdrawal}
use escrow_hub.Wallet.Withdrawals.Fees.{
  books_platform_fee, any_entry, withdrawal_fee_booked, book_fee,
  book_withdrawal_platform_fee_if_needed, settle_withdrawal_network_fee_if_needed,
}
use escrow_hub.Wallet.Withdrawals.FeesOnce.{count, fees_booked, book-KeepsOnce, settle-KeepsOnce}
use escrow_hub.Wallet.Withdrawals.Marks.{
  change, set_broadcasted, set_confirmed, set_signer_retry, fee_is_known,
  mark_withdrawal_broadcasted, mark_withdrawal_confirmed, mark_withdrawal_submitted,
  mark_withdrawal_reconciled, mark_withdrawal_signer_retry, mark_withdrawal_failed, fail_row,
  AdminStatus, to_pending, to_failed, to_other, admin_change, set_withdrawal_status,
  is_signer_retry,
}

book-ok : (id : ℕ) (db : Db) → (book_withdrawal_platform_fee_if_needed id db).0 ≡ ok tt
unfolding book_withdrawal_platform_fee_if_needed withdrawal_fee_booked book_fee
book-ok id db = elim (Bool-cases (any_entry (books_platform_fee id) db.ledger_entries)) [
  | inl b ↦ rw b refl
  | inr b ↦ rw b (row (find id db.withdrawals))
]
  where
    row : (o : Option Withdrawal) → (book_fee id o db).0 ≡ ok tt
    row none = refl
    row (some w) = elim (Bool-cases (lt zero_amount w.platform_fee_amount)) [
      | inl p ↦ rw p refl
      | inr p ↦ rw p refl
    ]

abbrev changed : ℕ → (Withdrawal → Withdrawal) → Db → Db
changed id f db = record db { withdrawals = update id f db.withdrawals }

-- A statement after one that returns.
then_ok {ℓ} :
    {B : Type ℓ} (r : Result (Unit {0}) × Db) (n : Action B)
    → r.0 ≡ ok tt
    → (let r' : Result B × Db = elim r.0 [ ok a ↦ n r.1 | err e ↦ (err e, r.1) ] in r') ≡ n r.1
then_ok (ok tt, db) n h = refl
then_ok (err e, db) n h = absurd (cc)

confirmed_lem :
    (o : Outside) (id : ℕ) (txid : Text) (ref status : Option Text) (db : Db)
    → mark_withdrawal_confirmed o id txid ref status db
      ≡ settle_withdrawal_network_fee_if_needed o.now true id (
          changed id
            (set_confirmed o.now txid ref status)
            (book_withdrawal_platform_fee_if_needed id db).1)
unfolding mark_withdrawal_confirmed change
confirmed_lem o id txid ref status db =
    then_ok (book_withdrawal_platform_fee_if_needed id db)
      (change id (set_confirmed o.now txid ref status)
        >> settle_withdrawal_network_fee_if_needed o.now true id)
      (book-ok id db)

broadcasted_lem :
    (o : Outside) (id : ℕ) (txid : Text) (ref status : Option Text) (at : Option ℕ) (db : Db)
    → let db' =
        changed id
          (set_broadcasted o.now txid ref status at)
          (book_withdrawal_platform_fee_if_needed id db).1 in
      mark_withdrawal_broadcasted o id txid ref status at db ≡ (
        if fee_is_known id db'
        then settle_withdrawal_network_fee_if_needed o.now false id db'
        else (ok tt, db'))
unfolding mark_withdrawal_broadcasted change
broadcasted_lem o id txid ref status at db =
    then_ok (book_withdrawal_platform_fee_if_needed id db)
      (change id (set_broadcasted o.now txid ref status at)
        >> (gets (fee_is_known id) >>= λ known.
            run_if known (settle_withdrawal_network_fee_if_needed o.now false id)))
      (book-ok id db)

fail_row-fees_booked :
    (k : ℕ) (o : Outside) (id : ℕ) (reason : Text) (row : Option Withdrawal) (db : Db)
    → fees_booked k (fail_row o id reason row db).1 ≡ fees_booked k db
unfolding fail_row count
fail_row-fees_booked k o id reason none db = refl
fail_row-fees_booked k o id reason (some w) db = ground arith

run_if-fees_booked :
    (k id : ℕ) (c : Bool) (f : Withdrawal → Withdrawal) (db : Db)
    → fees_booked k (run_if c (change id f) db).1 ≡ fees_booked k db
unfolding change
run_if-fees_booked k id true f db = refl
run_if-fees_booked k id false f db = refl

admin-fees_booked :
    (k : ℕ) (o : Outside) (id : ℕ) (reason : Option Text) (status : AdminStatus) (db : Db)
    → fees_booked k (admin_change o id reason status db).1 ≡ fees_booked k db
unfolding admin_change mark_withdrawal_failed change
admin-fees_booked k o id reason to_pending db = refl
admin-fees_booked k o id reason to_failed db =
    fail_row-fees_booked k o id _ (find id db.withdrawals) db
admin-fees_booked k o id reason to_other db = refl

administered-fees_booked :
    (k : ℕ) (o : Outside) (id : ℕ) (status : AdminStatus) (reason : Option Text) (db : Db)
    → fees_booked k (set_withdrawal_status o id status reason db).1 ≡ fees_booked k db
unfolding set_withdrawal_status
administered-fees_booked k o id status reason db = elim (Option-cases (find id db.withdrawals)) [
  | inl e ↦ rw e refl
  | inr (w, e) ↦ elim (Bool-cases (is_signer_retry w.status)) [
    | inl r ↦ rw (e, r) (admin-fees_booked k o id reason status db)
    | inr r ↦ rw (e, r) refl
  ]
]

-- The status changes, with their arguments.
pub data Mark : Type 0 where
  submits : Option Text → Option Text → Option ℕ → Mark
  broadcasts : Text → Option Text → Option Text → Option ℕ → Mark
  confirms : Text → Option Text → Option Text → Mark
  reconciles : Mark
  retries fails : Text → Mark
  administers : AdminStatus → Option Text → Mark

unfoldable pub apply_mark : Outside → ℕ → Mark → Db → Db
apply_mark o id (submits ref status at) db = (mark_withdrawal_submitted o id ref status at db).1
apply_mark o id (broadcasts txid ref status at) db =
    (mark_withdrawal_broadcasted o id txid ref status at db).1
apply_mark o id (confirms txid ref status) db =
    (mark_withdrawal_confirmed o id txid ref status db).1
apply_mark o id reconciles db = (mark_withdrawal_reconciled o id db).1
apply_mark o id (retries reason) db = (mark_withdrawal_signer_retry o id reason db).1
apply_mark o id (fails reason) db = (mark_withdrawal_failed o id reason db).1
apply_mark o id (administers status reason) db = (set_withdrawal_status o id status reason db).1

unfoldable pub apply_marks : Outside → List (ℕ × Mark) → Db → Db
apply_marks o [] db = db
apply_marks o ((id, m) ∷ ms) db = apply_marks o ms (apply_mark o id m db)

apply_mark-fees_booked :
    (k : ℕ) (o : Outside) (id : ℕ) (m : Mark) (db : Db)
    → fees_booked k db ≤ 1
    → fees_booked k (apply_mark o id m db) ≤ 1
unfolding apply_mark mark_withdrawal_submitted mark_withdrawal_reconciled
    mark_withdrawal_signer_retry mark_withdrawal_failed
apply_mark-fees_booked k o id (submits ref status at) db h = h
apply_mark-fees_booked k o id (broadcasts txid ref status at) db h =
    let once = (book-KeepsOnce id).keeps k db h in
    let db' : Db =
      changed id (set_broadcasted o.now txid ref status at)
        (book_withdrawal_platform_fee_if_needed id db).1 in
    subst (λ (r : Result (Unit {0}) × Db). fees_booked k r.1 ≤ 1)
      (sym (broadcasted_lem o id txid ref status at db))
      (elim (Bool-cases (fee_is_known id db')) [
        | inl e ↦ rw e ((settle-KeepsOnce o.now false id).keeps k db' once)
        | inr e ↦ rw e once
      ])
apply_mark-fees_booked k o id (confirms txid ref status) db h =
    subst (λ (r : Result (Unit {0}) × Db). fees_booked k r.1 ≤ 1)
      (sym (confirmed_lem o id txid ref status db))
      ((settle-KeepsOnce o.now true id).keeps k _ ((book-KeepsOnce id).keeps k db h))
apply_mark-fees_booked k o id reconciles db h = h
apply_mark-fees_booked k o id (retries reason) db h =
    subst (λ t. t ≤ 1)
      (sym (
        run_if-fees_booked k id (is_some (find id db.withdrawals))
          (set_signer_retry o.now (o.sanitize_runtime_error 220 reason)) db))
      h
apply_mark-fees_booked k o id (fails reason) db h =
    subst (λ t. t ≤ 1) (sym (fail_row-fees_booked k o id reason (find id db.withdrawals) db)) h
apply_mark-fees_booked k o id (administers status reason) db h =
    subst (λ t. t ≤ 1) (sym (administered-fees_booked k o id status reason db)) h

-- Where a withdrawal's platform fee is booked once at most, it still is after any sequence of
-- status changes of any withdrawals, an administrator's and those that raise among them.
pub apply_marks-fees_booked :
    (k : ℕ) (o : Outside) (ms : List (ℕ × Mark)) (db : Db)
    → fees_booked k db ≤ 1
    → fees_booked k (apply_marks o ms db) ≤ 1
unfolding apply_marks
apply_marks-fees_booked k o [] db h = h
apply_marks-fees_booked k o ((id, m) ∷ ms) db h =
    apply_marks-fees_booked k o ms (apply_mark o id m db) (apply_mark-fees_booked k o id m db h)
