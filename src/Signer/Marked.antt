-- ===== src/Signer/Marked.antt =====
-- What the status changes of a withdrawal do to the queue.
use escrow_hub.Common.{
  ℕ, ◌≡◌, refl, Bool, true, false, Option, none, some, Bool-cases, Option-cases, inl, inr, arith,
}
use escrow_hub.Text.{Text}
use escrow_hub.Decimal.{lt, zero_amount}
use escrow_hub.Outside.{Outside}
use escrow_hub.Table.{find}
use escrow_hub.Tenant.{is_some}
use escrow_hub.Ledger.{add_entry, reserved_amount}
use escrow_hub.Db.{
  Db, Action, Withdrawal, run_if, gets, ◌>>=◌, user, withdrawal_release, withdrawal_ref,
}
use escrow_hub.Wallet.Withdrawals.Fees.{
  withdrawal_fee_booked, book_fee, actual_fee, fee_delta, settled_at, needs_settlement, book_delta,
  settle_fee, book_withdrawal_platform_fee_if_needed, settle_withdrawal_network_fee_if_needed,
}
use escrow_hub.Wallet.Withdrawals.FeesOnce.{settles_unknown, settles_not, settles}
use escrow_hub.Wallet.Withdrawals.Marks.{
  change, set_broadcasted, set_confirmed, set_submitted, set_failed, set_signer_retry, fee_is_known,
  mark_withdrawal_broadcasted, mark_withdrawal_confirmed, mark_withdrawal_submitted,
  mark_withdrawal_reconciled, mark_withdrawal_signer_retry, mark_withdrawal_failed, fail_row,
  set_reconciled,
}
use escrow_hub.Signer.Queue.{is_pending}
use escrow_hub.Signer.Handled.{
  Keeps, Ends, is_stored, same_rows-Keeps, reads-Keeps, change-Keeps, change-Ends, >>=-Keeps,
  >>=-Ends, Ends->>=,
}

run_if-Keeps : (c : Bool) (m : Action (Unit {0})) → Keeps m → Keeps (run_if c m)
run_if-Keeps true m k = k
run_if-Keeps false m k = reads-Keeps (run_if false m) (λ db. refl)

book_fee-rows :
    (id : ℕ) (o : Option Withdrawal) (db : Db) → (book_fee id o db).1.withdrawals ≡ db.withdrawals
unfolding book_fee
book_fee-rows id none db = refl
book_fee-rows id (some w) db = elim (Bool-cases (lt zero_amount w.platform_fee_amount)) [
  | inl p ↦ rw p refl
  | inr p ↦ rw p refl
]

book-Keeps : (id : ℕ) → Keeps (book_withdrawal_platform_fee_if_needed id)
unfolding book_withdrawal_platform_fee_if_needed
book-Keeps id = same_rows-Keeps (book_withdrawal_platform_fee_if_needed id) λ db.
    elim (Bool-cases (withdrawal_fee_booked id db)) [
      | inl b ↦ rw b refl
      | inr b ↦ rw b (book_fee-rows id (find id db.withdrawals) db)
    ]

book_delta-rows :
    (id : ℕ) (w : Withdrawal) (db : Db) → (book_delta id w db).1.withdrawals ≡ db.withdrawals
unfolding book_delta
book_delta-rows id w db = elim (Bool-cases (lt (fee_delta w) zero_amount)) [
  | inl p ↦ rw p refl
  | inr p ↦ elim (Bool-cases (lt zero_amount (fee_delta w))) [
    | inl q ↦ rw (p, q) refl
    | inr q ↦ rw (p, q) refl
  ]
]

settle_fee-Keeps : (now id : ℕ) (w : Withdrawal) → Keeps (settle_fee now id w)
unfolding settle_fee change
settle_fee-Keeps now id w =
    >>=-Keeps _ _ (run_if-Keeps (lt zero_amount (actual_fee w)) _ (same_rows-Keeps _ λ db. refl))
      λ _.
        >>=-Keeps _ _ (same_rows-Keeps (book_delta id w) (book_delta-rows id w))
          λ _. change-Keeps id (settled_at now) (λ w h. h) (λ w. refl)

settle-Keeps :
    (now : ℕ) (force : Bool) (id : ℕ) → Keeps (settle_withdrawal_network_fee_if_needed now force id)
settle-Keeps now force id = record {
  stored = λ k db h. elim (Option-cases (find id db.withdrawals)) [
    | inl e ↦ rw (settles_unknown now force id db e) h
    | inr (w, e) ↦ elim (Bool-cases (needs_settlement force id w db)) [
      | inl n ↦ rw (settles now force id db e n) ((settle_fee-Keeps now id w).stored k db h)
      | inr n ↦ rw (settles_not now force id db e n) h
    ]
  ];
  handled = λ k db h. elim (Option-cases (find id db.withdrawals)) [
    | inl e ↦ rw (settles_unknown now force id db e) h
    | inr (w, e) ↦ elim (Bool-cases (needs_settlement force id w db)) [
      | inl n ↦ rw (settles now force id db e n) ((settle_fee-Keeps now id w).handled k db h)
      | inr n ↦ rw (settles_not now force id db e n) h
    ]
  ];
  readable = λ v db h. elim (Option-cases (find id db.withdrawals)) [
    | inl e ↦ rw (settles_unknown now force id db e) h
    | inr (w, e) ↦ elim (Bool-cases (needs_settlement force id w db)) [
      | inl n ↦ rw (settles now force id db e n) ((settle_fee-Keeps now id w).readable v db h)
      | inr n ↦ rw (settles_not now force id db e n) h
    ]
  ];
}

-- A status change that leaves the row out of the queue.
pub record Takes (id : ℕ) (m : Action (Unit {0})) : Type 0 where
  pub keeps : Keeps m
  pub ends : Ends id m

change-Takes :
    (id : ℕ) (f : Withdrawal → Withdrawal)
    → ((w : Withdrawal) → is_pending (f w) ≡ false)
    → ((w : Withdrawal) → (f w).destination_address ≡ w.destination_address)
    → Takes id (change id f)
change-Takes id f out same = record {
  keeps = change-Keeps id f (λ w h. out w) same;
  ends = change-Ends id f out;
}

pub mark_withdrawal_submitted-Takes :
    (o : Outside) (id : ℕ) (ref status : Option Text) (at : Option ℕ)
    → Takes id (mark_withdrawal_submitted o id ref status at)
unfolding mark_withdrawal_submitted
mark_withdrawal_submitted-Takes o id ref status at =
    change-Takes id (set_submitted o.now ref status at) (λ w. refl) (λ w. refl)

pub mark_withdrawal_broadcasted-Takes :
    (o : Outside) (id : ℕ) (txid : Text) (ref status : Option Text) (at : Option ℕ)
    → Takes id (mark_withdrawal_broadcasted o id txid ref status at)
unfolding mark_withdrawal_broadcasted change
mark_withdrawal_broadcasted-Takes o id txid ref status at =
    let row = change-Takes id (set_broadcasted o.now txid ref status at) (λ w. refl) (λ w. refl) in
    let rest : Keeps (
        gets (fee_is_known id) >>= λ known.
        run_if known (settle_withdrawal_network_fee_if_needed o.now false id)) =
      >>=-Keeps _ _ (reads-Keeps (gets (fee_is_known id)) λ db. refl)
        λ known. run_if-Keeps known _ (settle-Keeps o.now false id) in
    record {
      keeps = >>=-Keeps _ _ (book-Keeps id) λ _. >>=-Keeps _ _ row.keeps λ _. rest;
      ends = >>=-Ends _ _ (book-Keeps id) λ _. Ends->>= _ _ row.ends λ _. rest;
    }

pub mark_withdrawal_confirmed-Takes :
    (o : Outside) (id : ℕ) (txid : Text) (ref status : Option Text)
    → Takes id (mark_withdrawal_confirmed o id txid ref status)
unfolding mark_withdrawal_confirmed change
mark_withdrawal_confirmed-Takes o id txid ref status =
    let row = change-Takes id (set_confirmed o.now txid ref status) (λ w. refl) (λ w. refl) in
    record {
      keeps =
          >>=-Keeps _ _ (book-Keeps id)
            λ _. >>=-Keeps _ _ row.keeps λ _. settle-Keeps o.now true id;
      ends =
          >>=-Ends _ _ (book-Keeps id) λ _. Ends->>= _ _ row.ends λ _. settle-Keeps o.now true id;
    }

none_stored : (id : ℕ) (db : Db) → find id db.withdrawals ≡ none → is_stored id db ≡ true → ⊥
none_stored id db e h = absurd (ground arith)

pub mark_withdrawal_signer_retry-Takes :
    (o : Outside) (id : ℕ) (reason : Text) → Takes id (mark_withdrawal_signer_retry o id reason)
unfolding mark_withdrawal_signer_retry change
mark_withdrawal_signer_retry-Takes o id reason =
    let retried = set_signer_retry o.now (o.sanitize_runtime_error 220 reason) in
    let row = change-Takes id retried (λ w. refl) (λ w. refl) in
    record {
      keeps =
          >>=-Keeps (gets (λ db. find id db.withdrawals)) _ (reads-Keeps _ λ db. refl)
            λ found. run_if-Keeps (is_some found) _ row.keeps;
      ends = record {
        ends = λ db a h returns. elim (Option-cases (find id db.withdrawals)) [
          | inl e ↦ absurd (none_stored id db e h)
          | inr (w, e) ↦ rw e (row.ends.ends db a h refl)
        ];
      };
    }

fail_row-Keeps :
    (o : Outside) (id : ℕ) (reason : Text) (row : Option Withdrawal)
    → Keeps (fail_row o id reason row)
unfolding fail_row change
fail_row-Keeps o id reason none = reads-Keeps _ λ db. refl
fail_row-Keeps o id reason (some w) =
    >>=-Keeps _ _
      (change-Takes id (set_failed (o.sanitize_runtime_error 220 reason)) (λ w. refl)
        (λ w. refl)).keeps
      λ _.
        same_rows-Keeps
          (add_entry user (some w.user_id) (some w.user_id) w.asset (reserved_amount w)
            withdrawal_release withdrawal_ref id)
          λ db. refl

pub mark_withdrawal_failed-Takes :
    (o : Outside) (id : ℕ) (reason : Text) → Takes id (mark_withdrawal_failed o id reason)
unfolding mark_withdrawal_failed fail_row change
mark_withdrawal_failed-Takes o id reason =
    let failed = set_failed (o.sanitize_runtime_error 220 reason) in
    let row = change-Takes id failed (λ w. refl) (λ w. refl) in
    record {
      keeps =
          >>=-Keeps (gets (λ db. find id db.withdrawals)) _ (reads-Keeps _ λ db. refl)
            (fail_row-Keeps o id reason);
      ends = record {
        ends = λ db a h returns. elim (Option-cases (find id db.withdrawals)) [
          | inl e ↦ absurd (none_stored id db e h)
          | inr (w, e) ↦ rw e (row.ends.ends db a h refl)
        ];
      };
    }

pub mark_withdrawal_reconciled-Keeps :
    (o : Outside) (id : ℕ) → Keeps (mark_withdrawal_reconciled o id)
unfolding mark_withdrawal_reconciled
mark_withdrawal_reconciled-Keeps o id =
    change-Keeps id (set_reconciled o.now) (λ w h. h) (λ w. refl)
