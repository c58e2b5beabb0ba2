-- ===== src/Wallet/Deposits/Once.antt =====
-- wallet_service.py: what a second report of the same transfer does.
use escrow_hub.Common.{
  ℕ, suc, ◌≤◌, ◌≡◌, refl, sym, ap, subst, ◌∙◌, Bool, true, false, Bool-cases, none, some,
  Option-cases, inl, inr, List, [], ◌∷◌, arith,
}
use escrow_hub.Text.{Text, text_eq_refl}
use escrow_hub.Asset.{Asset}
use escrow_hub.Decimal.{zero_amount, lt}
use escrow_hub.Outcome.{Result, ok, err}
use escrow_hub.Table.{find_where, update, Descends, update-Descends, find_where-update}
use escrow_hub.Db.{Db, Deposit, credited}
use escrow_hub.Wallet.Deposits.{
  Transfer, Amounts, has_key, is_credited, reported, credit_body, known_deposit, new_deposit,
  new_row, book_deposit, insert_deposit,
}

-- The row of a key, and that it is credited.
pub record Credited (key : Text) (db : Db) : Type 0 where
  pub id : ℕ
  pub row : Deposit
  pub found : find_where (has_key key) db.deposits ≡ some (id, row)
  pub status : is_credited row.status ≡ true

abbrev pub IsKeyed : Db → Type 0
IsKeyed db = Descends db.next_deposit db.deposits

-- The database after a report that books nothing.
abbrev pub noted : ℕ → Transfer → Amounts → Deposit → Db → Db
noted id t a d db = record db { deposits = update id (reported t a d.status) db.deposits }

abbrev pub credited_db : ℕ → Transfer → Amounts → Db → Db
credited_db id t a db = record db { deposits = update id (reported t a credited) db.deposits }

-- The database with the row of a new deposit.
abbrev pub inserted : ℕ → Transfer → Amounts → Db → Db
inserted user_id t a db = (insert_deposit user_id t a db).1

book_deposit-ok :
    (user_id : ℕ) (asset : Asset) (a : Amounts) (id : ℕ) (db : Db)
    → (book_deposit user_id asset a id db).0 ≡ ok tt
unfolding book_deposit
book_deposit-ok user_id asset a id db = elim (Bool-cases (lt zero_amount a.net)) [
  | inl p ↦ elim (Bool-cases (lt zero_amount a.fee)) [
    | inl q ↦ rw (p, q) refl
    | inr q ↦ rw (p, q) refl
  ]
  | inr p ↦ elim (Bool-cases (lt zero_amount a.fee)) [
    | inl q ↦ rw (p, q) refl
    | inr q ↦ rw (p, q) refl
  ]
]

module _ (user_id : ℕ) (t : Transfer) (a : Amounts) (db : Db) where
  pub report_new :
      find_where (has_key t.unique_key) db.deposits ≡ none
      → credit_body user_id t a db ≡ new_deposit user_id t a db
  unfolding credit_body
  report_new e = ground arith

  pub report_new_final :
      find_where (has_key t.unique_key) db.deposits ≡ none
      → t.finalized ≡ true
      → credit_body user_id t a db
        ≡ (ok true, (book_deposit user_id t.asset a db.next_deposit (inserted user_id t a db)).1)
  unfolding credit_body new_deposit
  report_new_final e f =
      let booked = book_deposit-ok user_id t.asset a db.next_deposit (inserted user_id t a db) in
      ground arith

  pub report_new_seen :
      find_where (has_key t.unique_key) db.deposits ≡ none
      → t.finalized ≡ false
      → credit_body user_id t a db ≡ (ok false, inserted user_id t a db)
  unfolding credit_body new_deposit
  report_new_seen e f = ground arith

  pub report_credited :
      {id : ℕ} {d : Deposit}
      → find_where (has_key t.unique_key) db.deposits ≡ some (id, d)
      → is_credited d.status ≡ true
      → credit_body user_id t a db ≡ (ok false, noted id t a d db)
  unfolding credit_body known_deposit
  report_credited e c = ground arith

  pub report_seen :
      {id : ℕ} {d : Deposit}
      → find_where (has_key t.unique_key) db.deposits ≡ some (id, d)
      → is_credited d.status ≡ false
      → t.finalized ≡ false
      → credit_body user_id t a db ≡ (ok false, noted id t a d db)
  unfolding credit_body known_deposit
  report_seen e c f = ground arith

  pub report_final :
      {id : ℕ} {d : Deposit}
      → find_where (has_key t.unique_key) db.deposits ≡ some (id, d)
      → is_credited d.status ≡ false
      → t.finalized ≡ true
      → credit_body user_id t a db
        ≡ (ok true, (book_deposit user_id t.asset a id (credited_db id t a db)).1)
  unfolding credit_body known_deposit
  report_final {id} e c f =
      let booked = book_deposit-ok user_id t.asset a id (credited_db id t a db) in ground arith

-- A report of a transfer that is credited already changes no account: it returns False, and the
-- row stays credited.
pub credit_again :
    (user_id : ℕ) (t : Transfer) (a : Amounts) (db : Db)
    → IsKeyed db
    → Credited t.unique_key db
    → ((credit_body user_id t a db).0 ≡ ok false)
      × ((credit_body user_id t a db).1.ledger_entries ≡ db.ledger_entries)
      × IsKeyed (credit_body user_id t a db).1
      × Credited t.unique_key (credit_body user_id t a db).1
credit_again user_id t a db keyed c = rw (report_credited user_id t a db c.found c.status) (
  refl,
  refl,
  update-Descends db.next_deposit c.id (reported t a c.row.status) db.deposits keyed,
  record {
    id = c.id;
    row = reported t a c.row.status c.row;
    found =
        find_where-update db.next_deposit (has_key t.unique_key) (reported t a c.row.status)
          db.deposits (λ _. refl) keyed c.found;
    status = c.status;
  },
)

book_deposit-deposits :
    (user_id : ℕ) (asset : Asset) (a : Amounts) (id : ℕ) (db : Db)
    → ((book_deposit user_id asset a id db).1.deposits ≡ db.deposits)
      × ((book_deposit user_id asset a id db).1.next_deposit ≡ db.next_deposit)
unfolding book_deposit
book_deposit-deposits user_id asset a id db = elim (Bool-cases (lt zero_amount a.net)) [
  | inl p ↦ elim (Bool-cases (lt zero_amount a.fee)) [
    | inl q ↦ rw (p, q) (refl, refl)
    | inr q ↦ rw (p, q) (refl, refl)
  ]
  | inr p ↦ elim (Bool-cases (lt zero_amount a.fee)) [
    | inl q ↦ rw (p, q) (refl, refl)
    | inr q ↦ rw (p, q) (refl, refl)
  ]
]

-- What a report leaves: keys in order, and after True a credited row.
pub record Reported (key : Text) (credits : Bool) (db : Db) : Type 0 where
  pub keyed : IsKeyed db
  pub now_credited : credits ≡ true → Credited key db

abbrev Leaves : Text → Result Bool × Db → Type 0
Leaves key r = (b : Bool) × (r.0 ≡ ok b) × Reported key b r.1

module _ (user_id : ℕ) (t : Transfer) (a : Amounts) (db : Db) (keyed : IsKeyed db) where
  new_final :
      t.finalized ≡ true
      → Reported t.unique_key true
          (book_deposit user_id t.asset a db.next_deposit (inserted user_id t a db)).1
  unfolding insert_deposit find_where
  new_final final =
      let (same, next) =
        book_deposit-deposits user_id t.asset a db.next_deposit (inserted user_id t a db) in
      record {
        keyed = rw (same, next) (omega arith, keyed);
        now_credited = λ _. record {
          id = db.next_deposit;
          row = new_row user_id t a;
          found = rw (same, text_eq_refl t.unique_key) refl;
          status = rw final refl;
        };
      }

  known_final :
      {id : ℕ} {d : Deposit}
      → find_where (has_key t.unique_key) db.deposits ≡ some (id, d)
      → Reported t.unique_key true (book_deposit user_id t.asset a id (credited_db id t a db)).1
  known_final {id} {d} found =
      let (same, next) = book_deposit-deposits user_id t.asset a id (credited_db id t a db) in
      record {
        keyed =
            rw (same, next)
              (update-Descends db.next_deposit id (reported t a credited) db.deposits keyed);
        now_credited = λ _. record {
          id = id;
          row = reported t a credited d;
          found = rw same (
              find_where-update db.next_deposit (has_key t.unique_key) (reported t a credited)
                db.deposits (λ _. refl) keyed found);
          status = refl;
        };
      }

  -- Every report returns True or False, and True only with a credited row.
  pub credit_body-Reported : Leaves t.unique_key (credit_body user_id t a db)
  unfolding insert_deposit
  credit_body-Reported = elim (Option-cases (find_where (has_key t.unique_key) db.deposits)) [
    | inl absent ↦ elim (Bool-cases t.finalized) [
      | inl final ↦ rw (report_new_final user_id t a db absent final) (true, refl, new_final final)
      | inr early ↦
          rw (report_new_seen user_id t a db absent early)
            (false, refl, record { keyed = (omega arith, keyed); now_credited = λ h. absurd (cc) })
    ]
    | inr ((id, d), found) ↦ elim (Bool-cases (is_credited d.status)) [
      | inl done ↦ rw (report_credited user_id t a db found done) (false, refl, noted_only id d)
      | inr undone ↦ elim (Bool-cases t.finalized) [
        | inl final ↦
            rw (report_final user_id t a db found undone final) (true, refl, known_final found)
        | inr early ↦
            rw (report_seen user_id t a db found undone early) (false, refl, noted_only id d)
      ]
    ]
  ]
    where
      noted_only : (id : ℕ) (d : Deposit) → Reported t.unique_key false (noted id t a d db)
      noted_only id d = record {
        keyed = update-Descends db.next_deposit id (reported t a d.status) db.deposits keyed;
        now_credited = λ h. absurd (cc);
      }

-- Reports of one transfer, with the user and the amounts that each of them carries; the number
-- of them that return True.
abbrev count_credit : Result Bool → ℕ → ℕ
count_credit (ok true) k = suc k
count_credit (ok false) k = k
count_credit (err e) k = k

unfoldable pub report_all : List (ℕ × Transfer × Amounts) → Db → ℕ
report_all [] db = 0
report_all ((user_id, t, a) ∷ rs) db =
    count_credit (credit_body user_id t a db).0 (report_all rs (credit_body user_id t a db).1)

abbrev pub AllOf : Text → List (ℕ × Transfer × Amounts) → Type 0
AllOf key [] = Unit {0}
AllOf key ((_, t, _) ∷ rs) = (t.unique_key ≡ key) × AllOf key rs

module _ (key : Text) where
  after_credit :
      (rs : List (ℕ × Transfer × Amounts)) (db : Db)
      → AllOf key rs
      → IsKeyed db
      → Credited key db
      → (report_all rs db ≡ 0)
  unfolding report_all
  after_credit [] db all keyed c = refl
  after_credit ((user_id, t, a) ∷ rs) db (same, all) keyed c =
      let c' : Credited t.unique_key db = subst (λ k. Credited k db) (sym same) c in
      let (r, _, keyed', c'') = credit_again user_id t a db keyed c' in
      ap (λ x. count_credit x (report_all rs (credit_body user_id t a db).1)) r
      ∙ after_credit rs (credit_body user_id t a db).1 all keyed'
          (subst (λ k. Credited k (credit_body user_id t a db).1) same c'')

  -- In a table of deposits whose keys fall from the newest row on, the reports of one
  -- transfer, however many and with whatever users, amounts and confirmations, credit it once
  -- at most.
  pub report_all-le :
      (rs : List (ℕ × Transfer × Amounts)) (db : Db)
      → AllOf key rs
      → IsKeyed db
      → report_all rs db ≤ 1
  unfolding report_all
  report_all-le [] db all keyed = omega arith
  report_all-le ((user_id, t, a) ∷ rs) db (same, all) keyed =
      let after : Db = (credit_body user_id t a db).1 in
      let (b, r, d) = credit_body-Reported user_id t a db keyed in
      subst (λ x. count_credit x (report_all rs after) ≤ 1) (sym r)
        (by_result b d (λ k. report_all-le rs after all k))
    where
      by_result :
          (b : Bool)
          → Reported t.unique_key b (credit_body user_id t a db).1
          → (IsKeyed (credit_body user_id t a db).1
              → report_all rs (credit_body user_id t a db).1 ≤ 1)
          → count_credit (ok b) (report_all rs (credit_body user_id t a db).1) ≤ 1
      by_result true d rest =
          let none_more =
            after_credit rs (credit_body user_id t a db).1 all d.keyed
              (subst (λ k. Credited k (credit_body user_id t a db).1) same (d.now_credited refl)) in
          omega (arith, none_more)
      by_result false d rest = rest d.keyed
