-- ===== src/Signer/Handled.antt =====
-- The rows of withdrawals through the worker's actions: a row stays, and what left the queue stays out.
use escrow_hub.Common.{
  ap, ◌∙◌, [], ◌∷◌, ℕ, ◌≡◌, refl, sym, subst, Bool, true, false, not, none, some, Bool-cases,
  Option-cases, inl, inr, arith, ◌==◌,
}
use escrow_hub.Text.{Text}
use escrow_hub.Wallet.Vault.{Vault, decrypt_text}
use escrow_hub.Outcome.{Result, ok, err}
use escrow_hub.Table.{Table, find, update, find-update}
use escrow_hub.Db.{Db, Action, Withdrawal, ◌>>=◌}
use escrow_hub.Wallet.Withdrawals.Marks.{change}
use escrow_hub.Signer.Queue.{is_pending}

-- Whether the row is there.
abbrev pub is_stored : ℕ → Db → Bool
is_stored id db = elim (find id db.withdrawals) [ none ↦ false | some w ↦ true ]

-- Whether the row is there and no pass of the worker takes it from the queue.
abbrev pub is_handled : ℕ → Db → Bool
is_handled id db = elim (find id db.withdrawals) [ none ↦ false | some w ↦ not (is_pending w) ]

-- The destination in every row can be decrypted.
abbrev pub AllOpen : Vault → Table Withdrawal → Type 0
AllOpen v [] = Unit {0}
AllOpen v ((id, w) ∷ rows) =
    ((plain : Text) × (decrypt_text v w.destination_address ≡ ok plain)) × AllOpen v rows

-- Whatever withdrawal one looks at, the action keeps its row, and puts nothing in the queue; and the
-- destinations stay readable.
pub record Keeps {ℓ} {A : Type ℓ} (m : Action A) : Type ℓ where
  pub stored : (k : ℕ) (db : Db) → is_stored k db ≡ true → is_stored k (m db).1 ≡ true
  pub handled : (k : ℕ) (db : Db) → is_handled k db ≡ true → is_handled k (m db).1 ≡ true
  pub readable : (v : Vault) (db : Db) → AllOpen v db.withdrawals → AllOpen v (m db).1.withdrawals

-- If the action returns, the row is out of the queue.
pub record Ends {ℓ} {A : Type ℓ} (id : ℕ) (m : Action A) : Type ℓ where
  pub ends :
      (db : Db) (a : A) → is_stored id db ≡ true → (m db).0 ≡ ok a → is_handled id (m db).1 ≡ true

pub reads-Keeps {ℓ} : {A : Type ℓ} (m : Action A) → ((db : Db) → (m db).1 ≡ db) → Keeps m
reads-Keeps m same = record {
  stored = λ k db h. subst (λ (d : Db). is_stored k d ≡ true) (sym (same db)) h;
  handled = λ k db h. subst (λ (d : Db). is_handled k d ≡ true) (sym (same db)) h;
  readable = λ v db h. subst (λ (d : Db). AllOpen v d.withdrawals) (sym (same db)) h;
}

module _ {ℓ κ} {A : Type ℓ} {B : Type κ} (m : Action A) (f : A → Action B) where
  after_stored :
      (k : ℕ) (r : Result A × Db)
      → ((a : A) → Keeps (f a))
      → is_stored k r.1 ≡ true
      → (let r' : Result B × Db = elim r.0 [ ok a ↦ f a r.1 | err e ↦ (err e, r.1) ] in
          is_stored k r'.1 ≡ true)
  after_stored k (ok a, db) kf h = (kf a).stored k db h
  after_stored k (err e, db) kf h = h

  after_handled :
      (k : ℕ) (r : Result A × Db)
      → ((a : A) → Keeps (f a))
      → is_handled k r.1 ≡ true
      → (let r' : Result B × Db = elim r.0 [ ok a ↦ f a r.1 | err e ↦ (err e, r.1) ] in
          is_handled k r'.1 ≡ true)
  after_handled k (ok a, db) kf h = (kf a).handled k db h
  after_handled k (err e, db) kf h = h

  after_readable :
      (v : Vault) (r : Result A × Db)
      → ((a : A) → Keeps (f a))
      → AllOpen v r.1.withdrawals
      → (let r' : Result B × Db = elim r.0 [ ok a ↦ f a r.1 | err e ↦ (err e, r.1) ] in
          AllOpen v r'.1.withdrawals)
  after_readable v (ok a, db) kf h = (kf a).readable v db h
  after_readable v (err e, db) kf h = h

  pub >>=-Keeps : Keeps m → ((a : A) → Keeps (f a)) → Keeps (m >>= f)
  >>=-Keeps km kf = record {
    stored = λ k db h. after_stored k (m db) kf (km.stored k db h);
    handled = λ k db h. after_handled k (m db) kf (km.handled k db h);
    readable = λ v db h. after_readable v (m db) kf (km.readable v db h);
  }

  after-Ends :
      (id : ℕ) (r : Result A × Db) (b : B)
      → ((a : A) → Ends id (f a))
      → is_stored id r.1 ≡ true
      → (let r' : Result B × Db = elim r.0 [ ok a ↦ f a r.1 | err e ↦ (err e, r.1) ] in
          r'.0 ≡ ok b → is_handled id r'.1 ≡ true)
  after-Ends id (ok a, db) b ef h = λ returns. (ef a).ends db b h returns
  after-Ends id (err e, db) b ef h = λ returns. absurd (cc)

  pub >>=-Ends : {id : ℕ} → Keeps m → ((a : A) → Ends id (f a)) → Ends id (m >>= f)
  >>=-Ends {id} km ef = record {
    ends = λ db b h returns. after-Ends id (m db) b ef (km.stored id db h) returns;
  }

  ended :
      (id : ℕ) (r : Result A × Db) (b : B)
      → ((a : A) → r.0 ≡ ok a → is_handled id r.1 ≡ true)
      → ((a : A) → Keeps (f a))
      → (let r' : Result B × Db = elim r.0 [ ok a ↦ f a r.1 | err e ↦ (err e, r.1) ] in
          r'.0 ≡ ok b → is_handled id r'.1 ≡ true)
  ended id (ok a, db) b e kf = λ returns. (kf a).handled id db (e a refl)
  ended id (err e, db) b _ kf = λ returns. absurd (cc)

  pub Ends->>= : {id : ℕ} → Ends id m → ((a : A) → Keeps (f a)) → Ends id (m >>= f)
  Ends->>= {id} em kf = record {
    ends = λ db b h returns. ended id (m db) b (λ a r. em.ends db a h r) kf returns;
  }

-- An UPDATE of one row, which does not put it in the queue.
module _ (id : ℕ) (f : Withdrawal → Withdrawal) where
  found_stored :
      (k : ℕ) (rows : Table Withdrawal)
      → (elim (find k rows) [ none ↦ false | some w ↦ true ]) ≡ true
      → (elim (find k (update id f rows)) [ none ↦ false | some w ↦ true ]) ≡ true
  found_stored k rows h = rw (find-update k id f rows) (elim (Bool-cases (id == k)) [
    | inl e ↦ elim (Option-cases (find k rows)) [
      | inl n ↦ absurd (ground arith)
      | inr (w, s) ↦ rw (e, s) refl
    ]
    | inr e ↦ rw e h
  ])

  found_handled :
      (k : ℕ) (rows : Table Withdrawal)
      → ((w : Withdrawal) → is_pending w ≡ false → is_pending (f w) ≡ false)
      → (elim (find k rows) [ none ↦ false | some w ↦ not (is_pending w) ]) ≡ true
      → (elim (find k (update id f rows)) [ none ↦ false | some w ↦ not (is_pending w) ]) ≡ true
  found_handled k rows out h = rw (find-update k id f rows) (elim (Bool-cases (id == k)) [
    | inl e ↦ elim (Option-cases (find k rows)) [
      | inl n ↦ absurd (ground arith)
      | inr (w, s) ↦ rw (e, s) (ground (arith, out w))
    ]
    | inr e ↦ rw e h
  ])

  found_ended :
      (rows : Table Withdrawal)
      → ((w : Withdrawal) → is_pending (f w) ≡ false)
      → (elim (find id rows) [ none ↦ false | some w ↦ true ]) ≡ true
      → (elim (find id (update id f rows)) [ none ↦ false | some w ↦ not (is_pending w) ]) ≡ true
  found_ended rows out h = rw (find-update id id f rows) (elim (Option-cases (find id rows)) [
    | inl n ↦ absurd (ground arith)
    | inr (w, s) ↦ ground (arith, out w)
  ])

pub same_rows-Keeps {ℓ} :
    {A : Type ℓ} (m : Action A) → ((db : Db) → (m db).1.withdrawals ≡ db.withdrawals) → Keeps m
same_rows-Keeps m same = record {
  stored = λ k db h. rw (same db) h;
  handled = λ k db h. rw (same db) h;
  readable = λ v db h. subst (AllOpen v) (sym (same db)) h;
}

update-AllOpen :
    (v : Vault) (id : ℕ) (f : Withdrawal → Withdrawal) (rows : Table Withdrawal)
    → ((w : Withdrawal) → (f w).destination_address ≡ w.destination_address)
    → AllOpen v rows
    → AllOpen v (update id f rows)
unfolding update
update-AllOpen v id f [] same h = tt
update-AllOpen v id f ((j, w) ∷ rows) same ((plain, opened), rest) = elim (Bool-cases (j == id)) [
  | inl e ↦ rw e ((plain, ap (decrypt_text v) (same w) ∙ opened), rest)
  | inr e ↦ rw e ((plain, opened), update-AllOpen v id f rows same rest)
]

pub change-Keeps :
    (id : ℕ) (f : Withdrawal → Withdrawal)
    → ((w : Withdrawal) → is_pending w ≡ false → is_pending (f w) ≡ false)
    → ((w : Withdrawal) → (f w).destination_address ≡ w.destination_address)
    → Keeps (change id f)
unfolding change
change-Keeps id f out same = record {
  stored = λ k db h. found_stored id f k db.withdrawals h;
  handled = λ k db h. found_handled id f k db.withdrawals out h;
  readable = λ v db h. update-AllOpen v id f db.withdrawals same h;
}

pub change-Ends :
    (id : ℕ) (f : Withdrawal → Withdrawal)
    → ((w : Withdrawal) → is_pending (f w) ≡ false)
    → Ends id (change id f)
unfolding change
change-Ends id f out = record { ends = λ db a h returns. found_ended id f db.withdrawals out h }
