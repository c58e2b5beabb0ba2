-- ===== src/Wallet/Users/Resolve.antt =====
-- What `_ensure_user_row` resolves a reference to, and that a second call resolves it alike.
use escrow_hub.Common.{
  ℕ, suc, ◌≡◌, refl, sym, Bool, false, none, some, [], ◌∷◌, ◌==◌, arith, Option-cases, Bool-cases,
  inl, inr,
}
use escrow_hub.Outcome.{ok}
use escrow_hub.Table.{Table, find, find_where}
use escrow_hub.Tenant.{insert_user, has_telegram_id}
use escrow_hub.Wallet.Users.{known_user, ensure_user_row}
use escrow_hub.Db.{Db, User}

-- The id that a reference resolves to.
unfoldable pub resolve_user : ℕ → Db → ℕ
resolve_user user_ref db = elim (known_user user_ref db.users) [
  | some id ↦ id
  | none ↦ db.next_user
]

abbrev pub new_user : ℕ → User
new_user user_ref = record { telegram_id = user_ref; username = none; frozen = false }

unfoldable pub users_after : ℕ → Db → Table User
users_after user_ref db = elim (known_user user_ref db.users) [
  | some id ↦ db.users
  | none ↦ (db.next_user, new_user user_ref) ∷ db.users
]

unfoldable pub next_user_after : ℕ → Db → ℕ
next_user_after user_ref db = elim (known_user user_ref db.users) [
  | some id ↦ db.next_user
  | none ↦ suc db.next_user
]

-- The database after the call: at most the table `users` has a new row.
abbrev pub after_ensure : ℕ → Db → Db
after_ensure user_ref db = record db {
  users = users_after user_ref db;
  next_user = next_user_after user_ref db;
}

pub ensure_user_row_lem :
    (user_ref : ℕ) (db : Db)
    → ensure_user_row user_ref db ≡ (ok (resolve_user user_ref db), after_ensure user_ref db)
unfolding ensure_user_row known_user resolve_user users_after next_user_after insert_user
ensure_user_row_lem user_ref db = ground arith

-- A row that a search finds is found by its key, though perhaps as an older row with that key.
find-find_where :
    (p : User → Bool) (t : Table User) (k : ℕ) (u : User)
    → find_where p t ≡ some (k, u)
    → (v : User) × (find k t ≡ some v)
unfolding find find_where
find-find_where p [] k u h = absurd (cc)
find-find_where p ((j, v) ∷ t) k u h = elim (Bool-cases (j == k)) [
  | inl e ↦ (v, rw e refl)
  | inr ne ↦ let (w, found) = find-find_where p t k u (ground arith) in (w, rw ne found)
]

known-known : (r id : ℕ) (t : Table User) → known_user r t ≡ some id → known_user id t ≡ some id
unfolding known_user
known-known r id t h = elim (Option-cases (find r t)) [
  | inr (u, e) ↦ let same : r ≡ id = ground arith in rw (sym same) (rw (e, known_user) refl)
  | inl e ↦ elim (Option-cases (find_where (has_telegram_id r) t)) [
    | inl e' ↦ absurd (ground arith)
    | inr ((k, u), e') ↦
        let same : k ≡ id = ground arith in
        let (v, found) = find-find_where (has_telegram_id r) t k u e' in
        rw (sym same) (rw (found, known_user) refl)
  ]
]

known_new : (k : ℕ) (u : User) (t : Table User) → known_user k ((k, u) ∷ t) ≡ some k
unfolding known_user find
known_new k u t = ground arith

pub known-resolved :
    (user_ref : ℕ) (db : Db)
    → known_user (resolve_user user_ref db) (users_after user_ref db)
      ≡ some (resolve_user user_ref db)
unfolding resolve_user users_after
known-resolved user_ref db = elim (Option-cases (known_user user_ref db.users)) [
  | inr (id, e) ↦ rw (e, resolve_user, users_after) (known-known user_ref id db.users e)
  | inl e ↦ rw (e, resolve_user, users_after) (known_new db.next_user (new_user user_ref) db.users)
]

pub known-again :
    (user_ref : ℕ) (db : Db)
    → known_user user_ref (users_after user_ref db) ≡ some (resolve_user user_ref db)
unfolding known_user resolve_user users_after find find_where
known-again user_ref db = ground arith
