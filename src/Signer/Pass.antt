-- ===== src/Signer/Pass.antt =====
-- signer_service.py: a whole pass of the worker over the withdrawals.
use escrow_hub.Common.{
  leb, zero, suc, false, ℕ, ◌+◌, ◌≡◌, ◌∙◌, refl, ap, subst, sym, Bool, true, some, [], ◌∷◌,
  Bool-cases, Option-cases, inl, inr, arith, if◌then◌else◌, ◌==◌,
}
use escrow_hub.Text.{Text, take}
use escrow_hub.Wallet.Vault.{Vault, decrypt_text}
use escrow_hub.Outcome.{Result, ok, err, ok-injective}
use escrow_hub.Outside.{Outside}
use escrow_hub.Table.{Table, find}
use escrow_hub.Db.{Db, Action, Withdrawal, pure, gets, lift, ◌>>=◌}
use escrow_hub.Signer.{Provider, execute_single, reconcile_single}
use escrow_hub.Signer.Queue.{
  insert_by_age, by_age, Intervals, decrypted, with_destination, due_for_reconcile, is_pending,
  oldest_first, pending_withdrawals, unresolved_withdrawals_for_reconcile, for_each,
  process_withdrawals,
}
use escrow_hub.Signer.Handled.{AllOpen, Keeps, Ends, is_stored, is_handled, reads-Keeps, >>=-Keeps}
use escrow_hub.Signer.Attempt.{Finishes}
use escrow_hub.Signer.Single.{
  Works, execute_single-Works, execute_single-Ends, reconcile_single-Works,
}

-- A row of the queue.
data Listed (id : ℕ) : Table Withdrawal → Type 0 where
  first : {w : Withdrawal} {rows : Table Withdrawal} → Listed id ((id, w) ∷ rows)
  later :
      {j : ℕ} {w : Withdrawal} {rows : Table Withdrawal}
      → Listed id rows
      → Listed id ((j, w) ∷ rows)

taken-Listed :
    (id : ℕ) (wanted : Withdrawal → Bool) (rows taken : Table Withdrawal)
    → Listed id taken
    → Listed id (oldest_first wanted rows taken)
taken-Listed id wanted [] taken l = l
taken-Listed id wanted ((j, w) ∷ rows) taken l = elim (Bool-cases (wanted w)) [
  | inl e ↦ rw e (taken-Listed id wanted rows ((j, w) ∷ taken) (later l))
  | inr e ↦ rw e (taken-Listed id wanted rows taken l)
]

wanted-Listed :
    (id : ℕ) (wanted : Withdrawal → Bool) (rows taken : Table Withdrawal) {w : Withdrawal}
    → find id rows ≡ some w
    → wanted w ≡ true
    → Listed id (oldest_first wanted rows taken)
unfolding find
wanted-Listed id wanted [] taken found h = absurd (cc)
wanted-Listed id wanted ((j, v) ∷ rows) taken {w} found h = elim (Bool-cases (j == id)) [
  | inl e ↦
      let one : j ≡ id = ground arith in
      let same : v ≡ w = ground arith in
      let chosen : wanted v ≡ true = subst (λ u. wanted u ≡ true) (sym same) h in
      rw chosen (
        taken-Listed id wanted rows ((j, v) ∷ taken)
          (subst (λ i. Listed id ((i, v) ∷ taken)) (sym one) first))
  | inr e ↦
      wanted-Listed id wanted rows (if wanted v then (j, v) ∷ taken else taken) (rw e at found) h
]

bound {ℓ κ} :
    {A : Type ℓ} {B : Type κ} (r : Result A × Db) (f : A → Action B) {a : A}
    → r.0 ≡ ok a
    → (let r' : Result B × Db = elim r.0 [ ok a ↦ f a r.1 | err e ↦ (err e, r.1) ] in r') ≡ f a r.1
bound (ok b, db) f {a} h = ap (λ x. f x db) (ok-injective h)
bound (err e, db) f h = absurd (cc)

module _ (act : ℕ → Withdrawal → Action ℕ)
    (works : (id : ℕ) (w : Withdrawal) → Works (act id w)) where
  for_each-Keeps : (rows : Table Withdrawal) → Keeps (for_each act rows)
  unfolding for_each
  for_each-Keeps [] = reads-Keeps _ λ db. refl
  for_each-Keeps ((id, w) ∷ rows) = >>=-Keeps (act id w) _ (works id w).keeps λ one.
      >>=-Keeps (for_each act rows) (λ others. pure (one + others)) (for_each-Keeps rows)
        λ others. reads-Keeps (pure (one + others)) λ db. refl

  for_each-cons :
      (id : ℕ) (w : Withdrawal) (rows : Table Withdrawal) (db : Db) {one others : ℕ}
      → (act id w db).0 ≡ ok one
      → (for_each act rows (act id w db).1).0 ≡ ok others
      → for_each act ((id, w) ∷ rows) db
        ≡ (ok (one + others), (for_each act rows (act id w db).1).1)
  unfolding for_each
  for_each-cons id w rows db {one} {others} now rest =
      bound (act id w db) (λ n. for_each act rows >>= λ m. pure (n + m)) now
      ∙ bound (for_each act rows (act id w db).1) (λ m. pure (one + m)) rest

  for_each-Finishes : (rows : Table Withdrawal) → Finishes (for_each act rows)
  unfolding for_each
  for_each-Finishes [] = record { finishes = λ db. (0, refl) }
  for_each-Finishes ((id, w) ∷ rows) = record {
    finishes = λ db.
        let (one, now) = (works id w).finishes.finishes db in
        let (others, rest) = (for_each-Finishes rows).finishes (act id w db).1 in
        (one + others, ap (λ r. r.0) (for_each-cons id w rows db now rest));
  }

  for_each-handled :
      (id : ℕ) (rows : Table Withdrawal) (db : Db)
      → ((w : Withdrawal) → Ends id (act id w))
      → Listed id rows
      → is_stored id db ≡ true
      → is_handled id (for_each act rows db).1 ≡ true
  for_each-handled id ((j, w) ∷ rows) db ends first h =
      let (one, now) = (works id w).finishes.finishes db in
      let (others, rest) = (for_each-Finishes rows).finishes (act id w db).1 in
      let out = (ends w).ends db one h now in
      subst (λ (r : Result ℕ × Db). is_handled id r.1 ≡ true)
        (sym (for_each-cons id w rows db now rest))
        ((for_each-Keeps rows).handled id (act id w db).1 out)
  for_each-handled id ((j, w) ∷ rows) db ends (later l) h =
      let (one, now) = (works j w).finishes.finishes db in
      let (others, rest) = (for_each-Finishes rows).finishes (act j w db).1 in
      subst (λ (r : Result ℕ × Db). is_handled id r.1 ≡ true)
        (sym (for_each-cons j w rows db now rest))
        (for_each-handled id rows (act j w db).1 ends l ((works j w).keeps.stored id db h))
  for_each-handled id [] db ends l h = elim l [ ]

-- Rows that can be decrypted, and what comes of them.
module _ (v : Vault) where
  opened : (rows : Table Withdrawal) → AllOpen v rows → Table Withdrawal
  opened [] h = []
  opened ((id, w) ∷ rows) ((plain, opens), h) = (id, with_destination plain w) ∷ opened rows h

  decrypted-opened :
      (rows : Table Withdrawal) (h : AllOpen v rows) → decrypted v rows ≡ ok (opened rows h)
  unfolding decrypted opened
  decrypted-opened [] h = refl
  decrypted-opened ((id, w) ∷ rows) ((plain, opens), h) = rw (opens, decrypted-opened rows h) refl

  opened-Listed :
      (id : ℕ) (rows : Table Withdrawal) (h : AllOpen v rows)
      → Listed id rows
      → Listed id (opened rows h)
  unfolding opened
  opened-Listed id ((j, w) ∷ rows) (_, h) first = first
  opened-Listed id ((j, w) ∷ rows) (_, h) (later l) = later (opened-Listed id rows h l)
  opened-Listed id [] h l = elim l [ ]

  oldest_first-AllOpen :
      (wanted : Withdrawal → Bool) (rows taken : Table Withdrawal)
      → AllOpen v rows
      → AllOpen v taken
      → AllOpen v (oldest_first wanted rows taken)
  oldest_first-AllOpen wanted [] taken h k = k
  oldest_first-AllOpen wanted ((id, w) ∷ rows) taken (opens, h) k = elim (Bool-cases (wanted w)) [
    | inl e ↦ rw e (oldest_first-AllOpen wanted rows ((id, w) ∷ taken) h (opens, k))
    | inr e ↦ rw e (oldest_first-AllOpen wanted rows taken h k)
  ]

  insert_by_age-AllOpen :
      (id : ℕ) (w : Withdrawal) (rows : Table Withdrawal)
      → ((plain : Text) × (decrypt_text v w.destination_address ≡ ok plain))
      → AllOpen v rows
      → AllOpen v (insert_by_age (id, w) rows)
  unfolding insert_by_age
  insert_by_age-AllOpen id w [] opens h = (opens, tt)
  insert_by_age-AllOpen id w ((j, u) ∷ rows) opens (here, h) =
      elim (Bool-cases (leb u.created_at w.created_at)) [
        | inl e ↦ rw e (here, insert_by_age-AllOpen id w rows opens h)
        | inr e ↦ rw e (opens, (here, h))
      ]

  by_age-AllOpen :
      (wanted : Withdrawal → Bool) (rows : Table Withdrawal)
      → AllOpen v rows
      → AllOpen v (by_age wanted rows)
  unfolding by_age
  by_age-AllOpen wanted [] h = tt
  by_age-AllOpen wanted ((id, w) ∷ rows) (opens, h) = elim (Bool-cases (wanted w)) [
    | inl e ↦
        rw e (insert_by_age-AllOpen id w (by_age wanted rows) opens (by_age-AllOpen wanted rows h))
    | inr e ↦ rw e (by_age-AllOpen wanted rows h)
  ]

  take-AllOpen : (n : ℕ) (rows : Table Withdrawal) → AllOpen v rows → AllOpen v (take n rows)
  take-AllOpen zero rows h = tt
  take-AllOpen (suc n) [] h = tt
  take-AllOpen (suc n) ((id, w) ∷ rows) (opens, h) = (opens, take-AllOpen n rows h)

module _ (o : Outside) (p : Provider) where
  abbrev sends : ℕ → Withdrawal → Action ℕ
  sends id w = execute_single o p id w w.destination_address

  sends-Works : (id : ℕ) (w : Withdrawal) → Works (sends id w)
  sends-Works id w = execute_single-Works o p id w w.destination_address

  queue_opens :
      (db : Db)
      → AllOpen o.vault db.withdrawals
      → AllOpen o.vault (oldest_first is_pending db.withdrawals [])
  queue_opens db k = oldest_first-AllOpen o.vault is_pending db.withdrawals [] k tt

  abbrev queue : (db : Db) → AllOpen o.vault db.withdrawals → Table Withdrawal
  queue db k = opened o.vault (oldest_first is_pending db.withdrawals []) (queue_opens db k)

  out_handled :
      (id : ℕ) (db : Db) {w : Withdrawal}
      → find id db.withdrawals ≡ some w
      → is_pending w ≡ false
      → is_handled id db ≡ true
  out_handled id db there out = ground (arith, there, out)

  -- The first loop of a pass.
  queue_handled :
      (id : ℕ) (db : Db) (k : AllOpen o.vault db.withdrawals)
      → is_stored id db ≡ true
      → is_handled id (for_each sends (queue db k) db).1 ≡ true
  queue_handled id db k h = elim (Option-cases (find id db.withdrawals)) [
    | inl none_there ↦ absurd (ground arith)
    | inr (w, there) ↦ elim (Bool-cases (is_pending w)) [
      | inl pending ↦
          for_each-handled sends sends-Works id (queue db k) db
            (λ w. execute_single-Ends o p id w w.destination_address)
            (opened-Listed o.vault id _ (queue_opens db k)
              (wanted-Listed id is_pending db.withdrawals [] there pending))
            h
      | inr out ↦
          (for_each-Keeps sends sends-Works (queue db k)).handled id db
            (out_handled id db there out)
    ]
  ]

-- If the destination in every stored withdrawal can be decrypted, a pass of the worker with a provider that is ready
-- returns, whatever the provider answers to each request, and after it no withdrawal that was stored
-- before is pending: its row is still there, with another status.
pub process_withdrawals-handled :
    (o : Outside) (p : Provider) (i : Intervals) (id : ℕ) (db : Db)
    → AllOpen o.vault db.withdrawals
    → is_stored id db ≡ true
    → ((n : ℕ) × ((process_withdrawals o p i db).0 ≡ ok n))
      × (is_handled id (process_withdrawals o p i db).1 ≡ true)
unfolding process_withdrawals pending_withdrawals unresolved_withdrawals_for_reconcile
process_withdrawals-handled o p i id db k h =
    let first = sends o p in
    let first-Works = sends-Works o p in
    let asks : ℕ → Withdrawal → Action ℕ = λ id w. reconcile_single o p id w in
    let asks-Works : (id : ℕ) (w : Withdrawal) → Works (asks id w) =
      λ id w. reconcile_single-Works o p id w in
    let taken = queue o p db k in
    let sent : Db = (for_each first taken db).1 in
    let unresolved = take 100 (by_age (due_for_reconcile i o.now) sent.withdrawals) in
    let still : AllOpen o.vault unresolved = take-AllOpen o.vault 100 _ (
      by_age-AllOpen o.vault (due_for_reconcile i o.now) sent.withdrawals
        ((for_each-Keeps first first-Works taken).readable o.vault db k)) in
    let due = opened o.vault unresolved still in
    let (n, executed) = (for_each-Finishes first first-Works taken).finishes db in
    let (m, reconciled) = (for_each-Finishes asks asks-Works due).finishes sent in
    let all : process_withdrawals o p i db ≡ (ok (n + m), (for_each asks due sent).1) =
      bound (pending_withdrawals o.vault db, db)
        (λ rows. for_each first rows >>= λ n.
          gets (unresolved_withdrawals_for_reconcile o.vault i o.now 100) >>= λ found.
          lift found >>= λ rows. for_each asks rows >>= λ m. pure (n + m))
        (decrypted-opened o.vault (oldest_first is_pending db.withdrawals [])
          (queue_opens o p db k))
      ∙ bound (for_each first taken db)
          (λ n. gets (unresolved_withdrawals_for_reconcile o.vault i o.now 100) >>= λ found.
            lift found >>= λ rows. for_each asks rows >>= λ m. pure (n + m))
          executed
      ∙ bound (decrypted o.vault unresolved, sent)
          (λ rows. for_each asks rows >>= λ m. pure (n + m))
          (decrypted-opened o.vault unresolved still)
      ∙ bound (for_each asks due sent) (λ m. pure (n + m)) reconciled in
    (
      (n + m, ap (λ r. r.0) all),
      subst (λ (r : Result ℕ × Db). is_handled id r.1 ≡ true) (sym all)
          ((for_each-Keeps asks asks-Works due).handled id sent (queue_handled o p id db k h)),
    )
