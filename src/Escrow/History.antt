-- ===== src/Escrow/History.antt =====
-- Any sequence of calls of the escrow service on one connection, failed calls included.
use escrow_hub.Common.{
  ℕ, ◌≡◌, refl, ap, ◌∙◌, some, List, [], ◌∷◌, inl, inr, arith, true, false, Bool-cases,
}
use escrow_hub.Text.{Text}
use escrow_hub.Asset.{Asset}
use escrow_hub.Decimal.{Decimal}
use escrow_hub.Fee.{FeeBreakdown}
use escrow_hub.Settings.{Settings}
use escrow_hub.Price.{Quotes}
use escrow_hub.Outcome.{Error, Result, ok, err, Result-cases}
use escrow_hub.Table.{find}
use escrow_hub.Db.{Db, Action, Lock, EscrowRow, EscrowStatus, released, Resolution}
use escrow_hub.Db.Transaction.{
  Connection, Call, IsSettled, transaction, reads, pure, transaction_ok, transaction_err,
  transaction-IsSettled,
}
use escrow_hub.Escrow.{with_status}
use escrow_hub.Escrow.Checks.{create_checks}
use escrow_hub.Escrow.Create.{create_body, accept_body, read_view}
use escrow_hub.Escrow.Settle.{release_body, cancel_body, cancel_mutual_body}
use escrow_hub.Escrow.Dispute.{dispute_body, resolve_body}
use escrow_hub.Escrow.Service.{
  create_escrow, accept_escrow, release, released_view, dispute, cancel_escrow,
  cancel_escrow_mutual, resolve_dispute, mem_id,
}
use escrow_hub.Escrow.Linked.{held_status, has_lock}
use escrow_hub.Escrow.Life.{
  Follows, stays, disputes_pending, disputes_active, completes, IsSound, Steps, create_body-Steps,
  accept_body-Steps, dispute_body-Steps, cancel_body-Steps, cancel_mutual_body-Steps,
  release_body-Steps, resolve_body-Steps,
}

pub data Request : Type 0 where
  creates : ℕ → ℕ → ℕ → Asset → Decimal → Text → Request
  accepts releases cancels : ℕ → ℕ → Request
  disputes : ℕ → ℕ → Text → Request
  cancels_mutually : ℕ → ℕ → ℕ → Request
  resolves : ℕ → ℕ → Resolution → Decimal → Request

-- A call, with its result dropped.
unfoldable pub serve : Settings → Quotes → Request → Connection → Connection
serve s q (creates bot buyer seller asset amount text) c =
    (create_escrow s q bot buyer seller asset amount text c).1
serve s q (accepts id actor) c = (accept_escrow s id actor c).1
serve s q (releases id actor) c = (release s id actor c).1
serve s q (cancels id actor) c = (cancel_escrow id actor c).1
serve s q (disputes id actor reason) c = (dispute id actor reason c).1
serve s q (cancels_mutually id requester responder) c =
    (cancel_escrow_mutual id requester responder c).1
serve s q (resolves id admin resolution percent) c =
    (resolve_dispute s id admin resolution percent c).1

unfoldable pub run : Settings → Quotes → List Request → Connection → Connection
run s q [] c = c
run s q (r ∷ rs) c = run s q rs (serve s q r c)

-- What a call keeps: a settled connection, and the steps of the rows.
pub record Serves (c c' : Connection) : Type 0 where
  pub settled : IsSettled c'
  pub steps : Steps c.working c'.working

same-Steps : {db : Db} → IsSound db → Steps db db
same-Steps v = record { sound = v; follows = λ id row found. (row.status, found, stays) }

same-Serves : {c : Connection} → IsSettled c → IsSound c.working → Serves c c
same-Serves s v = record { settled = s; steps = same-Steps v }

transaction-Serves {ℓ} :
    {A : Type ℓ} (body : Action A) (c : Connection)
    → IsSettled c
    → IsSound c.working
    → ((a : A) → (body c.working).0 ≡ ok a → Steps c.working (body c.working).1)
    → Serves c (transaction body c).1
transaction-Serves body c s v keeps = elim (Result-cases (transaction body c).0) [
  | inl (a, e) ↦
      let (done, after, _, _) = transaction_ok body c e in
      record { settled = transaction-IsSettled body c s; steps = rw after (keeps a done) }
  | inr (x, e) ↦
      let (same, _, _) = transaction_err body c s e in
      record { settled = transaction-IsSettled body c s; steps = rw same (same-Steps v) }
]

-- A call followed by one that writes nothing.
then_pure {ℓ κ} :
    {A : Type ℓ} {B : Type κ} (f : A → Call B)
    → ((a : A) (c : Connection) → (f a c).1 ≡ c)
    → (r : Result A) (c : Connection)
    → (let r' : Result B × Connection = elim r [ ok a ↦ f a c | err e ↦ (err e, c) ] in r'.1) ≡ c
then_pure f h (ok a) c = h a c
then_pure f h (err e) c = refl

module _ (s : Settings) (q : Quotes) (bot buyer seller : ℕ) (asset : Asset) (amount : Decimal)
    (text : Text) (c : Connection) where
  create_refused :
      {x : Error}
      → create_checks s q bot buyer seller asset amount text c.working ≡ err x
      → (create_escrow s q bot buyer seller asset amount text c).1 ≡ c
  unfolding create_escrow
  create_refused e = ground arith

  create_checked :
      {fees : FeeBreakdown} {t : Text}
      → create_checks s q bot buyer seller asset amount text c.working ≡ ok (fees, t)
      → (create_escrow s q bot buyer seller asset amount text c).1
        ≡ (transaction (create_body bot buyer seller asset amount t) c).1
  unfolding create_escrow
  create_checked {fees} {t} e =
      elim (Result-cases (transaction (create_body bot buyer seller asset amount t) c).0) [
        | inl (id, done) ↦ ground arith
        | inr (x, failed) ↦ ground arith
      ]

module _ (s : Settings) (id admin : ℕ) (resolution : Resolution) (percent : Decimal)
    (c : Connection) where
  resolve_refused :
      mem_id admin s.moderator_ids ≡ false → (resolve_dispute s id admin resolution percent c).1 ≡ c
  unfolding resolve_dispute
  resolve_refused e = ground arith

  pub resolve_allowed :
      mem_id admin s.moderator_ids ≡ true
      → (resolve_dispute s id admin resolution percent c).1
        ≡ (transaction (resolve_body s id admin resolution percent) c).1
  unfolding resolve_dispute
  resolve_allowed e = ground arith

-- On a settled connection whose locks are in step with its escrows, every call of the service,
-- whether it returns or raises, keeps the connection settled and the locks in step, and takes
-- every escrow to a status that may follow, with nothing else in its row changed.
pub serve-Serves :
    (s : Settings) (q : Quotes) (r : Request) (c : Connection)
    → IsSettled c
    → IsSound c.working
    → Serves c (serve s q r c)
unfolding serve create_escrow accept_escrow release cancel_escrow dispute cancel_escrow_mutual
    resolve_dispute
serve-Serves s q (creates bot buyer seller asset amount text) c n v =
    elim (Result-cases (create_checks s q bot buyer seller asset amount text c.working)) [
      | inr (x, e) ↦
          rw (create_refused s q bot buyer seller asset amount text c e) (same-Serves n v)
      | inl ((fees, t), e) ↦ rw (create_checked s q bot buyer seller asset amount text c e) (
          transaction-Serves (create_body bot buyer seller asset amount t) c n v
            (λ _ h. create_body-Steps bot buyer seller asset amount t c.working v h))
    ]
serve-Serves s q (accepts id actor) c n v =
    rw
      (then_pure (λ _. reads (read_view s id)) (λ _ _. refl)
        (transaction (accept_body id actor) c).0 (transaction (accept_body id actor) c).1)
      (transaction-Serves (accept_body id actor) c n v
        (λ _ h. accept_body-Steps id actor c.working v h))
serve-Serves s q (releases id actor) c n v =
    rw
      (then_pure (λ r. pure (released_view id r.0 r.1)) (λ _ _. refl)
        (transaction (release_body s id actor) c).0 (transaction (release_body s id actor) c).1)
      (transaction-Serves (release_body s id actor) c n v
        (λ _ h. release_body-Steps s id actor c.working v h))
serve-Serves s q (cancels id actor) c n v =
    transaction-Serves (cancel_body id actor) c n v
      (λ _ h. cancel_body-Steps id actor c.working v h)
serve-Serves s q (disputes id actor reason) c n v =
    transaction-Serves (dispute_body id actor reason) c n v
      (λ _ h. dispute_body-Steps id actor reason c.working v h)
serve-Serves s q (cancels_mutually id requester responder) c n v =
    transaction-Serves (cancel_mutual_body id requester responder) c n v
      (λ _ h. cancel_mutual_body-Steps id requester responder c.working v h)
serve-Serves s q (resolves id admin resolution percent) c n v =
    elim (Bool-cases (mem_id admin s.moderator_ids)) [
      | inr outsider ↦
          rw (resolve_refused s id admin resolution percent c outsider) (same-Serves n v)
      | inl moderator ↦ rw (resolve_allowed s id admin resolution percent c moderator) (
          transaction-Serves (resolve_body s id admin resolution percent) c n v
            (λ _ h. resolve_body-Steps s id admin resolution percent c.working v h))
    ]

-- The statuses that an escrow may come to.
pub data Leads : EscrowStatus → EscrowStatus → Type 0 where
  here : {s : EscrowStatus} → Leads s s
  further : {s t u : EscrowStatus} → Follows s t → Leads t u → Leads s u

-- After any calls: the invariant, and every row with the status alone moved along.
pub record Runs (c c' : Connection) : Type 0 where
  pub settled : IsSettled c'
  pub sound : IsSound c'.working
  pub leads :
      (id : ℕ) (row : EscrowRow)
      → find id c.working.escrows ≡ some row
      → (s : EscrowStatus) × (find id c'.working.escrows ≡ some (with_status s row))
        × Leads row.status s

pub run-Runs :
    (s : Settings) (q : Quotes) (rs : List Request) (c : Connection)
    → IsSettled c
    → IsSound c.working
    → Runs c (run s q rs c)
unfolding run
run-Runs s q [] c n v = record {
  settled = n;
  sound = v;
  leads = λ id row found. (row.status, found, here);
}
run-Runs s q (r ∷ rs) c n v =
    let one = serve-Serves s q r c n v in
    let rest = run-Runs s q rs (serve s q r c) one.settled one.steps.sound in
    record {
      settled = rest.settled;
      sound = rest.sound;
      leads = λ id row found.
          let (t, found', f) = one.steps.follows id row found in
          let (u, found'', l) = rest.leads id (with_status t row) found' in
          (u, found'', further f l);
    }

-- A status from which no other follows.
abbrev pub IsFinal : EscrowStatus → Type 0
IsFinal s = held_status s ≡ released

Follows-final : {s t : EscrowStatus} → Follows s t → IsFinal s → t ≡ s
Follows-final stays h = refl
Follows-final Follows.accepts h = absurd (cc)
Follows-final disputes_pending h = absurd (cc)
Follows-final disputes_active h = absurd (cc)
Follows-final completes h = absurd (cc)
Follows-final Follows.resolves h = absurd (cc)
Follows-final Follows.cancels h = absurd (cc)
Follows-final Follows.cancels_mutually h = absurd (cc)

Leads-final : {s t : EscrowStatus} → Leads s t → IsFinal s → t ≡ s
Leads-final here h = refl
Leads-final (further f l) h = let e = Follows-final f h in Leads-final l (rw e h) ∙ e

-- On a settled connection whose locks are in step with its escrows, an escrow that is
-- completed or cancelled is so for good: whatever calls follow, its row stays as it is and its
-- lock stays released, so its funds are let go once at most.
pub run-final :
    (s : Settings) (q : Quotes) (rs : List Request) (c : Connection) (id : ℕ) (row : EscrowRow)
    → IsSettled c
    → IsSound c.working
    → find id c.working.escrows ≡ some row
    → IsFinal row.status
    → (find id (run s q rs c).working.escrows ≡ some row)
      × ((l : Lock) × (find id (run s q rs c).working.escrow_locks ≡ some l)
          × (l.status ≡ released))
run-final s q rs c id row n v found final =
    let after = run-Runs s q rs c n v in
    let (t, found', l) = after.leads id row found in
    let same : t ≡ row.status = Leads-final l final in
    let kept : find id (run s q rs c).working.escrows ≡ some row =
      found' ∙ ap (λ x. some (with_status x row)) same in
    let (lock, lock_found, _, _, st) = has_lock after.sound id kept in
    (kept, (lock, lock_found, st ∙ final))
