-- ===== src/Escrow/Linked.antt =====
-- The tables `escrows` and `escrow_locks` move together: the invariant of the escrow service.
use escrow_hub.Common.{
  ℕ, suc, ◌≤◌, ◌≡◌, refl, sym, subst, ◌∙◌, Option, none, some, ◌∷◌, ◌==◌, ==_iff, arith, Bool-cases,
  inl, inr,
}
use escrow_hub.Table.{Table, find, update, map_option, find-update}
use escrow_hub.Wallet.Locks.{set_released}
use escrow_hub.Db.{
  Lock, LockStatus, locked, released, EscrowRow, EscrowStatus, pending, active, completed,
  cancelled, disputed,
}
use escrow_hub.Escrow.{with_status}

-- An escrow's funds are held until it is completed or cancelled.
abbrev pub held_status : EscrowStatus → LockStatus
held_status pending = locked
held_status active = locked
held_status disputed = locked
held_status completed = released
held_status cancelled = released

-- The lock under an escrow's id is for its amount and asset, and is held as its status says.
abbrev pub Linked : Option EscrowRow → Option Lock → Type 0
Linked none none = Unit {0}
Linked none (some l) = ⊥
Linked (some row) none = ⊥
Linked (some row) (some l) =
    (l.amount ≡ row.amount) × (l.asset ≡ row.asset) × (l.status ≡ held_status row.status)

pub record AreLinked (escrows : Table EscrowRow) (locks : Table Lock) (next : ℕ) : Type 0 where
  pub linked : (id : ℕ) → Linked (find id escrows) (find id locks)
  pub fresh : (id : ℕ) → next ≤ id → find id escrows ≡ none

pub no_lock : (a : Option EscrowRow) (b : Option Lock) → Linked a b → a ≡ none → b ≡ none
no_lock none none h e = refl
no_lock none (some l) h e = absurd h
no_lock (some row) b h e = absurd (cc)

-- The lock of an escrow that exists.
pub its_lock :
    (row : EscrowRow) (b : Option Lock)
    → Linked (some row) b
    → (l : Lock) × (b ≡ some l)
      × (l.amount ≡ row.amount)
      × (l.asset ≡ row.asset)
      × (l.status ≡ held_status row.status)
its_lock row none h = absurd h
its_lock row (some l) h = (l, refl, h.0, h.1, h.2)

Linked-status :
    (s : EscrowStatus) (a : Option EscrowRow) (b : Option Lock)
    → Linked a b
    → ((row : EscrowRow) → a ≡ some row → held_status s ≡ held_status row.status)
    → Linked (map_option (with_status s) a) b
Linked-status s none none h same = h
Linked-status s none (some l) h same = absurd h
Linked-status s (some row) none h same = absurd h
Linked-status s (some row) (some l) h same = (h.0, h.1, h.2 ∙ sym (same row refl))

Linked-settle :
    (s : EscrowStatus) (a : Option EscrowRow) (b : Option Lock)
    → Linked a b
    → held_status s ≡ released
    → Linked (map_option (with_status s) a) (map_option set_released b)
Linked-settle s none none h over = h
Linked-settle s none (some l) h over = absurd h
Linked-settle s (some row) none h over = absurd h
Linked-settle s (some row) (some l) h over = (h.0, h.1, sym over)

find-update-none {ℓ} :
    {A : Type ℓ} (j k : ℕ) (f : A → A) (t : Table A)
    → find j t ≡ none
    → find j (update k f t) ≡ none
find-update-none j k f t h = ground (arith, find-update j k f t)

module _ {escrows : Table EscrowRow} {locks : Table Lock} {next : ℕ}
    (v : AreLinked escrows locks next) where
  pub fresh_lock : find next locks ≡ none
  fresh_lock =
      no_lock (find next escrows) (find next locks) (v.linked next) (v.fresh next (omega arith))

  -- A new escrow with its lock.
  pub open-AreLinked :
      (row : EscrowRow) (l : Lock)
      → l.amount ≡ row.amount
      → l.asset ≡ row.asset
      → l.status ≡ held_status row.status
      → AreLinked ((next, row) ∷ escrows) ((next, l) ∷ locks) (suc next)
  unfolding find
  open-AreLinked row l a s h = record {
    linked = λ id. elim (Bool-cases (next == id)) [
      | inl e ↦ rw e (a, s, h)
      | inr e ↦ rw e (v.linked id)
    ];
    fresh = λ id le. ground (arith, v.fresh id (omega arith));
  }

  -- A change of status that keeps the funds held.
  pub status-AreLinked :
      (k : ℕ) (s : EscrowStatus)
      → ((row : EscrowRow) → find k escrows ≡ some row → held_status s ≡ held_status row.status)
      → AreLinked (update k (with_status s) escrows) locks next
  status-AreLinked k s same = record {
    linked = λ id. rw (find-update id k (with_status s) escrows) (elim (Bool-cases (k == id)) [
      | inl e ↦ rw e (
          Linked-status s (find id escrows) (find id locks) (v.linked id)
            (λ row found. same row (rw ((==_iff k id).0 e) found)))
      | inr e ↦ rw e (v.linked id)
    ]);
    fresh = λ id le. find-update-none id k (with_status s) escrows (v.fresh id le);
  }

  -- The end of an escrow: its funds are let go.
  pub settle-AreLinked :
      (k : ℕ) (s : EscrowStatus)
      → held_status s ≡ released
      → AreLinked (update k (with_status s) escrows) (update k set_released locks) next
  settle-AreLinked k s over = record {
    linked = λ id.
        rw (find-update id k (with_status s) escrows, find-update id k set_released locks)
          (elim (Bool-cases (k == id)) [
            | inl e ↦ rw e (Linked-settle s (find id escrows) (find id locks) (v.linked id) over)
            | inr e ↦ rw e (v.linked id)
          ]);
    fresh = λ id le. find-update-none id k (with_status s) escrows (v.fresh id le);
  }

  -- The lock of a row, where both are found.
  pub its_own :
      (k : ℕ) {row : EscrowRow} {l : Lock}
      → find k escrows ≡ some row
      → find k locks ≡ some l
      → (l.amount ≡ row.amount) × (l.asset ≡ row.asset) × (l.status ≡ held_status row.status)
  its_own k {row} e f =
      subst (Linked (some row)) f (subst (λ o. Linked o (find k locks)) e (v.linked k))

  -- A row has a lock.
  pub has_lock :
      (k : ℕ) {row : EscrowRow}
      → find k escrows ≡ some row
      → (l : Lock) × (find k locks ≡ some l)
        × (l.amount ≡ row.amount)
        × (l.asset ≡ row.asset)
        × (l.status ≡ held_status row.status)
  has_lock k {row} e =
      its_lock row (find k locks) (subst (λ o. Linked o (find k locks)) e (v.linked k))
