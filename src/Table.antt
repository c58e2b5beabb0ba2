-- ===== src/Table.antt =====
-- A database table with an integer primary key, the newest row first. An UPDATE by primary key
-- changes the one row that has the key.
use escrow_hub.Common.{
  ℕ, ◌<◌, ◌≡◌, refl, Bool, false, Option, none, some, List, [], ◌∷◌, arith, ◌==◌, if◌then◌else◌,
  Bool-cases, inl, inr,
}

abbrev pub Table {ℓ} : Type ℓ → Type ℓ
Table A = List (ℕ × A)

abbrev pub map_option {ℓ κ} : {A : Type ℓ} {B : Type κ} → (A → B) → Option A → Option B
map_option f none = none
map_option f (some a) = some (f a)

module _ {ℓ} {A : Type ℓ} where
  -- SELECT … WHERE id=?
  unfoldable pub find : ℕ → Table A → Option A
  find k [] = none
  find k ((j, a) ∷ t) = if j == k then some a else find k t

  -- UPDATE … WHERE id=?
  unfoldable pub update : ℕ → (A → A) → Table A → Table A
  update k f [] = []
  update k f ((j, a) ∷ t) = if j == k then (j, f a) ∷ t else (j, a) ∷ update k f t

  -- The first row that passes a test.
  unfoldable pub find_where : (A → Bool) → Table A → Option (ℕ × A)
  find_where p [] = none
  find_where p ((j, a) ∷ t) = if p a then some (j, a) else find_where p t

  pub find-cons :
      (j k : ℕ) (a : A) (t : Table A) → find j ((k, a) ∷ t) ≡ (if k == j then some a else find j t)
  unfolding find
  find-cons j k a t = refl

  pub find-update :
      (j k : ℕ) (f : A → A) (t : Table A)
      → find j (update k f t) ≡ (if k == j then map_option f (find j t) else find j t)
  unfolding find update
  find-update j k f [] = ground arith
  find-update j k f ((i, a) ∷ t) = ground (arith, find-update j k f t)

  -- The keys that AUTOINCREMENT gave: below n, and falling from the newest row on.
  abbrev pub Descends : ℕ → Table A → Type 0
  Descends n [] = Unit {0}
  Descends n ((j, a) ∷ t) = (j < n) × Descends j t

  pub update-Descends :
      (n k : ℕ) (f : A → A) (t : Table A) → Descends n t → Descends n (update k f t)
  unfolding update
  update-Descends n k f [] d = tt
  update-Descends n k f ((j, a) ∷ t) (lt, d) = elim (Bool-cases (j == k)) [
    | inl e ↦ rw e (lt, d)
    | inr e ↦ rw e (lt, update-Descends j k f t d)
  ]

  pub found-lt :
      (n : ℕ) (p : A → Bool) (t : Table A) {id : ℕ} {a : A}
      → Descends n t
      → find_where p t ≡ some (id, a)
      → id < n
  unfolding find_where
  found-lt n p [] d h = absurd (cc)
  found-lt n p ((j, a) ∷ t) (lt, d) h = elim (Bool-cases (p a)) [
    | inl e ↦ ground arith
    | inr e ↦ omega (arith, lt, found-lt j p t d (rw e at h))
  ]

  -- The row that a test finds, after a change that the test does not see.
  pub find_where-update :
      (n : ℕ) (p : A → Bool) (f : A → A) (t : Table A) {id : ℕ} {a : A}
      → ((a : A) → p (f a) ≡ p a)
      → Descends n t
      → find_where p t ≡ some (id, a)
      → find_where p (update id f t) ≡ some (id, f a)
  unfolding find_where update
  find_where-update n p f [] same d h = absurd (cc)
  find_where-update n p f ((j, b) ∷ t) {id} {a} same (lt, d) h = elim (Bool-cases (p b)) [
    | inl e ↦ ground (arith, same b)
    | inr e ↦
        let later : find_where p t ≡ some (id, a) = rw e at h in
        let below : id < j = found-lt j p t d later in
        let apart : (j == id) ≡ false = ground arith in
        rw (apart, e) (find_where-update j p f t same d later)
  ]
