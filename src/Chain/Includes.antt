-- ===== src/Chain/Includes.antt =====
-- A list that stands inside another: the deposits of a block among those of a poll.
use escrow_hub.Common.{◌≡◌, refl, sym, ap, ◌∙◌, List, [], ◌∷◌, ◌++◌}

-- A list stands somewhere in another.
pub record Includes {ℓ} {A : Type ℓ} (part whole : List A) : Type ℓ where
  pub before : List A
  pub after : List A
  pub whole_eq : whole ≡ before ++ (part ++ after)

pub append_assoc {ℓ} : {A : Type ℓ} (xs ys zs : List A) → (xs ++ ys) ++ zs ≡ xs ++ (ys ++ zs)
append_assoc [] ys zs = refl
append_assoc (x ∷ xs) ys zs = ap (λ t. x ∷ t) (append_assoc xs ys zs)

pub Includes-left {ℓ} :
    {A : Type ℓ} {part whole : List A} (more : List A)
    → Includes part whole
    → Includes part (whole ++ more)
Includes-left {part} {whole} more i = record {
  before = i.before;
  after = i.after ++ more;
  whole_eq =
      ap (λ xs. xs ++ more) i.whole_eq
      ∙ append_assoc i.before (part ++ i.after) more
      ∙ ap (λ xs. i.before ++ xs) (append_assoc part i.after more);
}

pub Includes-right {ℓ} :
    {A : Type ℓ} {part whole : List A} (more : List A)
    → Includes part whole
    → Includes part (more ++ whole)
Includes-right {part} more i = record {
  before = more ++ i.before;
  after = i.after;
  whole_eq = ap (λ xs. more ++ xs) i.whole_eq ∙ sym (append_assoc more i.before (part ++ i.after));
}

append_nil {ℓ} : {A : Type ℓ} (xs : List A) → xs ++ [] ≡ xs
append_nil [] = refl
append_nil (x ∷ xs) = ap (λ t. x ∷ t) (append_nil xs)

pub whole_Includes {ℓ} : {A : Type ℓ} (xs : List A) → Includes xs xs
whole_Includes xs = record { before = []; after = []; whole_eq = sym (append_nil xs) }
