-- ===== src/Wallet/Addresses/Value.antt =====
-- The bytes of a base58 text against the number that its digits stand for.
use Prim.Native.Nat.{◌^◌}
use escrow_hub.Common.{
  ℕ, zero, suc, ◌+◌, ◌*◌, ◌/◌, ◌%◌, ◌<◌, ◌≡◌, refl, ap, subst, ◌∙◌, List, [], ◌∷◌, ◌++◌, arith,
  none, some,
}
use escrow_hub.Text.{Text, length}
use escrow_hub.Outcome.{ok, ok-injective, >>=-eq-ok, or_raise, or_raise-ok, Result}
use escrow_hub.Outcome
use escrow_hub.Address.{base58_alphabet, index_of, leading_ones, zeros, bytes_onto, from_bytes}
use escrow_hub.Wallet.Addresses.{b58_number, b58_bytes}

index_of-lt : (ch : ℕ) (s : Text) (i : ℕ) → index_of ch s ≡ some i → i < length s
unfolding index_of
index_of-lt ch [] i found = ground arith
index_of-lt ch (c ∷ s) i found =
    elim (index_of ch s) as (λ r. index_of ch s ≡ r → i < suc (length s)) [
      | none ↦ λ e. ground arith
      | some j ↦ λ e. let less = index_of-lt ch s j e in ground arith
    ]
      refl

-- A base58 digit is less than a byte.
bytes_bound :
    (k n : ℕ) (s : Text) (total : ℕ)
    → n < 256 ^ k
    → b58_number n s ≡ ok total
    → total < 256 ^ (length s + k)
unfolding b58_number
bytes_bound k n [] total h returns =
    subst (λ (m : ℕ). total < 256 ^ m) (omega arith)
      (subst (λ (x : ℕ). x < 256 ^ k) (ok-injective returns) h)
bytes_bound k n (ch ∷ s) total h returns =
    let (idx, found, rest) =
      >>=-eq-ok (or_raise (index_of ch base58_alphabet) Outcome.invalid_base58_character)
        (λ i. b58_number (n * 58 + i) s) returns in
    let digit = index_of-lt ch base58_alphabet idx (or_raise-ok _ found) in
    let bound = bytes_bound (suc k) (n * 58 + idx) s total (omega arith) rest in
    subst (λ (m : ℕ). total < 256 ^ m) (omega arith) bound

bytes_onto-value :
    (fuel n : ℕ) (least : List ℕ)
    → n < 256 ^ fuel
    → from_bytes 0 (bytes_onto fuel n least) ≡ from_bytes n least
unfolding bytes_onto from_bytes
bytes_onto-value zero zero least h = refl
bytes_onto-value (suc fuel) zero least h = refl
bytes_onto-value zero (suc n) least h = absurd (omega arith)
bytes_onto-value (suc fuel) (suc n) least h =
    let whole : suc n / 256 * 256 + suc n % 256 ≡ suc n = omega arith in
    bytes_onto-value fuel (suc n / 256) (suc n % 256 ∷ least) (omega arith)
    ∙ ap (λ (m : ℕ). from_bytes m least) whole

zeros-value : (n : ℕ) (bs : List ℕ) → from_bytes 0 (zeros n ++ bs) ≡ from_bytes 0 bs
unfolding from_bytes
zeros-value zero bs = refl
zeros-value (suc n) bs = zeros-value n bs

-- The zero bytes that a list of bytes starts with.
unfoldable pub leading_zeros : List ℕ → ℕ
leading_zeros [] = 0
leading_zeros (zero ∷ bs) = suc (leading_zeros bs)
leading_zeros (suc b ∷ bs) = 0

-- `m` digits 1, then a text that starts with another digit.
unfoldable pub after_ones : ℕ → Text → Text
after_ones zero s = s
after_ones (suc m) s = 49 ∷ after_ones m s

unfoldable pub StartsOtherwise : Text → Type 0
StartsOtherwise [] = Unit
StartsOtherwise (ch ∷ s) = ¬ (ch ≡ 49)

leading_ones-after_ones : (m : ℕ) (s : Text) → StartsOtherwise s → leading_ones (after_ones m s) ≡ m
unfolding leading_ones after_ones StartsOtherwise
leading_ones-after_ones zero [] h = refl
leading_ones-after_ones zero (ch ∷ s) h = ground arith
leading_ones-after_ones (suc m) s h = ap suc (leading_ones-after_ones m s h)

leading_zeros-zeros :
    (n : ℕ) (bs : List ℕ) → leading_zeros bs ≡ 0 → leading_zeros (zeros n ++ bs) ≡ n
unfolding leading_zeros
leading_zeros-zeros zero bs h = h
leading_zeros-zeros (suc n) bs h = ap suc (leading_zeros-zeros n bs h)

leading_zeros-pos : (b : ℕ) (bs : List ℕ) → 0 < b → leading_zeros (b ∷ bs) ≡ 0
unfolding leading_zeros
leading_zeros-pos zero bs h = absurd (omega arith)
leading_zeros-pos (suc b) bs h = refl

bytes_onto-leading :
    (fuel n : ℕ) (least : List ℕ)
    → n < 256 ^ fuel
    → (n ≡ 0 → leading_zeros least ≡ 0)
    → leading_zeros (bytes_onto fuel n least) ≡ 0
unfolding bytes_onto leading_zeros
bytes_onto-leading zero zero least h starts = starts refl
bytes_onto-leading (suc fuel) zero least h starts = starts refl
bytes_onto-leading zero (suc n) least h starts = absurd (omega arith)
bytes_onto-leading (suc fuel) (suc n) least h starts =
    bytes_onto-leading fuel (suc n / 256) (suc n % 256 ∷ least) (omega arith)
      λ none_left. leading_zeros-pos (suc n % 256) least (omega arith)

-- The bytes of a base58 text stand for the very number that its digits stand for, and start
-- with as many zero bytes as the text starts with digits 1.
pub b58_bytes-value :
    (m : ℕ) (s : Text) (n : ℕ)
    → StartsOtherwise s
    → b58_number 0 (after_ones m s) ≡ ok n
    → (from_bytes 0 (b58_bytes (after_ones m s) n) ≡ n)
      × (leading_zeros (b58_bytes (after_ones m s) n) ≡ m)
unfolding from_bytes leading_zeros
b58_bytes-value m s n starts returns =
    let value = after_ones m s in
    let bound : n < 256 ^ length value =
      subst (λ (m : ℕ). n < 256 ^ m) (omega arith)
        (bytes_bound 0 0 value n (omega arith) returns) in
    (
      zeros-value (leading_ones value) (bytes_onto (length value) n [])
          ∙ bytes_onto-value (length value) n [] bound,
      leading_zeros-zeros (leading_ones value) (bytes_onto (length value) n [])
            (bytes_onto-leading (length value) n [] bound λ _. refl)
          ∙ leading_ones-after_ones m s starts,
    )
