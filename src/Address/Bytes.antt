-- ===== src/Address/Bytes.antt =====
-- `str.find`, `str.rfind`, `str.lstrip` of one character and `int.to_bytes` of the address checks.
use escrow_hub.Common.{
  ℕ, zero, suc, ◌+◌, ◌*◌, ◌/◌, ◌%◌, Bool, Option, none, some, List, [], ◌∷◌, if◌then◌else◌, ◌==◌,
}
use escrow_hub.Text.{Text, codes}

abbrev pub base58_alphabet : Text
base58_alphabet = codes "123456789ABCDEFGHJKLMNPQRSTUVWXYZabcdefghijkmnopqrstuvwxyz"

abbrev pub bech32_charset : Text
bech32_charset = codes "qpzry9x8gf2tvdw0s3jn54khce6mua7l"

abbrev pub shift : Option ℕ → Option ℕ
shift none = none
shift (some n) = some (suc n)

-- `text.find(ch)`, none where it returns -1.
unfoldable pub index_of : ℕ → Text → Option ℕ
index_of ch [] = none
index_of ch (c ∷ s) = let rest = index_of ch s in if c == ch then some 0 else shift rest

abbrev pub or_here : Bool → Option ℕ → Option ℕ
or_here here (some n) = some (suc n)
or_here here none = if here then some 0 else none

-- `text.rfind(ch)`
unfoldable pub last_index_of : ℕ → Text → Option ℕ
last_index_of ch [] = none
last_index_of ch (c ∷ s) = or_here (c == ch) (last_index_of ch s)

-- `len(value) - len(value.lstrip("1"))`
unfoldable pub leading_ones : Text → ℕ
leading_ones [] = 0
leading_ones (c ∷ s) = let rest = leading_ones s in if c == b'1' then suc rest else 0

abbrev pub zeros : ℕ → List ℕ
zeros zero = []
zeros (suc n) = 0 ∷ zeros n

-- The bytes of a number, the most significant first and without a leading zero, before those of
-- `least`.
unfoldable pub bytes_onto : ℕ → ℕ → List ℕ → List ℕ
bytes_onto fuel zero least = least
bytes_onto zero (suc n) least = least
bytes_onto (suc fuel) (suc n) least = bytes_onto fuel (suc n / 256) (suc n % 256 ∷ least)

-- The number that bytes stand for.
unfoldable pub from_bytes : ℕ → List ℕ → ℕ
from_bytes acc [] = acc
from_bytes acc (b ∷ bs) = from_bytes (acc * 256 + b) bs
