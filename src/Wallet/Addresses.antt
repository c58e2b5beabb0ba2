-- ===== src/Wallet/Addresses.antt =====
-- wallet_service.py: the check of a withdrawal's destination (`_b58check_decode`, `_bech32_decode`,
-- `_validate_utxo_address`, `_validate_withdrawal_address`).
pub mod Value
use Prim.Native.Nat.{bit_and, bit_xor, ◌^◌}
use escrow_hub.Common.{
  ℕ, suc, ◌+◌, ◌-◌, ◌*◌, ◌/◌, ◌%◌, Bool, true, false, not, ◌&&◌, ◌||◌, Option, none, some, List, [],
  ◌∷◌, ◌++◌, map, if◌then◌else◌, ◌==◌, ltb,
}
use escrow_hub.Text.{Text, codes, length, take, drop, is_empty, text_eq, starts_with, strip}
use escrow_hub.Asset.{Asset, btc, ltc, eth, usdt, sol}
use escrow_hub.Outcome.{
  Result, ok, err, or_raise, raise_if, ◌>>=◌, ◌>>◌, invalid_base58_character, base58_too_short,
  invalid_base58_checksum, mixed_case_bech32, invalid_bech32_separator, invalid_bech32_character,
  invalid_bech32_checksum, invalid_address, invalid_checksum_address, unsupported_utxo_asset,
  destination_required,
}
use escrow_hub.Address.{
  Libraries, base58_alphabet, bech32_charset, index_of, last_index_of, leading_ones, zeros,
  bytes_onto,
}

-- `n = n * 58 + idx` over the characters
unfoldable pub b58_number : ℕ → Text → Result ℕ
b58_number n [] = ok n
b58_number n (ch ∷ s) = or_raise (index_of ch base58_alphabet) invalid_base58_character >>= λ idx.
    b58_number (n * 58 + idx) s

-- `decoded`: a base58 digit is less than a byte, so the length of the text is fuel enough.
abbrev pub b58_bytes : Text → ℕ → List ℕ
b58_bytes value n = zeros (leading_ones value) ++ bytes_onto (length value) n []

-- `data[:-k]` and `data[-k:]`
abbrev pub but_last {ℓ} : {A : Type ℓ} → ℕ → List A → List A
but_last k symbols = take (length symbols - k) symbols

abbrev pub last {ℓ} : {A : Type ℓ} → ℕ → List A → List A
last k symbols = drop (length symbols - k) symbols

-- The payload of the decoded bytes, if their last four are its checksum.
unfoldable pub b58_payload : Libraries → List ℕ → Result (List ℕ)
b58_payload lib decoded =
    raise_if (ltb (length decoded) 5) base58_too_short
    >> (raise_if
          (not (text_eq (last 4 decoded) (take 4 (lib.sha256 (lib.sha256 (but_last 4 decoded))))))
          invalid_base58_checksum
        >> ok (but_last 4 decoded))

unfoldable pub b58check_decode : Libraries → Text → Result (List ℕ)
unfolding b58_payload
b58check_decode lib value = b58_number 0 value >>= λ n. b58_payload lib (b58_bytes value n)

-- `if (top >> i) & 1: chk ^= generator[i]` for each i
unfoldable pub xor_generators : List ℕ → ℕ → ℕ → ℕ
xor_generators [] top chk = chk
xor_generators (g ∷ gs) top chk =
    xor_generators gs (top / 2) (if top % 2 == 1 then bit_xor chk g else chk)

abbrev pub generator : List ℕ
generator = 0x3b6a57b2 ∷ 0x26508e6d ∷ 0x1ea119fa ∷ 0x3d4233dd ∷ 0x2a1462b3 ∷ []

unfoldable pub polymod_from : ℕ → List ℕ → ℕ
polymod_from chk [] = chk
polymod_from chk (value ∷ values) =
    polymod_from
      (xor_generators generator (chk / 2 ^ 25) (bit_xor (bit_and chk 0x1FFFFFF * 2 ^ 5) value))
      values

unfoldable pub bech32_polymod : List ℕ → ℕ
unfolding polymod_from xor_generators
bech32_polymod = polymod_from 1

unfoldable pub bech32_hrp_expand : Text → List ℕ
bech32_hrp_expand hrp = map (λ x. x / 2 ^ 5) hrp ++ 0 ∷ map (λ x. bit_and x 31) hrp

unfoldable pub bech32_verify_checksum : Text → List ℕ → Bool
unfolding bech32_polymod bech32_hrp_expand
bech32_verify_checksum hrp symbols =
    let const = bech32_polymod (bech32_hrp_expand hrp ++ symbols) in
    const == 1 || const == 0x2BC830A3

-- The characters' places in the charset.
unfoldable pub bech32_values : Text → Result (List ℕ)
bech32_values [] = ok []
bech32_values (ch ∷ s) = or_raise (index_of ch bech32_charset) invalid_bech32_character >>= λ idx.
    bech32_values s >>= λ symbols. ok (idx ∷ symbols)

-- `bech32_decode` of the lowered address with its last `1` at `pos`.
unfoldable pub bech32_parts : Text → ℕ → Result (Text × List ℕ)
unfolding bech32_verify_checksum bech32_values
bech32_parts addr pos =
    raise_if (ltb pos 1 || ltb (length addr) (pos + 7)) invalid_bech32_separator
    >> (bech32_values (drop (suc pos) addr) >>= λ symbols.
        raise_if (not (bech32_verify_checksum (take pos addr) symbols)) invalid_bech32_checksum
        >> ok (take pos addr, but_last 6 symbols))

abbrev pub mixed_case : Libraries → Text → Bool
mixed_case lib addr = not (text_eq (lib.lower addr) addr) && not (text_eq (lib.upper addr) addr)

unfoldable pub bech32_decode : Libraries → Text → Result (Text × List ℕ)
unfolding bech32_parts
bech32_decode lib addr =
    raise_if (mixed_case lib addr) mixed_case_bech32
    >> (or_raise (last_index_of b'1' (lib.lower addr)) invalid_bech32_separator
        >>= bech32_parts (lib.lower addr))

-- `payload[0] in versions`
unfoldable pub has_version : List ℕ → List ℕ → Bool
has_version versions [] = false
has_version [] (b ∷ payload) = false
has_version (v ∷ versions) (b ∷ payload) = v == b || has_version versions (b ∷ payload)

-- `hrp != network or not data`
unfoldable pub check_segwit : Text → Text × List ℕ → Result (Unit {0})
check_segwit network (hrp, symbols) =
    raise_if (not (text_eq hrp network) || is_empty symbols) invalid_address

unfoldable pub check_version : List ℕ → List ℕ → Result (Unit {0})
unfolding has_version
check_version versions payload = raise_if (not (has_version versions payload)) invalid_address

unfoldable pub validate_utxo_address : Libraries → Asset → Text → Result (Unit {0})
validate_utxo_address lib btc address =
    if starts_with (codes "bc1") (lib.lower address)
    then (bech32_decode lib address >>= check_segwit (codes "bc"))
    else (b58check_decode lib address >>= check_version (0x00 ∷ 0x05 ∷ []))
validate_utxo_address lib ltc address =
    if starts_with (codes "ltc1") (lib.lower address)
    then (bech32_decode lib address >>= check_segwit (codes "ltc"))
    else (b58check_decode lib address >>= check_version (0x30 ∷ 0x32 ∷ 0x05 ∷ []))
validate_utxo_address lib _ address = err unsupported_utxo_asset

-- `any(c.isalpha() for c in s)`
unfoldable pub has_alpha : Libraries → Text → Bool
has_alpha lib [] = false
has_alpha lib (c ∷ s) = lib.is_alpha c || has_alpha lib s

unfoldable pub check_evm_address : Libraries → Text → Result (Unit {0})
unfolding has_alpha
check_evm_address lib address =
    raise_if (not (lib.is_address address)) invalid_address
    >> raise_if (has_alpha lib (drop 2 address) && not (lib.is_checksum_address address))
        invalid_checksum_address

-- `except ValueError: raise ValueError("Invalid destination address for …")`
abbrev pub or_invalid : Result (Unit {0}) → Result (Unit {0})
or_invalid (ok a) = ok a
or_invalid (err e) = err invalid_address

-- The check of the stripped address, by the asset's network.
unfoldable pub check_network_address : Libraries → Asset → Text → Result (Unit {0})
unfolding validate_utxo_address check_evm_address
check_network_address lib eth address = check_evm_address lib address
check_network_address lib usdt address = check_evm_address lib address
check_network_address lib sol address = raise_if (not (lib.decodes_sol address)) invalid_address
check_network_address lib asset address = or_invalid (validate_utxo_address lib asset address)

unfoldable pub validate_withdrawal_address : Libraries → Asset → Text → Result (Unit {0})
unfolding check_network_address
validate_withdrawal_address lib asset destination_address =
    let address = strip destination_address in
    raise_if (is_empty address) destination_required >> check_network_address lib asset address
