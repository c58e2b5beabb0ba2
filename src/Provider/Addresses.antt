-- ===== src/Provider/Addresses.antt =====
-- withdrawal_provider_service/app.py: its own check of a destination (`_B58Decode`, `_bech32_decode`,
-- `_validate_utxo_address`, `_validate_destination_address`) and of a transaction id.
pub mod Agree
use Prim.Native.Nat.{bit_and, bit_xor, ◌^◌}
use escrow_hub.Common.{
  ℕ, zero, suc, ◌+◌, ◌-◌, ◌*◌, ◌/◌, ◌%◌, Bool, true, false, not, ◌&&◌, ◌||◌, List, [], ◌∷◌, ◌++◌,
  map, if◌then◌else◌, ◌==◌, ltb,
}
use escrow_hub.Text.{Text, codes, length, take, drop, is_empty, text_eq, starts_with, strip, all_in}
use escrow_hub.Asset.{Asset, btc, ltc, eth, usdt, sol}
use escrow_hub.Outcome.{
  Error, Result, ok, err, or_raise, raise_if, ◌>>=◌, ◌>>◌, invalid_base58_character,
  base58_too_short, invalid_base58_checksum, mixed_case_bech32, invalid_bech32_separator,
  invalid_bech32_character, invalid_bech32_checksum, invalid_address, invalid_checksum_address,
  unsupported_utxo_asset, destination_required, index_error,
}
use escrow_hub.Address.{
  Libraries, base58_alphabet, bech32_charset, index_of, last_index_of, leading_ones, zeros,
  bytes_onto,
}

-- `num = num * 58 + idx` over the characters
unfoldable pub b58_digits : ℕ → Text → Result ℕ
b58_digits num [] = ok num
b58_digits num (ch ∷ raw) =
    or_raise (index_of ch base58_alphabet) invalid_base58_character >>= λ idx.
    b58_digits (num * 58 + idx) raw

-- `_B58Decode.decode_raw`: a base58 digit is less than a byte, so the length is fuel enough.
unfoldable pub decode_raw : Text → Result (List ℕ)
decode_raw raw =
    b58_digits 0 raw >>= λ num. ok (zeros (leading_ones raw) ++ bytes_onto (length raw) num [])

-- `_B58Decode.decode` of the raw bytes
unfoldable pub check_raw : Libraries → List ℕ → Result (List ℕ)
check_raw lib full =
    let payload = take (length full - 4) full in
    raise_if (ltb (length full) 4) base58_too_short
    >> (raise_if
          (not (text_eq (take 4 (lib.sha256 (lib.sha256 payload))) (drop (length full - 4) full)))
          invalid_base58_checksum
        >> ok payload)

unfoldable pub decode : Libraries → Text → Result (List ℕ)
decode lib raw = decode_raw raw >>= check_raw lib

-- One value of `_bech32_polymod`
abbrev pub add_generator : ℕ → ℕ → ℕ → ℕ → ℕ
add_generator top i g chk = if top / 2 ^ i % 2 == 1 then bit_xor chk g else chk

unfoldable pub add_generators : ℕ → ℕ → ℕ
add_generators top chk = add_generator top 4 0x2A1462B3 (
    add_generator top 3 0x3D4233DD (
      add_generator top 2 0x1EA119FA
        (add_generator top 1 0x26508E6D (add_generator top 0 0x3B6A57B2 chk))))

unfoldable pub polymod_values : ℕ → List ℕ → ℕ
polymod_values chk [] = chk
polymod_values chk (value ∷ values) =
    polymod_values (add_generators (chk / 2 ^ 25) (bit_xor (bit_and chk 0x1FFFFFF * 2 ^ 5) value))
      values

unfoldable pub bech32_polymod : List ℕ → ℕ
unfolding polymod_values add_generators
bech32_polymod = polymod_values 1

unfoldable pub bech32_hrp_expand : Text → List ℕ
bech32_hrp_expand hrp = map (λ x. x / 2 ^ 5) hrp ++ 0 ∷ map (λ x. bit_and x 31) hrp

unfoldable pub charset_indices : Text → Result (List ℕ)
charset_indices [] = ok []
charset_indices (ch ∷ s) = or_raise (index_of ch bech32_charset) invalid_bech32_character >>= λ idx.
    charset_indices s >>= λ values. ok (idx ∷ values)

abbrev pub bad_checksum : Text → List ℕ → Bool
bad_checksum hrp values =
    let const = bech32_polymod (bech32_hrp_expand hrp ++ values) in
    not (const == 1 || const == 0x2BC830A3)

-- `_bech32_decode`, of the lowered address with its last `1` at `pos`
unfoldable pub decode_at : Text → ℕ → Result (Text × List ℕ)
unfolding charset_indices bech32_polymod bech32_hrp_expand
decode_at addr pos =
    raise_if (ltb pos 1 || ltb (length addr) (pos + 7)) invalid_bech32_separator
    >> (charset_indices (drop (suc pos) addr) >>= λ values.
        raise_if (bad_checksum (take pos addr) values) invalid_bech32_checksum
        >> ok (take pos addr, take (length values - 6) values))

unfoldable pub bech32_decode : Libraries → Text → Result (Text × List ℕ)
unfolding decode_at
bech32_decode lib addr =
    raise_if (not (text_eq (lib.lower addr) addr) && not (text_eq (lib.upper addr) addr))
      mixed_case_bech32
    >> (or_raise (last_index_of b'1' (lib.lower addr)) invalid_bech32_separator
        >>= decode_at (lib.lower addr))

-- `hrp != network or not data`
unfoldable pub refuse_segwit : Text → Text × List ℕ → Result (Unit {0})
refuse_segwit network (hrp, values) =
    raise_if (not (text_eq hrp network) || is_empty values) invalid_address

-- `payload[0] not in versions`: an empty payload has no first byte.
unfoldable pub refuse_version : List ℕ → List ℕ → Result (Unit {0})
refuse_version versions [] = err index_error
refuse_version versions (b ∷ payload) = raise_if (not (all_in versions (b ∷ []))) invalid_address

unfoldable pub validate_utxo_address : Libraries → Asset → Text → Result (Unit {0})
unfolding decode
validate_utxo_address lib btc address =
    if starts_with (codes "bc1") (lib.lower address)
    then (bech32_decode lib address >>= refuse_segwit (codes "bc"))
    else (decode lib address >>= refuse_version (0x00 ∷ 0x05 ∷ []))
validate_utxo_address lib ltc address =
    if starts_with (codes "ltc1") (lib.lower address)
    then (bech32_decode lib address >>= refuse_segwit (codes "ltc"))
    else (decode lib address >>= refuse_version (0x30 ∷ 0x32 ∷ 0x05 ∷ []))
validate_utxo_address lib _ address = err unsupported_utxo_asset

-- `any(c.isalpha() for c in s)`
unfoldable pub any_alpha : Libraries → Text → Bool
any_alpha lib [] = false
any_alpha lib (c ∷ s) = lib.is_alpha c || any_alpha lib s

unfoldable pub validate_evm_address : Libraries → Text → Result (Unit {0})
unfolding any_alpha
validate_evm_address lib address =
    raise_if (not (lib.is_address address)) invalid_address
    >> raise_if (any_alpha lib (drop 2 address) && not (lib.is_checksum_address address))
        invalid_checksum_address

unfoldable pub validate_sol_address : Text → Result (Unit {0})
unfolding decode_raw
validate_sol_address address =
    decode_raw address >>= λ raw. raise_if (not (length raw == 32)) invalid_address

-- The check of the stripped address, by the asset.
unfoldable pub validate_network_address : Libraries → Asset → Text → Result (Unit {0})
unfolding validate_utxo_address validate_evm_address validate_sol_address
validate_network_address lib eth address = validate_evm_address lib address
validate_network_address lib usdt address = validate_evm_address lib address
validate_network_address lib sol address = validate_sol_address address
validate_network_address lib asset address = validate_utxo_address lib asset address

unfoldable pub validate_destination_address : Libraries → Asset → Text → Result (Unit {0})
unfolding validate_network_address
validate_destination_address lib asset destination_address =
    let address = strip destination_address in
    raise_if (is_empty address) destination_required >> validate_network_address lib asset address

abbrev pub hex_characters : Text
hex_characters = codes "0123456789abcdef"

-- `len(decode_raw(value)) == 64`, False where it raises
abbrev pub has_64_bytes : Result (List ℕ) → Bool
has_64_bytes (ok raw) = length raw == 64
has_64_bytes (err e) = false

unfoldable pub txid_fits : Libraries → Asset → Text → Bool
unfolding decode_raw
txid_fits lib sol value = has_64_bytes (decode_raw value)
txid_fits lib eth value =
    let low = lib.lower value in
    starts_with (codes "0x") low && length low == 66 && all_in hex_characters (drop 2 low)
txid_fits lib usdt value =
    let low = lib.lower value in
    starts_with (codes "0x") low && length low == 66 && all_in hex_characters (drop 2 low)
txid_fits lib _ value = let low = lib.lower value in length low == 64 && all_in hex_characters low

-- `_txid_sane_for_asset`
unfoldable pub txid_sane_for_asset : Libraries → Asset → Text → Bool
unfolding txid_fits
txid_sane_for_asset lib asset txid =
    let value = strip txid in
    if is_empty value || ltb (length value) 16 || ltb 160 (length value)
    then false
    else txid_fits lib asset value
