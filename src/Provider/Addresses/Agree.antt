-- ===== src/Provider/Addresses/Agree.antt =====
-- The two copies of the address check, in wallet_service.py and in the provider's app.py.
use Prim.Native.Nat.{◌^◌, bit_xor, bit_and}
use escrow_hub.Common.{
  ℕ, suc, ◌+◌, ◌-◌, ◌*◌, ◌/◌, ◌≡◌, ap, refl, Bool, true, false, not, ◌||◌, List, [], ◌∷◌, arith,
  ltb, sym, if◌then◌else◌, Option, none, some, ◌++◌,
}
use escrow_hub.Text.{
  Text, take, drop, length, text_eq, contains, all_in, is_empty, strip, starts_with, codes,
}
use escrow_hub.Asset.{Asset, btc, ltc, eth, usdt, sol, asset_eq}
use escrow_hub.Outcome.{Result, ok, err, or_raise, raise_if, ◌>>=◌, ◌>>◌}
use escrow_hub.Address.{Libraries, index_of, last_index_of, base58_alphabet}
use escrow_hub.Wallet.Addresses as Checked
use escrow_hub.Wallet.Addresses.{
  b58_number, polymod_from, xor_generators, generator, bech32_values, bech32_verify_checksum,
  bech32_parts, mixed_case, b58check_decode, b58_payload, b58_bytes, check_version, has_version,
  check_segwit, or_invalid, has_alpha, check_evm_address, validate_withdrawal_address,
  check_network_address,
}
use escrow_hub.Provider.Addresses.{
  b58_digits, decode_raw, check_raw, decode, add_generators, polymod_values, charset_indices,
  decode_at, bad_checksum, refuse_segwit, refuse_version, any_alpha, validate_evm_address,
  validate_network_address, validate_destination_address,
}
use escrow_hub.Provider.Addresses as Provided
use escrow_hub.Outcome

next_digit :
    (n : ℕ) (s : Text) (found : Option ℕ)
    → ((m : ℕ) → b58_digits m s ≡ b58_number m s)
    → (or_raise found Outcome.invalid_base58_character >>= λ idx. b58_digits (n * 58 + idx) s)
      ≡ (or_raise found Outcome.invalid_base58_character >>= λ idx. b58_number (n * 58 + idx) s)
next_digit n s none same = refl
next_digit n s (some idx) same = same (n * 58 + idx)

b58_digits_lem : (n : ℕ) (s : Text) → b58_digits n s ≡ b58_number n s
unfolding b58_digits b58_number
b58_digits_lem n [] = refl
b58_digits_lem n (ch ∷ s) = next_digit n s (index_of ch base58_alphabet) λ m. b58_digits_lem m s

shifts :
    (top : ℕ)
    → (top / 2 ^ 0 ≡ top)
      × (top / 2 ^ 2 ≡ top / 2 / 2)
      × (top / 2 ^ 3 ≡ top / 2 / 2 / 2)
      × (top / 2 ^ 4 ≡ top / 2 / 2 / 2 / 2)
shifts top = (omega arith, omega arith, omega arith, omega arith)

add_generators_lem : (top chk : ℕ) → add_generators top chk ≡ xor_generators generator top chk
unfolding xor_generators add_generators
add_generators_lem top chk = let (s0, s2, s3, s4) = shifts top in rw (s0, s2, s3, s4) refl

polymod_values_lem :
    (chk : ℕ) (values : List ℕ) → polymod_values chk values ≡ polymod_from chk values
unfolding polymod_values polymod_from
polymod_values_lem chk [] = refl
polymod_values_lem chk (value ∷ values) =
    rw
      (
        sym (add_generators_lem (chk / 2 ^ 25) (bit_xor (bit_and chk 0x1FFFFFF * 2 ^ 5) value)),
        polymod_values_lem
            (add_generators (chk / 2 ^ 25) (bit_xor (bit_and chk 0x1FFFFFF * 2 ^ 5) value)) values,
      )
      refl

charset_indices_lem : (s : Text) → charset_indices s ≡ bech32_values s
unfolding charset_indices bech32_values
charset_indices_lem [] = refl
charset_indices_lem (ch ∷ s) = rw (charset_indices_lem s) refl

text_eq_comm : (s t : Text) → text_eq s t ≡ text_eq t s
unfolding text_eq
text_eq_comm [] [] = refl
text_eq_comm [] (d ∷ t) = refl
text_eq_comm (c ∷ s) [] = refl
text_eq_comm (c ∷ s) (d ∷ t) = ground (arith, text_eq_comm s t)

any_alpha_lem : (lib : Libraries) (s : Text) → any_alpha lib s ≡ has_alpha lib s
unfolding any_alpha has_alpha
any_alpha_lem lib [] = refl
any_alpha_lem lib (c ∷ s) = rw (any_alpha_lem lib s) refl

bad_checksum_lem :
    (hrp : Text) (values : List ℕ)
    → bad_checksum hrp values ≡ not (bech32_verify_checksum hrp values)
unfolding bech32_verify_checksum Provided.bech32_polymod Provided.bech32_hrp_expand
    Checked.bech32_polymod Checked.bech32_hrp_expand
bad_checksum_lem hrp values =
    rw (polymod_values_lem 1 (Provided.bech32_hrp_expand hrp ++ values)) refl

decode_at_lem : (addr : Text) (pos : ℕ) → decode_at addr pos ≡ bech32_parts addr pos
unfolding decode_at bech32_parts
decode_at_lem addr pos = λ i.
    raise_if (ltb pos 1 || ltb (length addr) (pos + 7)) Outcome.invalid_bech32_separator
    >> (charset_indices_lem (drop (suc pos) addr) i >>= λ values.
        raise_if (bad_checksum_lem (take pos addr) values i) Outcome.invalid_bech32_checksum
        >> ok (take pos addr, take (length values - 6) values))

bech32_decode_lem :
    (lib : Libraries) (addr : Text)
    → Provided.bech32_decode lib addr ≡ Checked.bech32_decode lib addr
unfolding Provided.bech32_decode Checked.bech32_decode
bech32_decode_lem lib addr = λ i.
    raise_if (mixed_case lib addr) Outcome.mixed_case_bech32
    >> (or_raise (last_index_of b'1' (lib.lower addr)) Outcome.invalid_bech32_separator >>= λ pos.
        decode_at_lem (lib.lower addr) pos i)

segwit_agrees :
    (lib : Libraries) (network address : Text)
    → (Provided.bech32_decode lib address >>= refuse_segwit network)
      ≡ (Checked.bech32_decode lib address >>= check_segwit network)
unfolding refuse_segwit check_segwit
segwit_agrees lib network address = rw (bech32_decode_lem lib address) refl

evm_agrees :
    (lib : Libraries) (address : Text)
    → validate_evm_address lib address ≡ check_evm_address lib address
unfolding validate_evm_address check_evm_address
evm_agrees lib address = rw (any_alpha_lem lib (drop 2 address)) refl

has_version_lem :
    (versions : List ℕ) (b : ℕ) (payload : List ℕ)
    → contains b versions ≡ has_version versions (b ∷ payload)
unfolding contains has_version
has_version_lem [] b payload = refl
has_version_lem (v ∷ vs) b payload = rw (has_version_lem vs b payload) refl

-- A payload with a first byte passes one version check where it passes the other.
version_agrees :
    (versions : List ℕ) (b : ℕ) (payload : List ℕ)
    → or_invalid (refuse_version versions (b ∷ payload))
      ≡ or_invalid (check_version versions (b ∷ payload))
unfolding refuse_version check_version all_in
version_agrees versions b payload = let same = has_version_lem versions b payload in ground arith

checked_agrees :
    (versions : List ℕ) (expected checksum : Text) (b : ℕ) (payload : List ℕ)
    → or_invalid (
        raise_if (not (text_eq expected checksum)) Outcome.invalid_base58_checksum
        >> ok (b ∷ payload)
        >>= refuse_version versions)
      ≡ or_invalid (
          raise_if (not (text_eq checksum expected)) Outcome.invalid_base58_checksum
          >> ok (b ∷ payload)
          >>= check_version versions)
checked_agrees versions expected checksum b payload =
    rw (text_eq_comm expected checksum)
      (elim (text_eq checksum expected)
        as (λ same.
          or_invalid (
            raise_if (not same) Outcome.invalid_base58_checksum
            >> ok (b ∷ payload)
            >>= refuse_version versions)
          ≡ or_invalid (
              raise_if (not same) Outcome.invalid_base58_checksum
              >> ok (b ∷ payload)
              >>= check_version versions)) [
                | true ↦ version_agrees versions b payload
                | false ↦ refl
              ])

nothing_refused :
    (versions : List ℕ) (differs : Bool)
    → or_invalid
        (raise_if differs Outcome.invalid_base58_checksum >> ok [] >>= refuse_version versions)
      ≡ err Outcome.invalid_address
unfolding refuse_version
nothing_refused versions true = refl
nothing_refused versions false = refl

five_bytes :
    (n : ℕ)
    → (suc (suc (suc (suc (suc n)))) - 4 ≡ suc n)
      × (ltb (suc (suc (suc (suc (suc n))))) 4 ≡ false)
      × (ltb (suc (suc (suc (suc (suc n))))) 5 ≡ false)
five_bytes n = (omega arith, ground arith, ground arith)

payload_agrees :
    (lib : Libraries) (versions full : List ℕ)
    → or_invalid (check_raw lib full >>= refuse_version versions)
      ≡ or_invalid (b58_payload lib full >>= check_version versions)
unfolding check_raw b58_payload
payload_agrees lib versions [] = refl
payload_agrees lib versions (a ∷ []) = refl
payload_agrees lib versions (a ∷ b ∷ []) = refl
payload_agrees lib versions (a ∷ b ∷ c ∷ []) = refl
payload_agrees lib versions (a ∷ b ∷ c ∷ d ∷ []) =
    nothing_refused versions
      (not (text_eq (take 4 (lib.sha256 (lib.sha256 []))) (a ∷ b ∷ c ∷ d ∷ [])))
payload_agrees lib versions (a ∷ b ∷ c ∷ d ∷ e ∷ rest) =
    let (less, four, five) = five_bytes (length rest) in
    rw (less, four, five)
      (checked_agrees versions
        (take 4 (lib.sha256 (lib.sha256 (a ∷ take (length rest) (b ∷ c ∷ d ∷ e ∷ rest)))))
        (drop (length rest) (b ∷ c ∷ d ∷ e ∷ rest)) a (take (length rest) (b ∷ c ∷ d ∷ e ∷ rest)))

base58_agrees :
    (lib : Libraries) (versions : List ℕ) (address : Text)
    → or_invalid (decode lib address >>= refuse_version versions)
      ≡ or_invalid (b58check_decode lib address >>= check_version versions)
unfolding decode decode_raw b58check_decode
base58_agrees lib versions address =
    rw (b58_digits_lem 0 address)
      (elim (b58_number 0 address)
        as (λ r.
          or_invalid
            (r >>= (λ n. ok (b58_bytes address n)) >>= check_raw lib >>= refuse_version versions)
          ≡ or_invalid
              (r >>= (λ n. b58_payload lib (b58_bytes address n)) >>= check_version versions)) [
                | err e ↦ refl
                | ok n ↦ payload_agrees lib versions (b58_bytes address n)
              ])

network_agrees :
    (lib : Libraries) (network : Text) (versions : List ℕ) (address : Text) (segwit : Bool)
    → or_invalid (
        if segwit
        then (Provided.bech32_decode lib address >>= refuse_segwit network)
        else (decode lib address >>= refuse_version versions))
      ≡ or_invalid (
          if segwit
          then (Checked.bech32_decode lib address >>= check_segwit network)
          else (b58check_decode lib address >>= check_version versions))
network_agrees lib network versions address true = ap or_invalid (segwit_agrees lib network address)
network_agrees lib network versions address false = base58_agrees lib versions address

utxo_agrees :
    (lib : Libraries) (asset : Asset) (address : Text)
    → or_invalid (Provided.validate_utxo_address lib asset address)
      ≡ or_invalid (Checked.validate_utxo_address lib asset address)
unfolding Provided.validate_utxo_address Checked.validate_utxo_address
utxo_agrees lib btc address =
    network_agrees lib (codes "bc") (0x00 ∷ 0x05 ∷ []) address
      (starts_with (codes "bc1") (lib.lower address))
utxo_agrees lib ltc address =
    network_agrees lib (codes "ltc") (0x30 ∷ 0x32 ∷ 0x05 ∷ []) address
      (starts_with (codes "ltc1") (lib.lower address))
utxo_agrees lib _ address = refl

or_invalid_idem : (r : Result (Unit {0})) → or_invalid (or_invalid r) ≡ or_invalid r
or_invalid_idem (ok a) = refl
or_invalid_idem (err e) = refl

stripped_agrees :
    (lib : Libraries) (asset : Asset) (address : Text)
    → asset_eq asset sol ≡ false
    → or_invalid (validate_network_address lib asset address)
      ≡ or_invalid (check_network_address lib asset address)
unfolding validate_network_address check_network_address asset_eq
stripped_agrees lib btc address h =
    rw (or_invalid_idem (Checked.validate_utxo_address lib btc address))
      (utxo_agrees lib btc address)
stripped_agrees lib ltc address h =
    rw (or_invalid_idem (Checked.validate_utxo_address lib ltc address))
      (utxo_agrees lib ltc address)
stripped_agrees lib eth address h = ap or_invalid (evm_agrees lib address)
stripped_agrees lib usdt address h = ap or_invalid (evm_agrees lib address)
stripped_agrees lib sol address h = ground arith

-- For every asset but SOL and every destination, the provider's address check accepts what the
-- wallet's accepts, and refuses what it refuses, whatever the libraries that both call.
pub destination_agrees :
    (lib : Libraries) (asset : Asset) (destination : Text)
    → asset_eq asset sol ≡ false
    → or_invalid (validate_destination_address lib asset destination)
      ≡ or_invalid (validate_withdrawal_address lib asset destination)
unfolding validate_destination_address validate_withdrawal_address
destination_agrees lib asset destination h =
    elim (is_empty (strip destination))
      as (λ empty.
        or_invalid (
          raise_if empty Outcome.destination_required
          >> validate_network_address lib asset (strip destination))
        ≡ or_invalid (
            raise_if empty Outcome.destination_required
            >> check_network_address lib asset (strip destination))) [
              | true ↦ refl
              | false ↦ stripped_agrees lib asset (strip destination) h
            ]
