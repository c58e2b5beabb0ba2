-- ===== src/Outcome.antt =====
-- What a call returns: a value, or the exception that it raises, one constructor for each message.
use escrow_hub.Common.{Bool, true, false, Option, none, some, ◌≡◌, ◌⊎◌, inl, inr, refl}

pub data Error : Type 0 where
  -- fee_service.py, wallet_service.py: settings and amounts
  fee_percent_out_of_range unsupported_asset withdrawal_minimum_not_positive : Error
  price_unavailable provider_fee_asset_mismatch provider_fee_negative provider_fee_malformed : Error
  -- price_service.py
  price_lookup_failed below_minimum_escrow : Error
  -- escrow_service.py
  tenant_not_found deal_with_self description_required description_too_long : Error
  insufficient_balance escrow_not_found escrow_not_pending only_seller_accepts : Error
  escrow_not_active only_buyer_releases not_disputable only_participants_dispute : Error
  only_participants_cancel cancel_needs_consent not_cancellable mutual_needs_active : Error
  mutual_needs_participants mutual_needs_two no_open_cancel_request unauthorized_moderator : Error
  escrow_not_disputed invalid_resolution escrow_lock_missing : Error
  -- wallet_service.py: withdrawals
  withdrawals_disabled amount_not_positive invalid_address account_frozen rate_limited : Error
  below_minimum_withdrawal daily_limit_exceeded withdrawal_not_found not_in_signer_retry : Error
  unsupported_transition missing_idempotency_key idempotency_mismatch origin_mismatch : Error
  provider_ref_mismatch provider_asset_mismatch metadata_not_object metadata_too_large : Error
  malformed_txid : Error
  -- wallet_service.py, withdrawal_provider_service/app.py: addresses
  invalid_base58_character base58_too_short invalid_base58_checksum mixed_case_bech32 : Error
  invalid_bech32_separator invalid_bech32_character invalid_bech32_checksum index_error : Error
  invalid_checksum_address unsupported_utxo_asset destination_required : Error
  -- wallet_service.py: stored addresses
  encryption_key_required encrypted_without_key empty_wallet_address fingerprint_mismatch : Error
  duplicate_route route_conflict invalid_deposit_address fingerprint_collision : Error
  provider_ref_rebound : Error
  -- signer/errors.py: a failure by class
  retryable deterministic misconfigured : Error
  -- withdrawal_provider_service/app.py
  not_an_integer not_a_decimal : Error
  unsupported_status txid_required provider_ref_not_found record_not_persisted : Error
  -- sqlite3.IntegrityError, and an attribute read from None
  integrity_error attribute_error : Error

pub data Result {ℓ} (A : Type ℓ) : Type ℓ where
  ok : A → Result A
  err : Error → Result A

-- `if test: raise e`
abbrev pub raise_if : Bool → Error → Result (Unit {0})
raise_if true e = err e
raise_if false e = ok tt

abbrev pub or_raise {ℓ} : {A : Type ℓ} → Option A → Error → Result A
or_raise none e = err e
or_raise (some a) e = ok a

-- `try: m except Exception: k`
abbrev pub or_else {ℓ} : {A : Type ℓ} → Result A → Result A → Result A
or_else (ok a) k = ok a
or_else (err e) k = k

infixl 5 ◌>>=◌ ◌>>◌
-- The statements after a call that raises are skipped.
abbrev pub ◌>>=◌ {κ ℓ} : {B : Type κ} {A : Type ℓ} → Result A → (A → Result B) → Result B
err e >>= next = err e
ok a >>= next = next a

abbrev pub ◌>>◌ {κ} : {B : Type κ} → Result (Unit {0}) → Result B → Result B
first >> next = first >>= λ _. next

pub ok-injective {ℓ} : {A : Type ℓ} {a b : A} → ok a ≡ ok b → a ≡ b
ok-injective h = cc

-- What a chain that returns has gone through.
pub >>=-eq-ok {ℓ κ} :
    {A : Type ℓ} {B : Type κ} (r : Result A) (next : A → Result B) {b : B}
    → (r >>= next) ≡ ok b
    → (a : A) × (r ≡ ok a) × (next a ≡ ok b)
>>=-eq-ok (err e) next returns = cc
>>=-eq-ok (ok a) next returns = (a, refl, returns)

pub Result-cases {ℓ} :
    {A : Type ℓ} (r : Result A) → ((a : A) × (r ≡ ok a)) ⊎ ((e : Error) × (r ≡ err e))
Result-cases (ok a) = inl (a, refl)
Result-cases (err e) = inr (e, refl)

pub or_raise-ok {ℓ} :
    {A : Type ℓ} {found : Option A} (e : Error) {a : A} → or_raise found e ≡ ok a → found ≡ some a
or_raise-ok {found = none} e returns = cc
or_raise-ok {found = some b} e returns = cc
