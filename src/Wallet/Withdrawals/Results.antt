-- ===== src/Wallet/Withdrawals/Results.antt =====
-- wallet_service.py: what the provider reports of a withdrawal, checked and written to its row
-- (`record_withdrawal_provider_result`), and signer/withdrawal_provider.py for its shape.
use escrow_hub.Common.{
  ℕ, Bool, false, not, ◌&&◌, ◌||◌, Option, none, some, List, [], ◌∷◌, if◌then◌else◌, ◌==◌, ltb,
}
use escrow_hub.Text.{
  Text, codes, is_empty, text_eq, strip, lower, upper, length, drop, starts_with, all_in,
}
use escrow_hub.Asset.{Asset, name, btc, ltc, eth, usdt, sol}
use escrow_hub.Decimal.{Decimal, zero_amount, lt}
use escrow_hub.Outcome.{
  Result, ok, err, withdrawal_not_found, idempotency_mismatch, origin_mismatch,
  provider_ref_mismatch, provider_asset_mismatch, metadata_not_object, metadata_too_large,
  malformed_txid, provider_fee_asset_mismatch, provider_fee_negative, provider_fee_malformed,
}
use escrow_hub.Outcome
use escrow_hub.Outside.{Outside}
use escrow_hub.Table.{find}
use escrow_hub.Wallet.Charges.{quantize_asset}
use escrow_hub.Wallet.Withdrawals.Marks.{change, coalesce}
use escrow_hub.Db.{Action, pure, gets, lift, raise_if, or_raise, ◌>>=◌, ◌>>◌, Withdrawal}

-- A value in the provider's JSON under one of the keys of the fee.
pub data FeeValue : Type 0 where
  absent malformed : FeeValue
  decimal : Decimal → FeeValue

-- The metadata: an object, with its text and the keys that the wallet reads, or anything else.
pub data Metadata : Type 0 where
  not_an_object : Metadata
  an_object : (json : Text) (fee_asset : Option Text) (fee_values : List FeeValue) → Metadata

-- `WithdrawalExecutionResult`, and `WithdrawalReconciliationResult` with the same fields.
pub record ProviderResult : Type 0 where
  pub status : Text
  pub txid : Option Text
  pub asset : Option Text
  pub provider_ref : Option Text
  pub external_status : Option Text
  pub message : Option Text
  pub submitted_at : Option ℕ
  pub broadcasted_at : Option ℕ
  pub metadata : Option Metadata

-- `str(value or "").strip()`
abbrev pub text_of : Option Text → Text
text_of none = []
text_of (some s) = strip s

-- `NULLIF(?, '')`
abbrev pub non_blank : Text → Option Text
non_blank s = if is_empty s then none else some s

-- `a and b and a != b`
unfoldable pub differ : Text → Text → Bool
differ a b = not (is_empty a) && not (is_empty b) && not (text_eq a b)

abbrev pub hex_digits : Text
hex_digits = codes "0123456789abcdef"

unfoldable pub is_utxo_txid : Text → Bool
is_utxo_txid value = length (lower value) == 64 && all_in hex_digits (lower value)

unfoldable pub is_evm_txid : Text → Bool
is_evm_txid value =
    starts_with (codes "0x") (lower value)
    && length (lower value) == 66
    && all_in hex_digits (drop 2 (lower value))

unfoldable pub txid_fits_asset : Asset → Text → Bool
txid_fits_asset btc value = is_utxo_txid value
txid_fits_asset ltc value = is_utxo_txid value
txid_fits_asset eth value = is_evm_txid value
txid_fits_asset usdt value = is_evm_txid value
txid_fits_asset sol value = false

-- `_txid_sane_for_asset`
unfoldable pub txid_sane_for_asset : Asset → Option Text → Bool
unfolding txid_fits_asset
txid_sane_for_asset asset txid =
    let value = text_of txid in
    if is_empty value || ltb (length value) 16 || ltb 160 (length value)
    then false
    else txid_fits_asset asset value

-- The first value that is there, checked.
unfoldable pub first_fee : Asset → List FeeValue → Result (Option Decimal)
first_fee asset [] = ok none
first_fee asset (absent ∷ vs) = first_fee asset vs
first_fee asset (malformed ∷ vs) = err provider_fee_malformed
first_fee asset (decimal raw ∷ vs) =
    if lt raw zero_amount then err provider_fee_negative else ok (some (quantize_asset asset raw))

-- `_provider_actual_network_fee`, of an object
unfoldable pub provider_actual_network_fee :
    Asset → Option Text → List FeeValue → Result (Option Decimal)
unfolding first_fee
provider_actual_network_fee asset fee_asset values =
    let named : Text = elim fee_asset [ none ↦ name asset | some s ↦ strip (upper s) ] in
    Outcome.◌>>◌
      (Outcome.raise_if (not (is_empty named) && not (text_eq named (name asset)))
        provider_fee_asset_mismatch)
      (first_fee asset values)

-- The metadata's text and the fee in it.
unfoldable pub read_metadata : Asset → Option Metadata → Result (Option Text × Option Decimal)
unfolding provider_actual_network_fee
read_metadata asset none = ok (none, none)
read_metadata asset (some not_an_object) = err metadata_not_object
read_metadata asset (some (an_object json fee_asset values)) =
    Outcome.◌>>◌ (Outcome.raise_if (ltb 2000 (length json)) metadata_too_large) (
      Outcome.◌>>=◌ (provider_actual_network_fee asset fee_asset values) λ fee. ok (some json, fee))

abbrev pub is_on_chain : Text → Bool
is_on_chain status = text_eq status (codes "broadcasted") || text_eq status (codes "confirmed")

-- The checks of a result against the row, in their order.
unfoldable pub check_result :
    Text → Text → ProviderResult → Withdrawal → Result (Option Text × Option Decimal)
unfolding differ
check_result provider_origin idempotency_key r w =
    Outcome.◌>>◌
      (Outcome.raise_if
        (not (is_empty (text_of w.provider_origin))
          && not (text_eq (text_of w.provider_origin) provider_origin))
        origin_mismatch)
      (Outcome.◌>>◌
        (Outcome.raise_if (differ (strip w.idempotency_key) (strip idempotency_key))
          idempotency_mismatch)
        (Outcome.◌>>◌
          (Outcome.raise_if (differ (text_of w.provider_ref) (text_of r.provider_ref))
            provider_ref_mismatch)
          (Outcome.◌>>◌
            (Outcome.raise_if
              (not (is_empty (text_of r.asset))
                && not (text_eq (upper (text_of r.asset)) (name w.asset)))
              provider_asset_mismatch)
            (Outcome.◌>>=◌ (read_metadata w.asset r.metadata) λ read.
              Outcome.◌>>◌
                (Outcome.raise_if
                  (is_on_chain (lower (strip r.status)) && not (txid_sane_for_asset w.asset r.txid))
                  malformed_txid)
                (ok read)))))

-- `result.external_status or result.status or ""`
abbrev pub status_text : ProviderResult → Text
status_text r = elim r.external_status [
  | none ↦ r.status
  | some s ↦ if is_empty s then r.status else s
]

abbrev pub with_result :
    Outside → Text → Text → ProviderResult → Option Text → Option Decimal → Withdrawal → Withdrawal
with_result o provider_origin idempotency_key r json fee w = record w {
  provider_origin = coalesce w.provider_origin (some provider_origin);
  provider_ref = coalesce w.provider_ref (non_blank (text_of r.provider_ref));
  idempotency_key = if is_empty w.idempotency_key then idempotency_key else w.idempotency_key;
  external_status = non_blank (o.sanitize_runtime_error 64 (status_text r));
  submitted_at = coalesce w.submitted_at r.submitted_at;
  broadcasted_at = coalesce w.broadcasted_at r.broadcasted_at;
  tx_metadata_json = coalesce json w.tx_metadata_json;
  network_fee_actual_amount = coalesce fee w.network_fee_actual_amount;
}

unfoldable pub record_on_row :
    Outside → ℕ → Text → Text → ProviderResult → Option Withdrawal → Action (Unit {0})
unfolding change
record_on_row o withdrawal_id provider_origin idempotency_key r none = pure tt
record_on_row o withdrawal_id provider_origin idempotency_key r (some w) = do
  (json, fee) ← lift (check_result provider_origin idempotency_key r w)
  change withdrawal_id (with_result o provider_origin idempotency_key r json fee)

unfoldable pub record_withdrawal_provider_result :
    Outside → ℕ → Text → Text → ProviderResult → Action (Unit {0})
unfolding record_on_row
record_withdrawal_provider_result o withdrawal_id provider_origin idempotency_key r = do
  row ← gets (λ db. find withdrawal_id db.withdrawals)
  record_on_row o withdrawal_id provider_origin idempotency_key r row

abbrev pub with_first_key : Text → Withdrawal → Withdrawal
with_first_key key w = record w {
  idempotency_key = if is_empty w.idempotency_key then key else w.idempotency_key;
}

unfoldable pub persist_withdrawal_idempotency : ℕ → Text → Action (Unit {0})
unfolding change differ
persist_withdrawal_idempotency withdrawal_id idempotency_key = do
  w ← or_raise (← gets (λ db. find withdrawal_id db.withdrawals)) withdrawal_not_found
  raise_if (differ (strip w.idempotency_key) (strip idempotency_key)) idempotency_mismatch
  change withdrawal_id (with_first_key (strip idempotency_key))
