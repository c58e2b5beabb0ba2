-- ===== src/Provider/Handlers.antt =====
-- withdrawal_provider_service/app.py: the HTTP handlers of `WithdrawalProviderApplication`.
use escrow_hub.Common.{ℕ, Bool, false, not, ◌&&◌, Option, none, some, if◌then◌else◌, ◌==◌}
use escrow_hub.Text.{Text, codes, take, is_empty, text_eq, strip, upper}
use escrow_hub.Asset.{name, asset_eq, parse_asset}
use escrow_hub.Decimal.{Decimal, zero_amount, lt}
use escrow_hub.Outcome.{
  Error, Result, ok, err, not_an_integer, not_a_decimal, unsupported_status, txid_required,
  provider_ref_not_found, record_not_persisted, malformed_txid, integrity_error,
  amount_not_positive, missing_idempotency_key, index_error,
}
use escrow_hub.Outcome
use escrow_hub.Outside.{Outside}
use escrow_hub.Provider.Addresses.{validate_destination_address}
use escrow_hub.Tenant.{is_some}
use escrow_hub.Wallet.Withdrawals.Marks.{coalesce}
use escrow_hub.Wallet.Withdrawals.Results.{non_blank}
use escrow_hub.Provider.Store.{
  ProviderRecord, ProviderStore, ExecuteRequest, get_by_idempotency, get_by_provider_ref,
  create_submitted, text_or,
}

-- A payload, with what `int` and `Decimal` make of its numbers.
pub record ExecutePayload : Type 0 where
  pub withdrawal_id : Option ℕ
  pub user_id : Option ℕ
  pub asset : Text
  pub amount : Option Decimal
  pub destination_address : Text
  pub idempotency_key : Text

pub record ReconcilePayload : Type 0 where
  pub withdrawal_id : Option ℕ
  pub idempotency_key : Text
  pub provider_ref : Text

-- An HTTP body: the fields that are there.
pub record Response : Type 0 where
  pub status : Text
  pub asset : Option Text
  pub provider_ref : Option Text
  pub external_status : Option Text
  pub message : Option Text
  pub submitted_at : Option ℕ
  pub broadcasted_at : Option ℕ
  pub metadata : Option Text
  pub txid : Option Text

abbrev pub external_or_status : ProviderRecord → Text
external_or_status r = text_or r.status r.external_status

-- `_record_to_response`
unfoldable pub record_to_response : ProviderRecord → Response
record_to_response r = record {
  status = r.status;
  asset = some (name r.asset);
  provider_ref = some r.provider_ref;
  external_status = some (external_or_status r);
  message = r.message;
  submitted_at = r.submitted_at;
  broadcasted_at = r.broadcasted_at;
  metadata = r.metadata;
  txid = r.txid;
}

-- `_record_matches`
unfoldable pub record_matches : ProviderRecord → ExecuteRequest → Bool
record_matches r q =
    r.withdrawal_id == q.withdrawal_id
    && r.user_id == q.user_id
    && asset_eq r.asset q.asset
    && text_eq r.amount q.amount
    && text_eq r.destination_address q.destination_address

-- `_validate_execute_payload`
unfoldable pub validate_execute_payload : Outside → ExecutePayload → Result ExecuteRequest
validate_execute_payload o p =
    Outcome.◌>>=◌ (Outcome.or_raise p.withdrawal_id not_an_integer) λ withdrawal_id.
      Outcome.◌>>=◌ (Outcome.or_raise p.user_id not_an_integer) λ user_id.
        Outcome.◌>>=◌ (parse_asset (strip (upper p.asset))) λ asset.
          Outcome.◌>>=◌ (Outcome.or_raise p.amount not_a_decimal) λ amount.
            Outcome.◌>>◌ (Outcome.raise_if (not (lt zero_amount amount)) amount_not_positive) (
              Outcome.◌>>◌
                (validate_destination_address o.libraries asset (strip p.destination_address))
                (Outcome.◌>>◌
                  (Outcome.raise_if (is_empty (strip p.idempotency_key)) missing_idempotency_key)
                  (ok (record {
                    withdrawal_id = withdrawal_id;
                    user_id = user_id;
                    asset = asset;
                    amount = o.str_decimal amount;
                    destination_address = strip p.destination_address;
                    idempotency_key = strip p.idempotency_key;
                  }))))

abbrev pub refusal : Text → Option Text → Text → Response
refusal status asset message = record {
  status = status;
  asset = asset;
  provider_ref = none;
  external_status = none;
  message = some message;
  submitted_at = none;
  broadcasted_at = none;
  metadata = none;
  txid = none;
}

-- The answer for a key that another withdrawal has.
abbrev pub ambiguous_response : ProviderRecord → Response
ambiguous_response r = record (record_to_response r) {
  status = codes "ambiguous";
  message = some (codes "idempotency_key already exists with different withdrawal fields");
}

-- `handle_execute`, of a validated request
unfoldable pub execute_request :
    Outside → ExecuteRequest → ProviderStore → Result Response × ProviderStore
unfolding record_to_response record_matches
execute_request o q s = elim (get_by_idempotency q.idempotency_key s) [
  | some existing ↦ (
    ok (
        if record_matches existing q
        then record_to_response existing
        else ambiguous_response existing),
    s,
  )
  | none ↦
      let (r, s') = create_submitted o q s in
      (Outcome.◌>>=◌ r (λ created. ok (record_to_response created)), s')
]

-- `except ValidationError`: an IndexError is not one.
abbrev pub rejected : Outside → ExecutePayload → Error → Result Response
rejected o p index_error = err index_error
rejected o p e =
    ok (refusal (codes "rejected") (non_blank (upper p.asset)) (take 500 (o.str_exception e)))

unfoldable pub handle_execute :
    Outside → ExecutePayload → ProviderStore → Result Response × ProviderStore
unfolding execute_request
handle_execute o p s = elim (validate_execute_payload o p) [
  | err e ↦ (rejected o p e, s)
  | ok q ↦ execute_request o q s
]

-- The record that a reconcile request names, or that its reference has another key.
abbrev pub mismatched : Text → Option ProviderRecord → Bool
mismatched key none = false
mismatched key (some r) = not (text_eq r.idempotency_key key)

abbrev pub mismatch_response : Option ProviderRecord → Response
mismatch_response none = refusal (codes "unknown") none (codes "provider record not found")
mismatch_response (some r) =
    record (refusal (codes "ambiguous") (some (name r.asset))
      (codes "provider_ref/idempotency_key mismatch")) {
        provider_ref = some r.provider_ref;
        external_status = some (external_or_status r);
      }

abbrev pub found_response : Option ProviderRecord → Response
found_response none = refusal (codes "unknown") none (codes "provider record not found")
found_response (some r) = record_to_response r

unfoldable pub handle_reconcile : ReconcilePayload → ProviderStore → Response
unfolding record_to_response
handle_reconcile p s =
    let key = strip p.idempotency_key in
    let ref = strip p.provider_ref in
    let named = if is_empty ref then none else get_by_provider_ref ref s in
    if not (is_some p.withdrawal_id)
    then refusal (codes "unknown") none (codes "withdrawal_id must be an integer")
    else if is_empty key
    then refusal (codes "unknown") none (codes "idempotency_key is required")
    else if mismatched key named
    then mismatch_response named
    else found_response (coalesce named (get_by_idempotency key s))
