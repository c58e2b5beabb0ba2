-- ===== src/Provider/Store.antt =====
-- withdrawal_provider_service/app.py: `ProviderStore`, the queue of withdrawals and its audit log.
use escrow_hub.Common.{
  ℕ, suc, Bool, true, false, not, ◌&&◌, ◌||◌, Option, none, some, List, [], ◌∷◌, ◌++◌,
  if◌then◌else◌,
}
use escrow_hub.Text.{Text, codes, take, is_empty, text_eq}
use escrow_hub.Asset.{Asset}
use escrow_hub.Outcome.{
  Error, Result, ok, err, not_an_integer, not_a_decimal, unsupported_status, txid_required,
  provider_ref_not_found, record_not_persisted, malformed_txid, integrity_error,
  amount_not_positive, missing_idempotency_key, index_error,
}
use escrow_hub.Outcome
use escrow_hub.Outside.{Outside}
use escrow_hub.Address.{Libraries}
use escrow_hub.Provider.Addresses.{txid_sane_for_asset}
use escrow_hub.Table.{Table, find_where}
use escrow_hub.Tenant.{is_some}
use escrow_hub.Wallet.Withdrawals.Marks.{coalesce}

pub record ProviderRecord : Type 0 where
  pub withdrawal_id : ℕ
  pub user_id : ℕ
  pub asset : Asset
  pub amount : Text
  pub destination_address : Text
  pub idempotency_key : Text
  pub provider_ref : Text
  pub status : Text
  pub external_status : Option Text
  pub txid : Option Text
  pub message : Option Text
  pub submitted_at : Option ℕ
  pub broadcasted_at : Option ℕ
  -- the text of a JSON object
  pub metadata : Option Text

-- provider_withdrawals and provider_audit_log, the newest row first.
pub record ProviderStore : Type 0 where
  pub records : Table ProviderRecord
  pub next_id : ℕ
  pub audit_log : List (Text × Text)

-- A validated execute request.
pub record ExecuteRequest : Type 0 where
  pub withdrawal_id : ℕ
  pub user_id : ℕ
  pub asset : Asset
  pub amount : Text
  pub destination_address : Text
  pub idempotency_key : Text

abbrev pub has_idempotency : Text → ProviderRecord → Bool
has_idempotency key r = text_eq r.idempotency_key key

abbrev pub has_ref : Text → ProviderRecord → Bool
has_ref ref r = text_eq r.provider_ref ref

abbrev pub row_of : Option (ℕ × ProviderRecord) → Option ProviderRecord
row_of none = none
row_of (some (_, r)) = some r

unfoldable pub get_by_idempotency : Text → ProviderStore → Option ProviderRecord
get_by_idempotency key s = row_of (find_where (has_idempotency key) s.records)

unfoldable pub get_by_provider_ref : Text → ProviderStore → Option ProviderRecord
get_by_provider_ref ref s = row_of (find_where (has_ref ref) s.records)

-- `_provider_ref`
unfoldable pub provider_ref_of : Outside → ℕ → Text → Text
provider_ref_of o withdrawal_id idempotency_key =
    codes "mprov:" ++ o.str_int withdrawal_id ++ codes ":" ++ take 20 (o.sha256_hex idempotency_key)

abbrev pub submitted_record : Outside → ExecuteRequest → ProviderRecord
submitted_record o q = record {
  withdrawal_id = q.withdrawal_id;
  user_id = q.user_id;
  asset = q.asset;
  amount = q.amount;
  destination_address = q.destination_address;
  idempotency_key = q.idempotency_key;
  provider_ref = provider_ref_of o q.withdrawal_id q.idempotency_key;
  status = codes "submitted";
  external_status = some (codes "queued_manual_review");
  txid = none;
  message = some (codes "queued for manual withdrawal execution");
  submitted_at = some o.now;
  broadcasted_at = none;
  metadata = some (codes "{\"mode\": \"manual\"}");
}

abbrev pub add_record : ProviderRecord → ProviderStore → ProviderStore
add_record r s = record {
  records = (s.next_id, r) ∷ s.records;
  next_id = suc s.next_id;
  audit_log = (r.provider_ref, codes "execute") ∷ s.audit_log;
}

-- The UNIQUE columns refuse a second row.
unfoldable pub create_submitted :
    Outside → ExecuteRequest → ProviderStore → Result ProviderRecord × ProviderStore
unfolding get_by_idempotency get_by_provider_ref
create_submitted o q s =
    let r = submitted_record o q in
    if is_some (get_by_idempotency q.idempotency_key s)
      || is_some (get_by_provider_ref r.provider_ref s)
    then (err integrity_error, s)
    else (
      Outcome.or_raise (get_by_provider_ref r.provider_ref (add_record r s)) record_not_persisted,
      add_record r s,
    )

abbrev pub all_statuses : List Text
all_statuses =
    codes "submitted"
    ∷ codes "broadcasted"
    ∷ codes "confirmed"
    ∷ codes "rejected"
    ∷ codes "permanent_failure"
    ∷ codes "retryable"
    ∷ codes "ambiguous"
    ∷ codes "unknown"
    ∷ []

unfoldable pub mem_text : Text → List Text → Bool
mem_text t [] = false
mem_text t (x ∷ xs) = text_eq x t || mem_text t xs

abbrev pub on_chain_status : Text → Bool
on_chain_status s = text_eq s (codes "broadcasted") || text_eq s (codes "confirmed")

-- `if not txid`
abbrev pub missing : Option Text → Bool
missing none = true
missing (some t) = is_empty t

-- `txid is not None and not _txid_sane_for_asset(…)`
abbrev pub insane : Libraries → Asset → Option Text → Bool
insane lib asset none = false
insane lib asset (some t) = not (txid_sane_for_asset lib asset t)

-- What an operator sets.
pub record StatusUpdate : Type 0 where
  pub status : Text
  pub txid : Option Text
  pub message : Option Text
  pub external_status : Option Text
  pub metadata : Option Text

abbrev pub text_or : Text → Option Text → Text
text_or default none = default
text_or default (some t) = if is_empty t then default else t

abbrev pub with_update : ℕ → StatusUpdate → ProviderRecord → ProviderRecord
with_update now u r = record r {
  status = u.status;
  external_status = some (take 64 (text_or u.status u.external_status));
  txid = coalesce u.txid r.txid;
  message = elim (take 500 (text_or [] u.message)) [ [] ↦ none | x ∷ xs ↦ some (x ∷ xs) ];
  submitted_at = coalesce r.submitted_at (some now);
  broadcasted_at = coalesce r.broadcasted_at (if on_chain_status u.status then some now else none);
  metadata = coalesce u.metadata r.metadata;
}

-- UPDATE provider_withdrawals … WHERE provider_ref=?
unfoldable pub update_ref :
    Text → (ProviderRecord → ProviderRecord) → Table ProviderRecord → Table ProviderRecord
update_ref ref f [] = []
update_ref ref f ((k, r) ∷ rs) = (if has_ref ref r then (k, f r) else (k, r)) ∷ update_ref ref f rs

-- The checks before the UPDATE.
unfoldable pub check_update : Libraries → Text → StatusUpdate → ProviderStore → Result (Unit {0})
unfolding mem_text get_by_provider_ref
check_update lib ref u s =
    Outcome.◌>>◌ (Outcome.raise_if (not (mem_text u.status all_statuses)) unsupported_status) (
      Outcome.◌>>◌ (Outcome.raise_if (on_chain_status u.status && missing u.txid) txid_required) (
        Outcome.◌>>=◌ (Outcome.or_raise (get_by_provider_ref ref s) provider_ref_not_found)
          λ row. Outcome.raise_if (insane lib row.asset u.txid) malformed_txid))

unfoldable pub update_status :
    Outside → Text → StatusUpdate → ProviderStore → Result ProviderRecord × ProviderStore
unfolding update_ref
update_status o ref u s = elim (check_update o.libraries ref u s) [
  | err e ↦ (err e, s)
  | ok _ ↦
      let s' : ProviderStore = record s {
        records = update_ref ref (with_update o.now u) s.records;
        audit_log = (ref, codes "status:" ++ u.status) ∷ s.audit_log;
      } in
      (Outcome.or_raise (get_by_provider_ref ref s') record_not_persisted, s')
]

abbrev keep_status : Text → Table ProviderRecord → List ProviderRecord → List ProviderRecord
keep_status status [] oldest_first = oldest_first
keep_status status ((_, r) ∷ rs) oldest_first =
    keep_status status rs
      (if is_empty status || text_eq r.status status then r ∷ oldest_first else oldest_first)

-- `list_records`: the oldest first.
unfoldable pub list_records : Option Text → ℕ → ProviderStore → List ProviderRecord
list_records status limit s = take limit (keep_status (text_or [] status) s.records [])
