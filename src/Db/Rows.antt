-- ===== src/Db/Rows.antt =====
-- infra/db/schema.sql: the columns that the services read or write. Times are seconds.
use escrow_hub.Common.{ℕ, Bool, Option}
use escrow_hub.Text.{Text}
use escrow_hub.Asset.{Asset, ChainFamily}
use escrow_hub.Decimal.{Decimal}

pub record User : Type 0 where
  pub telegram_id : ℕ
  pub username : Option Text
  pub frozen : Bool

-- wallet_addresses
pub record WalletAddress : Type 0 where
  pub user_id : ℕ
  pub asset : Asset
  pub chain_family : ChainFamily
  pub address : Text
  pub address_fingerprint : Option Text
  pub derivation_index : Option ℕ
  pub destination_tag : Option Text
  pub derivation_path : Option Text
  pub provider_origin : Option Text
  pub provider_ref : Option Text

pub record Bot : Type 0 where
  pub owner_user_id : ℕ
  pub display_name : Text
  pub telegram_username : Option Text
  pub support_contact : Text
  pub bot_extra_fee_percent : Decimal

pub data EscrowStatus : Type 0 where
  pending active completed cancelled disputed : EscrowStatus

pub record EscrowRow : Type 0 where
  pub bot_id : ℕ
  pub buyer_id : ℕ
  pub seller_id : ℕ
  pub asset : Asset
  pub amount : Decimal
  pub status : EscrowStatus
  pub description : Text

pub data LockStatus : Type 0 where
  locked released : LockStatus

pub record Lock : Type 0 where
  pub user_id : ℕ
  pub asset : Asset
  pub amount : Decimal
  pub status : LockStatus

pub data RequestStatus : Type 0 where
  open_request accepted declined expired : RequestStatus

pub record CancelRequest : Type 0 where
  pub requester_user_id : ℕ
  pub responder_user_id : ℕ
  pub status : RequestStatus

-- The strings that `resolve_dispute` tests for, and any other.
pub data Resolution : Type 0 where
  release_seller refund_buyer split : Resolution
  other_resolution : Text → Resolution

pub data DisputeStatus : Type 0 where
  open_dispute resolved closed : DisputeStatus

pub record Dispute : Type 0 where
  pub opened_by_user_id : ℕ
  pub reason : Text
  pub status : DisputeStatus
  pub resolution_json : Option (Resolution × Decimal)

pub data AccountType : Type 0 where
  user platform_revenue bot_owner_revenue : AccountType

pub data EntryType : Type 0 where
  deposit deposit_platform_fee escrow_lock escrow_unlock escrow_release platform_fee : EntryType
  bot_fee adjustment withdrawal_reserve withdrawal_release withdrawal_platform_fee : EntryType
  withdrawal_network_fee withdrawal_network_fee_refund : EntryType
  withdrawal_network_fee_adjustment : EntryType

pub data RefType : Type 0 where
  deposit_ref escrow_ref withdrawal_ref : RefType

pub record LedgerEntry : Type 0 where
  pub account_type : AccountType
  pub account_owner_id : Option ℕ
  pub user_id : Option ℕ
  pub asset : Asset
  pub amount : Decimal
  pub entry_type : EntryType
  pub ref_type : RefType
  pub ref_id : ℕ

pub data DepositStatus : Type 0 where
  seen credited rejected : DepositStatus

pub record Deposit : Type 0 where
  pub user_id : ℕ
  pub asset : Asset
  pub amount : Decimal
  pub txid : Text
  pub unique_key : Text
  pub chain_family : ChainFamily
  pub confirmations : ℕ
  pub status : DepositStatus
  pub credited_amount : Decimal
  pub platform_fee_amount : Decimal

pub data WithdrawalStatus : Type 0 where
  pending submitted broadcasted confirmed failed signer_retry : WithdrawalStatus

pub record Withdrawal : Type 0 where
  pub user_id : ℕ
  pub asset : Asset
  pub amount : Decimal
  pub platform_fee_amount : Decimal
  pub network_fee_amount : Decimal
  pub network_fee_actual_amount : Option Decimal
  pub network_fee_settled_at : Option ℕ
  pub destination_address : Text
  pub status : WithdrawalStatus
  pub txid : Option Text
  pub failure_reason : Option Text
  pub provider_origin : Option Text
  pub provider_ref : Option Text
  pub idempotency_key : Text
  pub external_status : Option Text
  pub submitted_at : Option ℕ
  pub broadcasted_at : Option ℕ
  pub last_reconciled_at : Option ℕ
  pub tx_metadata_json : Option Text
  pub created_at : ℕ

-- The rows of `escrow_events` and `admin_actions`, with what their JSON holds.
pub data Event : Type 0 where
  escrow_created : Decimal → Asset → Event
  escrow_accepted escrow_cancelled : ℕ → Event
  escrow_released : Decimal → ℕ → Event
  escrow_disputed : Text → Event
  escrow_cancelled_mutual : ℕ → ℕ → Event
  dispute_resolved : Resolution → Event

pub record AdminAction : Type 0 where
  pub admin_user_id : ℕ
  pub escrow_id : ℕ
  pub resolution : Resolution
