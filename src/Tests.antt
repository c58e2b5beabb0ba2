-- ===== src/Tests.antt =====
-- The services run on a small database: a buyer with 100 USDT, a seller, a bot and its owner.
mod EscrowRuns
mod WalletRuns
mod AddressRuns
mod RouteRuns
mod SignerRuns
mod RefundRuns
mod PriceRuns
mod ChainRuns
use escrow_hub.Common.{ℕ, none, some, List, [], ◌∷◌, false, true}
use escrow_hub.Text.{Text, codes, lower, upper}
use escrow_hub.Address.{Libraries}
use escrow_hub.Asset.{Asset, usdt}
use escrow_hub.Decimal.{Decimal, of_ℕ}
use escrow_hub.Settings.{Settings}
use escrow_hub.Outside.{Outside}
use escrow_hub.Outcome.{ok}
use escrow_hub.Wallet.Vault.{Vault}
use escrow_hub.Price.{wallet_fallback_prices}
use escrow_hub.Db.{Db, User, Bot, LedgerEntry, user, EntryType, deposit_ref, Withdrawal}
use escrow_hub.Db.Transaction.{Connection}

abbrev pub a_user : ℕ → User
a_user telegram_id = record { telegram_id = telegram_id; username = none; frozen = false }

abbrev pub a_bot : Bot
a_bot = record {
  owner_user_id = 3;
  display_name = codes "bot";
  telegram_username = none;
  support_contact = codes "help";
  bot_extra_fee_percent = of_ℕ 1;
}

abbrev pub funding : LedgerEntry
funding = record {
  account_type = user;
  account_owner_id = some 1;
  user_id = some 1;
  asset = usdt;
  amount = of_ℕ 100;
  entry_type = EntryType.deposit;
  ref_type = deposit_ref;
  ref_id = 1;
}

abbrev pub funded_db : Db
funded_db = record {
  users = (3, a_user 103) ∷ (2, a_user 102) ∷ (1, a_user 101) ∷ [];
  next_user = 4;
  bots = (1, a_bot) ∷ [];
  escrows = [];
  next_escrow = 1;
  escrow_locks = [];
  active_cancel_requests = [];
  disputes = [];
  escrow_events = [];
  admin_actions = [];
  ledger_entries = funding ∷ [];
  deposits = [];
  next_deposit = 1;
  withdrawals = [];
  next_withdrawal = 1;
  wallet_addresses = [];
  next_wallet_address = 1;
}

abbrev pub some_settings : Settings
some_settings = record {
  moderator_ids = 9 ∷ [];
  escrow_platform_fee_percent = of_ℕ 3;
  deposit_platform_fee_percent = of_ℕ 1;
  withdrawal_platform_fee_percent = of_ℕ 1;
  withdrawal_network_fee = λ _. of_ℕ 1;
  withdrawal_minimum_usd = of_ℕ 10;
  withdrawal_daily_limit_usd = of_ℕ 1000;
  withdrawal_min_interval_seconds = 30;
  withdrawals_enabled = true;
}

abbrev pub settled_connection : Db → Connection
settled_connection db = record { committed = db; working = db; in_transaction = false }

-- A toy digest: only what depends on no digest is run with it.
abbrev pub some_libraries : Libraries
some_libraries = record {
  sha256 = λ bytes. bytes;
  lower = lower;
  upper = upper;
  is_alpha = λ _. false;
  is_address = λ _. true;
  is_checksum_address = λ _. true;
  decodes_sol = λ _. true;
  to_checksum_address = λ t. t;
}

-- A vault whose seal is the text itself.
abbrev pub some_vault : Vault
some_vault = record {
  has_key = true;
  is_production = true;
  seal = λ t. t;
  unseal = λ t. ok t;
  unseal_legacy = λ t. ok t;
}

abbrev pub some_outside : Outside
some_outside = record {
  live_prices = wallet_fallback_prices;
  now = 1000;
  str_int = λ n. n ∷ [];
  str_decimal = λ d. d.places ∷ [];
  sha256_hex = λ t. t;
  libraries = some_libraries;
  vault = some_vault;
  sanitize_runtime_error = λ _ t. t;
  str_exception = λ _. codes "error";
}
