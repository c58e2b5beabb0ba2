-- ===== src/Tests/ChainRuns.antt =====
-- The ETH watcher on a node whose every block pays one wei to a user's address.
use escrow_hub.Common.{ℕ, ◌≡◌, refl, pos, true, false, none, some, List, [], ◌∷◌, arith}
use escrow_hub.Text.{Text, codes}
use escrow_hub.Decimal.{Decimal}
use escrow_hub.Outcome.{ok}
use escrow_hub.Watcher.{read_watcher_cursor}
use escrow_hub.Chain.Scan.{ChainDeposit, load_cursor}
use escrow_hub.Chain.Eth.{
  EthTransaction, EthNode, EthConfig, eth_deposit, event_amount, block_deposits,
}
use escrow_hub.Asset.{eth, ethereum}
use escrow_hub.Db.{Db, WalletAddress}
use escrow_hub.Wallet.Routes.{monitored_deposit_address_map}
use escrow_hub.Chain.Watch.{Polled, address_map}
use escrow_hub.Chain.Includes.{Includes}
use escrow_hub.Chain.Watched.{Turn, watch}
use escrow_hub.Chain.Progress.{Answers, Served, watch-catches_up}
use escrow_hub.Tests.{funded_db, some_settings, settled_connection, some_outside}

abbrev an_address : Text
an_address = codes "0x00000000000000000000000000000000000000aa"

abbrev a_transaction : EthTransaction
a_transaction = record {
  to = some an_address;
  value = some (codes "0x6");
  hash = some (codes "0xbeef");
}

-- Every number that the node writes is six.
abbrev a_node : EthNode
a_node = record {
  int16 = λ _. ok 6;
  str_int = λ n. n ∷ [];
  block_number = ok (some (codes "0x6"));
  get_block = λ _. ok (a_transaction ∷ []);
  get_logs = λ _ _. ok [];
}

abbrev a_config : EthConfig
a_config = record {
  has_rpc_url = true;
  is_test = false;
  address_user_map = (an_address, 1) ∷ [];
  confirmations_required = 2;
  has_usdt_contract = true;
  network = codes "ethereum";
  configured_max_blocks = 3;
  start_block = 0;
}

abbrev a_turn : Turn
a_turn = record { outside = some_outside; node = a_node }

abbrev one_turn : List Turn
one_turn = a_turn ∷ []

abbrev eth_row : WalletAddress
eth_row = record {
  user_id = 1;
  asset = eth;
  chain_family = ethereum;
  address = an_address;
  address_fingerprint = none;
  derivation_index = none;
  destination_tag = none;
  derivation_path = none;
  provider_origin = none;
  provider_ref = none;
}

abbrev routed_db : Db
routed_db = record funded_db { wallet_addresses = (1, eth_row) ∷ []; next_wallet_address = 2 }

abbrev idle : Polled
idle = record { connection = settled_connection routed_db; rows = [] }

abbrev the_users : List (Text × ℕ)
the_users = (an_address, 1) ∷ []

mapped : address_map some_outside routed_db ≡ ok the_users
unfolding address_map monitored_deposit_address_map escrow_hub.Asset.asset_eq
    escrow_hub.Wallet.Vault.decrypt_text escrow_hub.Text.starts_with
    escrow_hub.Wallet.Routes.normalize_address_for_chain escrow_hub.Text.strip
    escrow_hub.Wallet.Addresses.validate_withdrawal_address escrow_hub.Wallet.Vault.decrypt_field
    escrow_hub.Text.lower
mapped = refl

abbrev paid : List ChainDeposit
paid = eth_deposit a_config 1 (event_amount 18 6) (codes "0xbeef") an_address ∷ []

in_late_block : (b : ℕ) → block_deposits (record a_config { start_block = 3 }) a_node b ≡ ok paid
unfolding block_deposits escrow_hub.Chain.Eth.transaction_deposit escrow_hub.Text.text_eq
    escrow_hub.Decimal.lt escrow_hub.Common.scale escrow_hub.Common.pow10
in_late_block b = refl

answers : Answers (record a_config { start_block = 3 }) 4 a_node
unfolding escrow_hub.Chain.Eth.finalized_head escrow_hub.Chain.Eth.token_deposits
answers = record {
  at_head = refl;
  on_block = λ b. (paid, in_late_block b);
  on_tokens = λ first last. ([], refl);
}

-- The same, started one block below the head.
abbrev late_config : EthConfig
late_config = record a_config { start_block = 3 }

served : Served late_config 4 a_turn idle
served = record { users = the_users; made = mapped; answers = answers }

progress_example :
    load_cursor 3 (
      read_watcher_cursor
        (codes "eth_watcher")
        (watch some_settings late_config one_turn idle).rows)
    ≡ 4
unfolding load_cursor read_watcher_cursor escrow_hub.Watcher.find_row
progress_example =
    watch-catches_up some_settings late_config 4 one_turn idle refl refl (served, tt) (omega arith)
      (omega arith)
