-- ===== src/Chain/Eth.antt =====
-- infra/chain_adapters/eth_rpc.py: the deposits of ETH and USDT in the blocks after the cursor. The
-- remote procedure calls, `int(…, 16)` and the environment are parameters.
use escrow_hub.Common.{
  ℕ, suc, ◌-◌, max, pos, Bool, true, false, not, ◌&&◌, ◌||◌, Option, none, some, List, [], ◌∷◌,
  ◌++◌, if◌then◌else◌, ◌==◌, leb,
}
use escrow_hub.Text.{Text, codes, length, drop, is_empty, lower}
use escrow_hub.Asset.{Asset, name, eth, usdt}
use escrow_hub.Decimal.{Decimal, zero_amount, lt}
use escrow_hub.Outcome.{Result, ok, ◌>>=◌, ◌>>◌, raise_if, misconfigured}
use escrow_hub.Chain.Scan.{
  ChainDeposit, user_of, load_cursor, collect, polled_blocks, polled_cursor, last_block,
}

pub record EthTransaction : Type 0 where
  pub to : Option Text
  pub value : Option Text
  pub hash : Option Text

pub record EthLog : Type 0 where
  pub topics : List Text
  pub transaction_hash : Option Text
  -- `ev.get("data", "0x0")`
  pub payload : Option Text
  pub log_index : Option Text

-- An event of ETH_DEPOSIT_EVENTS_JSON with a supported asset, and what `Decimal` and `int` make of its numbers.
pub record EnvEvent : Type 0 where
  pub to : Option Text
  pub asset : Asset
  pub amount : Result Decimal
  pub txid : Option Text
  pub unique_key : Option Text
  pub confirmations : Result ℕ

-- What the node answers, and what `int(value, 16)` makes of a text.
pub record EthNode : Type 0 where
  pub int16 : Text → Result ℕ
  pub str_int : ℕ → Text
  pub block_number : Result (Option Text)
  pub get_block : ℕ → Result (List EthTransaction)
  pub get_logs : ℕ → ℕ → Result (List EthLog)

pub record EthConfig : Type 0 where
  pub has_rpc_url : Bool
  pub is_test : Bool
  pub address_user_map : List (Text × ℕ)
  pub confirmations_required : ℕ
  pub has_usdt_contract : Bool
  pub network : Text
  -- Settings.eth_max_blocks_per_run
  pub configured_max_blocks : ℕ
  pub start_block : ℕ

abbrev pub max_blocks_per_run : EthConfig → ℕ
max_blocks_per_run cfg = max 1 cfg.configured_max_blocks

-- `str(value or "")`
abbrev pub text_or_empty : Option Text → Text
text_or_empty none = []
text_or_empty (some t) = t

unfoldable pub hex_to_int : EthNode → Option Text → Result ℕ
hex_to_int node none = ok 0
hex_to_int node (some []) = ok 0
hex_to_int node (some (c ∷ s)) = node.int16 (c ∷ s)

-- `h.replace("0x", "")`
unfoldable pub remove_0x : Text → Text
remove_0x [] = []
remove_0x (c ∷ []) = c ∷ []
remove_0x (c ∷ d ∷ s) =
    let cut = remove_0x s in
    let kept = remove_0x (d ∷ s) in if c == b'0' && d == b'x' then cut else c ∷ kept

unfoldable pub normalize_hex_address : Option Text → Text
unfolding remove_0x lower
normalize_hex_address none = []
normalize_hex_address (some raw) =
    let h = remove_0x (lower raw) in
    if leb 40 (length h) then codes "0x" ++ drop (length h - 40) h else []

unfoldable pub finalized_head : EthConfig → EthNode → Result ℕ
unfolding hex_to_int
finalized_head cfg node =
    node.block_number >>= λ head. hex_to_int node head >>= λ n. ok (n - cfg.confirmations_required)

-- `_event_amount`: the units of 18 places, or of 6.
abbrev pub event_amount : ℕ → ℕ → Decimal
event_amount places n = record { coeff = pos n; places = places }

-- The deposit, if the transaction has an id and the amount is positive.
abbrev pub if_positive : Bool → ChainDeposit → List ChainDeposit
if_positive true d = d ∷ []
if_positive false d = []

abbrev pub eth_deposit : EthConfig → ℕ → Decimal → Text → Text → ChainDeposit
eth_deposit cfg uid amount txid to_addr = record {
  user_id = uid;
  asset = eth;
  amount = amount;
  txid = txid;
  unique_key = cfg.network ++ codes ":eth:" ++ txid ++ codes ":ETH:0:" ++ to_addr;
  confirmations = cfg.confirmations_required;
  finalized = true;
}

-- A transaction of a block.
unfoldable pub transaction_deposit :
    EthConfig → EthNode → EthTransaction → Result (List ChainDeposit)
unfolding normalize_hex_address hex_to_int user_of
transaction_deposit cfg node tx =
    let to_addr = normalize_hex_address tx.to in
    let txid = lower (text_or_empty tx.hash) in
    elim (user_of (lower to_addr) cfg.address_user_map) [
      | none ↦ ok []
      | some uid ↦ hex_to_int node tx.value >>= λ n.
          let amount = event_amount 18 n in
          ok (
            if_positive (not (is_empty txid) && lt zero_amount amount)
              (eth_deposit cfg uid amount txid to_addr))
    ]

abbrev pub usdt_deposit : EthConfig → ℕ → Decimal → Text → Text → Text → ChainDeposit
usdt_deposit cfg uid amount txid index to_addr = record {
  user_id = uid;
  asset = usdt;
  amount = amount;
  txid = txid;
  unique_key =
      cfg.network ++ codes ":eth:" ++ txid ++ codes ":USDT:" ++ index ++ codes ":" ++ to_addr;
  confirmations = cfg.confirmations_required;
  finalized = true;
}

-- A transfer's log, with the amount in it; its index is read only where a deposit comes of it.
unfoldable pub log_amount : EthConfig → EthNode → EthLog → Text → ℕ → ℕ → Result (List ChainDeposit)
unfolding hex_to_int
log_amount cfg node ev to_addr uid n =
    let txid = lower (text_or_empty ev.transaction_hash) in
    let amount = event_amount 6 n in
    if not (is_empty txid) && lt zero_amount amount
    then (hex_to_int node ev.log_index >>= λ li.
        ok (usdt_deposit cfg uid amount txid (node.str_int li) to_addr ∷ []))
    else ok []

unfoldable pub log_deposit : EthConfig → EthNode → EthLog → Result (List ChainDeposit)
unfolding normalize_hex_address hex_to_int user_of
log_deposit cfg node ev = elim ev.topics [
  | a ∷ b ∷ topic ∷ topics ↦
      let to_addr = normalize_hex_address (some topic) in
      elim (user_of (lower to_addr) cfg.address_user_map) [
        | none ↦ ok []
        | some uid ↦ hex_to_int node ev.payload >>= log_amount cfg node ev to_addr uid
      ]
  | _ ↦ ok []
]

unfoldable pub block_deposits : EthConfig → EthNode → ℕ → Result (List ChainDeposit)
unfolding collect
block_deposits cfg node block_num =
    node.get_block block_num >>= collect (transaction_deposit cfg node)

unfoldable pub token_deposits : EthConfig → EthNode → ℕ → ℕ → Result (List ChainDeposit)
unfolding collect
token_deposits cfg node from_block to_block =
    if cfg.has_usdt_contract
    then (node.get_logs from_block to_block >>= collect (log_deposit cfg node))
    else ok []

-- The blocks after `start`, and the logs in them.
unfoldable pub poll : EthConfig → EthNode → ℕ → ℕ → Result (List ChainDeposit × Option ℕ)
poll cfg node finalized start =
    if leb finalized start
    then ok ([], some finalized)
    else (collect (block_deposits cfg node) (polled_blocks (max_blocks_per_run cfg) finalized start)
        >>= λ native.
            token_deposits cfg node (suc start)
              (last_block (max_blocks_per_run cfg) finalized start)
            >>= λ tokens.
                ok
                  (native ++ tokens, some (polled_cursor (max_blocks_per_run cfg) finalized start)))

-- `ev.get("unique_key") or default`
abbrev pub key_or : Text → Option Text → Text
key_or default none = default
key_or default (some []) = default
key_or default (some (c ∷ s)) = c ∷ s

abbrev pub test_deposit : EnvEvent → ℕ → Decimal → Text → Text → Text → ℕ → ChainDeposit
test_deposit ev uid amount txid asset_name to_addr confirmations = record {
  user_id = uid;
  asset = ev.asset;
  amount = amount;
  txid = txid;
  unique_key =
      key_or (codes "test:" ++ txid ++ codes ":" ++ asset_name ++ codes ":" ++ to_addr)
        ev.unique_key;
  confirmations = confirmations;
  finalized = true;
}

-- An event of the environment.
unfoldable pub env_deposit : EthConfig → EnvEvent → Result (List ChainDeposit)
unfolding normalize_hex_address user_of
env_deposit cfg ev =
    let to_addr = normalize_hex_address ev.to in
    let txid = lower (text_or_empty ev.txid) in
    elim (user_of (lower to_addr) cfg.address_user_map) [
      | none ↦ ok []
      | some uid ↦ ev.amount >>= λ amount.
          if not (lt zero_amount amount) || is_empty txid
          then ok []
          else (ev.confirmations >>= λ confirmations.
              ok (test_deposit ev uid amount txid (name ev.asset) to_addr confirmations ∷ []))
    ]

-- `fetch_deposits`, of the events that the environment feeds to a test and of the stored cursor
unfoldable pub fetch_deposits :
    EthConfig → EthNode → List EnvEvent → Option ℕ → Result (List ChainDeposit × Option ℕ)
unfolding collect env_deposit
fetch_deposits cfg node events stored =
    if cfg.is_test
    then (collect (env_deposit cfg) events >>= λ deposits. ok (deposits, none))
    else (raise_if (not cfg.has_rpc_url) misconfigured
        >> (finalized_head cfg node >>= λ finalized.
            poll cfg node finalized (load_cursor cfg.start_block stored)))
