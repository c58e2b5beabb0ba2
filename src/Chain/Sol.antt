-- ===== src/Chain/Sol.antt =====
-- infra/chain_adapters/sol_rpc.py: the transfers of SOL in the slots after the cursor. The remote
-- procedure calls and the environment are parameters.
use escrow_hub.Common.{
  ℕ, suc, max, pos, ℤ, ltb_ℤ, Bool, true, false, not, ◌||◌, Option, none, some, List, [], ◌∷◌, ◌++◌,
  if◌then◌else◌, leb,
}
use escrow_hub.Text.{Text, codes, is_empty, text_eq, strip}
use escrow_hub.Asset.{sol, asset_eq}
use escrow_hub.Decimal.{Decimal, zero_amount, lt}
use escrow_hub.Outcome.{Result, ok, ◌>>=◌, ◌>>◌, raise_if, misconfigured}
use escrow_hub.Chain.Scan.{
  ChainDeposit, user_of, load_cursor, collect, polled_blocks, polled_cursor,
}
use escrow_hub.Chain.Eth.{EnvEvent, key_or}

-- `str(value or "").strip()`
abbrev pub stripped : Option Text → Text
stripped none = []
stripped (some t) = strip t

-- The `parsed` object of an instruction; `int(lamports or 0)` may raise.
pub record ParsedTransfer : Type 0 where
  pub kind : Option Text
  pub destination : Option Text
  pub lamports : Result ℤ

pub record Instruction : Type 0 where
  pub program : Option Text
  pub parsed : Option ParsedTransfer

pub record SolTransaction : Type 0 where
  -- whether `meta.err` is not None
  pub failed : Bool
  pub signatures : List Text
  pub instructions : List Instruction
  -- the index of the outer instruction, and its inner ones
  pub inner_instructions : List (ℕ × List Instruction)

pub record SolNode : Type 0 where
  pub str_int : ℕ → Text
  pub get_slot : Result ℕ
  pub get_block : ℕ → Result (List SolTransaction)

pub record SolConfig : Type 0 where
  pub has_rpc_url : Bool
  pub is_test : Bool
  pub address_user_map : List (Text × ℕ)
  pub confirmations_required : ℕ
  pub network : Text
  -- SOL_MAX_SLOTS_PER_RUN
  pub configured_max_slots : ℕ
  pub start_slot : ℕ

abbrev pub max_slots_per_run : SolConfig → ℕ
max_slots_per_run cfg = max 1 cfg.configured_max_slots

-- `enumerate`, with the key of each instruction
unfoldable pub keyed_from : (ℕ → Text) → Text → ℕ → List Instruction → List (Text × Instruction)
keyed_from str_int prefix idx [] = []
keyed_from str_int prefix idx (inst ∷ rest) =
    (prefix ++ str_int idx, inst) ∷ keyed_from str_int prefix (suc idx) rest

unfoldable pub inner_keyed : (ℕ → Text) → List (ℕ × List Instruction) → List (Text × Instruction)
unfolding keyed_from
inner_keyed str_int [] = []
inner_keyed str_int ((outer_index, instructions) ∷ rest) =
    keyed_from str_int (codes "inner:" ++ str_int outer_index ++ codes ":") 0 instructions
    ++ inner_keyed str_int rest

unfoldable pub iter_transfer_instructions : (ℕ → Text) → SolTransaction → List (Text × Instruction)
unfolding keyed_from inner_keyed
iter_transfer_instructions str_int tx =
    keyed_from str_int (codes "outer:") 0 tx.instructions
    ++ inner_keyed str_int tx.inner_instructions

abbrev pub sol_deposit : SolConfig → ℕ → ℤ → Text → Text → Text → ChainDeposit
sol_deposit cfg uid lamports txid instruction_key to_addr = record {
  user_id = uid;
  asset = sol;
  amount = record { coeff = lamports; places = 9 };
  txid = txid;
  unique_key =
      cfg.network
      ++ codes ":sol:"
      ++ txid
      ++ codes ":SOL:"
      ++ instruction_key
      ++ codes ":"
      ++ to_addr;
  confirmations = cfg.confirmations_required;
  finalized = true;
}

abbrev pub if_transferred : Bool → ChainDeposit → List ChainDeposit
if_transferred true d = d ∷ []
if_transferred false d = []

-- A transfer to an address, if a user has it.
unfoldable pub transfer_to :
    SolConfig → Text → Text → Text → ParsedTransfer → Result (List ChainDeposit)
unfolding user_of
transfer_to cfg txid instruction_key to_addr info = elim (user_of to_addr cfg.address_user_map) [
  | none ↦ ok []
  | some uid ↦ info.lamports >>= λ lamports. ok (
      if_transferred (ltb_ℤ (pos 0) lamports)
        (sol_deposit cfg uid lamports txid instruction_key to_addr))
]

-- `_append_matching_instruction`
unfoldable pub matching_instruction :
    SolConfig → Text → Text × Instruction → Result (List ChainDeposit)
unfolding transfer_to
matching_instruction cfg txid (instruction_key, inst) =
    if not (text_eq (stripped inst.program) (codes "system")) then ok [] else elim inst.parsed [
      | none ↦ ok []
      | some parsed ↦
          if not (text_eq (stripped parsed.kind) (codes "transfer"))
          then ok []
          else transfer_to cfg txid instruction_key (stripped parsed.destination) parsed
    ]

-- `str(signatures[0] or "").strip() if signatures else ""`
abbrev pub first_signature : List Text → Text
first_signature [] = []
first_signature (s ∷ rest) = strip s

unfoldable pub transaction_transfers :
    SolConfig → SolNode → SolTransaction → Result (List ChainDeposit)
unfolding collect iter_transfer_instructions matching_instruction
transaction_transfers cfg node tx =
    if tx.failed || is_empty (first_signature tx.signatures)
    then ok []
    else collect (matching_instruction cfg (first_signature tx.signatures))
        (iter_transfer_instructions node.str_int tx)

unfoldable pub slot_deposits : SolConfig → SolNode → ℕ → Result (List ChainDeposit)
unfolding collect
slot_deposits cfg node slot = node.get_block slot >>= collect (transaction_transfers cfg node)

-- The slots after `start`.
unfoldable pub poll : SolConfig → SolNode → ℕ → ℕ → Result (List ChainDeposit × Option ℕ)
poll cfg node finalized start =
    if leb finalized start
    then ok ([], some finalized)
    else (collect (slot_deposits cfg node) (polled_blocks (max_slots_per_run cfg) finalized start)
        >>= λ deposits. ok (deposits, some (polled_cursor (max_slots_per_run cfg) finalized start)))

abbrev pub test_transfer : EnvEvent → ℕ → Decimal → Text → Text → ℕ → ChainDeposit
test_transfer ev uid amount txid to_addr confirmations = record {
  user_id = uid;
  asset = sol;
  amount = amount;
  txid = txid;
  unique_key = key_or (codes "test:" ++ txid ++ codes ":SOL:" ++ to_addr) ev.unique_key;
  confirmations = confirmations;
  finalized = true;
}

unfoldable pub env_transfer : SolConfig → EnvEvent → Result (List ChainDeposit)
unfolding user_of
env_transfer cfg ev =
    let to_addr = stripped ev.to in
    let txid = stripped ev.txid in
    elim (user_of to_addr cfg.address_user_map) [
      | none ↦ ok []
      | some uid ↦ ev.amount >>= λ amount.
          if not (asset_eq ev.asset sol) || not (lt zero_amount amount) || is_empty txid
          then ok []
          else (ev.confirmations >>= λ confirmations.
              ok (test_transfer ev uid amount txid to_addr confirmations ∷ []))
    ]

unfoldable pub fetch_deposits :
    SolConfig → SolNode → List EnvEvent → Option ℕ → Result (List ChainDeposit × Option ℕ)
unfolding collect env_transfer
fetch_deposits cfg node events stored =
    if cfg.is_test
    then (collect (env_transfer cfg) events >>= λ deposits. ok (deposits, none))
    else (raise_if (not cfg.has_rpc_url) misconfigured
        >> (node.get_slot >>= λ finalized.
            poll cfg node finalized (load_cursor cfg.start_slot stored)))
