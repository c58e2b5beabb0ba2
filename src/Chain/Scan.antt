-- ===== src/Chain/Scan.antt =====
-- infra/chain_adapters/base.py: a deposit as an adapter reports it; and the part that
-- `fetch_deposits` of eth_rpc.py and sol_rpc.py share: the cursor, and the loop over the blocks
-- after it.
use escrow_hub.Common.{
  ℕ, zero, suc, ◌+◌, ◌-◌, min, max, Bool, Option, none, some, List, [], ◌∷◌, ◌++◌, if◌then◌else◌,
  leb,
}
use escrow_hub.Text.{Text, text_eq}
use escrow_hub.Asset.{Asset}
use escrow_hub.Decimal.{Decimal}
use escrow_hub.Outcome.{Result, ok, ◌>>=◌}

pub record ChainDeposit : Type 0 where
  pub user_id : ℕ
  pub asset : Asset
  pub amount : Decimal
  pub txid : Text
  pub unique_key : Text
  pub confirmations : ℕ
  pub finalized : Bool

-- `address_user_map.get(address)`, where an id 0 counts as none.
unfoldable pub user_of : Text → List (Text × ℕ) → Option ℕ
user_of address [] = none
user_of address ((a, zero) ∷ users) =
    let rest = user_of address users in if text_eq a address then none else rest
user_of address ((a, suc uid) ∷ users) =
    let rest = user_of address users in if text_eq a address then some (suc uid) else rest

-- `_load_cursor`, of what `read_watcher_cursor` returns
unfoldable pub load_cursor : ℕ → Option ℕ → ℕ
load_cursor env_floor none = env_floor
load_cursor env_floor (some current) = max env_floor current

-- The blocks of `range(start + 1, start + 1 + count)`.
unfoldable pub blocks_after : ℕ → ℕ → List ℕ
blocks_after start zero = []
blocks_after start (suc count) = suc start ∷ blocks_after (suc start) count

unfoldable pub collect {ℓ} :
    {A : Type ℓ} → (A → Result (List ChainDeposit)) → List A → Result (List ChainDeposit)
collect report [] = ok []
collect report (a ∷ rest) =
    report a >>= λ found. collect report rest >>= λ others. ok (found ++ others)

-- `end_block`
abbrev pub last_block : ℕ → ℕ → ℕ → ℕ
last_block max_blocks finalized start = min finalized (start + max_blocks)

-- The blocks that a poll reads.
unfoldable pub polled_blocks : ℕ → ℕ → ℕ → List ℕ
unfolding blocks_after
polled_blocks max_blocks finalized start =
    if leb finalized start
    then []
    else blocks_after start (last_block max_blocks finalized start - start)

-- The cursor that a poll returns.
unfoldable pub polled_cursor : ℕ → ℕ → ℕ → ℕ
polled_cursor max_blocks finalized start =
    if leb finalized start then finalized else last_block max_blocks finalized start
