-- ===== src/Chain/Cursor.antt =====
-- eth_rpc.py: the blocks that one poll reads.
use escrow_hub.Common.{
  ℕ, zero, suc, ◌+◌, ◌-◌, ◌≤◌, ◌<◌, ◌≡◌, refl, sym, ap, subst, ◌∙◌, true, false, Bool-cases, Option,
  some, List, [], ◌∷◌, ◌++◌, ◌==◌, leb, arith, inl, inr,
}
use escrow_hub.Text.{contains}
use escrow_hub.Outcome.{Result, ok, ok-injective, >>=-eq-ok, ◌>>=◌}
use escrow_hub.Chain.Scan.{
  ChainDeposit, blocks_after, collect, last_block, polled_blocks, polled_cursor,
}
use escrow_hub.Chain.Eth.{
  EthConfig, EthNode, max_blocks_per_run, block_deposits, token_deposits, poll,
}
use escrow_hub.Chain.Includes.{Includes, Includes-left, Includes-right, whole_Includes}

pub collect-Includes :
    (report : ℕ → Result (List ChainDeposit)) (blocks : List ℕ) (b : ℕ) {all : List ChainDeposit}
    → collect report blocks ≡ ok all
    → contains b blocks ≡ true
    → (found : List ChainDeposit) × (report b ≡ ok found) × Includes found all
unfolding collect contains
collect-Includes report [] b returns member = absurd (cc)
collect-Includes report (a ∷ rest) b {all} returns member =
    let (here, heard, later) =
      >>=-eq-ok (report a) (λ found. collect report rest >>= λ others. ok (found ++ others))
        returns in
    let (others, rest_heard, total) =
      >>=-eq-ok (collect report rest) (λ others. ok (here ++ others)) later in
    elim (Bool-cases (a == b)) [
      | inl e ↦ (
        here,
        subst (λ (n : ℕ). report n ≡ ok here) (ground arith) heard,
        subst (λ (t : List ChainDeposit). Includes here t) (ok-injective total)
            (Includes-left others (whole_Includes here)),
      )
      | inr e ↦
          let (found, there, inside) = collect-Includes report rest b rest_heard (rw e at member) in
          (
            found,
            there,
            subst (λ (t : List ChainDeposit). Includes found t) (ok-injective total)
                (Includes-right here inside),
          )
    ]

blocks_after-contains :
    (start count b : ℕ)
    → start < b
    → b ≤ start + count
    → contains b (blocks_after start count) ≡ true
unfolding blocks_after contains
blocks_after-contains start zero b lt le = absurd (omega arith)
blocks_after-contains start (suc count) b lt le = elim (Bool-cases (suc start == b)) [
  | inl e ↦ rw e refl
  | inr e ↦ rw e (blocks_after-contains (suc start) count b (ground arith) (omega arith))
]

pub polled-contains :
    (m f s b : ℕ)
    → s < b
    → b ≤ polled_cursor m f s
    → (leb f s ≡ false) × (contains b (polled_blocks m f s) ≡ true)
unfolding polled_cursor polled_blocks
polled-contains m f s b lt le = elim (Bool-cases (leb f s)) [
  | inl e ↦ absurd (ground arith)
  | inr e ↦ (e, rw e (blocks_after-contains s (last_block m f s - s) b lt (ground arith)))
]

-- What one poll read, where it returned.
pub record PolledTo (cfg : EthConfig) (node : EthNode) (start : ℕ) (deposits : List ChainDeposit)
    (cursor : Option ℕ) : Type 0 where
  pub head : ℕ
  pub cursor_eq : cursor ≡ some (polled_cursor (max_blocks_per_run cfg) head start)
  pub blocks :
      leb head start ≡ false
      → (native : List ChainDeposit) × (tokens : List ChainDeposit) × (collect
            (block_deposits cfg node)
            (polled_blocks (max_blocks_per_run cfg) head start)
          ≡ ok native)
        × (native ++ tokens ≡ deposits)

pub poll-PolledTo :
    (cfg : EthConfig) (node : EthNode) (head start : ℕ) {deposits : List ChainDeposit}
    {cursor : Option ℕ}
    → poll cfg node head start ≡ ok (deposits, cursor)
    → PolledTo cfg node start deposits cursor
unfolding poll
poll-PolledTo cfg node head start {deposits} {cursor} returns = elim (Bool-cases (leb head start)) [
  | inl e ↦
      let same = ok-injective (rw e at returns) in
      record {
        head = head;
        cursor_eq = sym (ap (λ r. r.1) same) ∙ sym (at_head e);
        blocks = λ later. absurd (ground (arith, e, later));
      }
  | inr e ↦
      let (native, read, rest) =
        >>=-eq-ok (collect (block_deposits cfg node) (polled_blocks m head start)) _
          (rw e at returns) in
      let (tokens, logged, total) =
        >>=-eq-ok (token_deposits cfg node (suc start) (last_block m head start)) _ rest in
      let same = ok-injective total in
      record {
        head = head;
        cursor_eq = sym (ap (λ r. r.1) same);
        blocks = λ _. (native, tokens, read, ap (λ r. r.0) same);
      }
]
  where
    m : ℕ
    m = max_blocks_per_run cfg

    at_head :
        leb head start ≡ true → some (polled_cursor (max_blocks_per_run cfg) head start) ≡ some head
    at_head e = unfold polled_cursor in rw e refl
