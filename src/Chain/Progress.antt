-- ===== src/Chain/Progress.antt =====
-- The ETH watcher reaches the head of the chain.
use escrow_hub.Common.{
  ℕ, suc, ◌+◌, ◌≤◌, ◌≡◌, refl, sym, ap, subst, ◌∙◌, Bool, true, false, not, Bool-cases, Option,
  some, List, [], ◌∷◌, ◌++◌, leb, arith, inl, inr,
}
use escrow_hub.Text.{codes}
use escrow_hub.Outcome.{Error, Result, ok, raise_if, ◌>>=◌, ◌>>◌}
use escrow_hub.Settings.{Settings}
use escrow_hub.Watcher.{read_watcher_cursor}
use escrow_hub.Chain.Scan.{
  ChainDeposit, load_cursor, collect, last_block, polled_blocks, polled_cursor,
}
use escrow_hub.Chain.Eth.{
  EthConfig, EthNode, max_blocks_per_run, block_deposits, token_deposits, finalized_head, poll,
  fetch_deposits,
}
use escrow_hub.Text.{Text}
use escrow_hub.Chain.Watch.{fetch, address_map, with_users, Polled}
use escrow_hub.Text.{length}
use escrow_hub.Chain.Watched.{
  Turn, fetched, after_cycle, watch, cursor_after, cycle-cursor, if_false, start_le,
}

collect-ok :
    (report : ℕ → Result (List ChainDeposit)) (blocks : List ℕ)
    → ((b : ℕ) → (found : List ChainDeposit) × (report b ≡ ok found))
    → (all : List ChainDeposit) × (collect report blocks ≡ ok all)
unfolding collect
collect-ok report [] answers = ([], refl)
collect-ok report (b ∷ rest) answers =
    let (found, here) = answers b in
    let (others, later) = collect-ok report rest answers in (found ++ others, rw (here, later) refl)

-- A node that answers every request, with its finalized head.
pub record Answers (cfg : EthConfig) (head : ℕ) (node : EthNode) : Type 0 where
  pub at_head : finalized_head cfg node ≡ ok head
  pub on_block : (b : ℕ) → (found : List ChainDeposit) × (block_deposits cfg node b ≡ ok found)
  pub on_tokens :
      (first last : ℕ)
      → (found : List ChainDeposit) × (token_deposits cfg node first last ≡ ok found)

poll-Answers :
    (cfg : EthConfig) (head start : ℕ) (node : EthNode)
    → Answers cfg head node
    → (deposits : List ChainDeposit) × (poll cfg node head start
        ≡ ok (deposits, some (polled_cursor (max_blocks_per_run cfg) head start)))
unfolding poll
poll-Answers cfg head start node answers = elim (Bool-cases (leb head start)) [
  | inl e ↦ ([], rw e (ap (λ c. ok ([], some c)) (sym (at_start e))))
  | inr e ↦
      let (native, read) =
        collect-ok (block_deposits cfg node) (polled_blocks (max_blocks_per_run cfg) head start)
          answers.on_block in
      let (tokens, logged) =
        answers.on_tokens (suc start) (last_block (max_blocks_per_run cfg) head start) in
      (native ++ tokens, rw (e, read, logged) refl)
]
  where
    at_start : leb head start ≡ true → polled_cursor (max_blocks_per_run cfg) head start ≡ head
    at_start e = unfold polled_cursor in rw e refl

configured {ℓ} :
    {A : Type ℓ} {test : Bool} (e : Error) (k : Result A)
    → test ≡ true
    → (raise_if (not test) e >> k) ≡ k
configured {test = true} e k h = refl
configured {test = false} e k h = absurd (ground (arith, h))

-- A cycle whose map of addresses is made, with a node that answers every request about it.
pub record Served (cfg : EthConfig) (head : ℕ) (turn : Turn) (p : Polled) : Type 0 where
  pub users : List (Text × ℕ)
  pub made : address_map turn.outside p.connection.working ≡ ok users
  pub answers : Answers (with_users users cfg) head turn.node

fetch-Answers :
    (cfg : EthConfig) (head : ℕ) (turn : Turn) (p : Polled)
    → cfg.is_test ≡ false
    → cfg.has_rpc_url ≡ true
    → Served cfg head turn p
    → (deposits : List ChainDeposit) × (fetched cfg turn p
        ≡ ok (
          deposits,
          some (
              polled_cursor
                (max_blocks_per_run cfg)
                head
                (load_cursor cfg.start_block (read_watcher_cursor (codes "eth_watcher") p.rows))),
        ))
unfolding fetch fetch_deposits
fetch-Answers cfg head turn p live url served =
    let mine : EthConfig = with_users served.users cfg in
    let (deposits, polled) =
      poll-Answers mine head
        (load_cursor cfg.start_block (read_watcher_cursor (codes "eth_watcher") p.rows)) turn.node
        served.answers in
    (
      deposits,
      ap
            (λ r. r >>= λ users.
              fetch_deposits (with_users users cfg) turn.node []
                (read_watcher_cursor (codes "eth_watcher") p.rows))
            served.made
          ∙ if_false _ live
          ∙ configured _ _ url
          ∙ ap (λ r. r >>= λ head. poll mine turn.node head start) served.answers.at_head
          ∙ polled,
    )
  where
    start : ℕ
    start = load_cursor cfg.start_block (read_watcher_cursor (codes "eth_watcher") p.rows)

abbrev pub AllServed : Settings → EthConfig → ℕ → List Turn → Polled → Type 0
AllServed settings cfg head [] p = Unit {0}
AllServed settings cfg head (turn ∷ turns) p =
    Served cfg head turn p × AllServed settings cfg head turns (after_cycle settings cfg turn p)

progress :
    (m head floor start left : ℕ)
    → 1 ≤ m
    → floor ≤ start
    → start ≤ head
    → head ≤ start + suc left
    → (load_cursor floor (some (polled_cursor m head start)) ≤ head)
      × (head ≤ load_cursor floor (some (polled_cursor m head start)) + left)
unfolding load_cursor polled_cursor
progress m head floor start left step above below enough = (ground arith, ground arith)

-- If in every one of a sequence of cycles of the ETH watcher outside tests the map of addresses is
-- made and the node has the same finalized head and answers every request, a head that is not below
-- the start is reached once the cycles are as many as the blocks up to it.
pub watch-catches_up :
    (settings : Settings) (cfg : EthConfig) (head : ℕ) (turns : List Turn) (p : Polled)
    → cfg.is_test ≡ false
    → cfg.has_rpc_url ≡ true
    → AllServed settings cfg head turns p
    → load_cursor cfg.start_block (read_watcher_cursor (codes "eth_watcher") p.rows) ≤ head
    → head
      ≤ load_cursor cfg.start_block (read_watcher_cursor (codes "eth_watcher") p.rows)
        + length turns
    → load_cursor cfg.start_block
        (read_watcher_cursor (codes "eth_watcher") (watch settings cfg turns p).rows)
      ≡ head
unfolding watch
watch-catches_up settings cfg head [] p live url answers below enough = omega arith
watch-catches_up settings cfg head (turn ∷ turns) p live url (answer, answers) below enough =
    watch-catches_up settings cfg head turns next live url answers
      (subst (λ (c : Option ℕ). load_cursor cfg.start_block c ≤ head) (sym moved) step.0)
      (subst (λ (c : Option ℕ). head ≤ load_cursor cfg.start_block c + length turns) (sym moved)
        step.1)
  where
    stored : Option ℕ
    stored = read_watcher_cursor (codes "eth_watcher") p.rows

    start : ℕ
    start = load_cursor cfg.start_block stored

    next : Polled
    next = after_cycle settings cfg turn p

    moved :
        read_watcher_cursor (codes "eth_watcher") next.rows
        ≡ some (polled_cursor (max_blocks_per_run cfg) head start)
    moved =
        cycle-cursor turn.outside settings (codes "eth_watcher") (fetched cfg turn p) p
        ∙ ap (λ r. cursor_after r stored) (fetch-Answers cfg head turn p live url answer).1

    step :
        (load_cursor cfg.start_block (some (polled_cursor (max_blocks_per_run cfg) head start))
          ≤ head)
        × (head
            ≤ load_cursor cfg.start_block (some (polled_cursor (max_blocks_per_run cfg) head start))
              + length turns)
    step =
        progress (max_blocks_per_run cfg) head cfg.start_block start (length turns) (omega arith)
          (start_le cfg.start_block stored) below (omega (arith, enough))
