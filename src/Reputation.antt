-- ===== src/Reputation.antt =====
-- core/reputation/service.py: trades and disputes by user, in memory.
use escrow_hub.Common.{ℕ, suc, ◌-◌, ◌*◌, none, some, ◌∷◌}
use escrow_hub.Table.{Table, find, update}

pub record Reputation : Type 0 where
  pub completed_trades : ℕ
  pub disputes : ℕ

abbrev pub no_reputation : Reputation
no_reputation = record { completed_trades = 0; disputes = 0 }

-- `score`: 100 less two for each dispute, and 0 at least.
unfoldable pub score : Reputation → ℕ
score r = 100 - r.disputes * 2

-- `_get` adds a user that is not there.
unfoldable pub get_profile : ℕ → Table Reputation → Reputation × Table Reputation
get_profile user_id stats = elim (find user_id stats) [
  | some r ↦ (r, stats)
  | none ↦ (no_reputation, (user_id, no_reputation) ∷ stats)
]

unfoldable pub record_completed_trade : ℕ → Table Reputation → Table Reputation
unfolding get_profile
record_completed_trade user_id stats =
    update user_id (λ (r : Reputation). record r { completed_trades = suc r.completed_trades })
      (get_profile user_id stats).1

unfoldable pub record_dispute : ℕ → Table Reputation → Table Reputation
unfolding get_profile
record_dispute user_id stats =
    update user_id (λ (r : Reputation). record r { disputes = suc r.disputes })
      (get_profile user_id stats).1
