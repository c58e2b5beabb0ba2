-- ===== src/Wallet/Users.antt =====
-- wallet_service.py: the user that a reference names, and the balances by such a reference.
pub mod Resolve
use escrow_hub.Common.{ℕ, false, Option, none, some}
use escrow_hub.Decimal.{Decimal}
use escrow_hub.Asset.{Asset}
use escrow_hub.Outcome.{account_frozen}
use escrow_hub.Table.{Table, find, find_where}
use escrow_hub.Tenant.{insert_user, has_telegram_id}
use escrow_hub.Ledger
use escrow_hub.Db.{Db, Action, pure, gets, raise_if, ◌>>=◌, User}

-- The row that a reference names already: by id, else by telegram id.
unfoldable pub known_user : ℕ → Table User → Option ℕ
known_user user_ref users = elim (find user_ref users) [
  | some _ ↦ some user_ref
  | none ↦ elim (find_where (has_telegram_id user_ref) users) [
    | some (id, _) ↦ some id
    | none ↦ none
  ]
]

unfoldable pub ensure_user_row : ℕ → Action ℕ
unfolding known_user
ensure_user_row user_ref = do
  row ← gets (λ db. known_user user_ref db.users)
  elim row [ some id ↦ pure id | none ↦ insert_user user_ref none ]

unfoldable pub assert_not_frozen : ℕ → Action (Unit {0})
assert_not_frozen resolved_user_id = do
  row ← gets (λ db. find resolved_user_id db.users)
  raise_if (elim row [ some u ↦ u.frozen | none ↦ false ]) account_frozen

unfoldable pub available_balance : ℕ → Asset → Action Decimal
available_balance user_id asset = do
  resolved_user_id ← ensure_user_row user_id
  gets (Ledger.available_balance resolved_user_id asset)

unfoldable pub locked_balance : ℕ → Asset → Action Decimal
locked_balance user_id asset = do
  resolved_user_id ← ensure_user_row user_id
  gets (Ledger.locked_balance resolved_user_id asset)

unfoldable pub total_balance : ℕ → Asset → Action Decimal
total_balance user_id asset = do
  resolved_user_id ← ensure_user_row user_id
  gets (Ledger.total_balance resolved_user_id asset)
