-- ===== src/Tenant.antt =====
-- tenant_service.py: the users and the bots' configuration.
use escrow_hub.Common.{
  ℕ, suc, Bool, Option, none, some, ◌∷◌, [], if◌then◌else◌, ◌==◌, not, ◌&&◌, ◌||◌,
}
use escrow_hub.Decimal.{Decimal}
use escrow_hub.Text.{Text, strip, lower, is_empty, text_eq}
use escrow_hub.Outcome.{integrity_error}
use escrow_hub.Table.{Table, find, find_where, update}
use escrow_hub.Fee.{validate_bot_extra_fee_percent}
use escrow_hub.Db.{Db, Action, pure, gets, lift, modify, raise_if, ◌>>=◌, ◌>>◌, User, Bot}

pub record TenantView : Type 0 where
  pub bot_id : ℕ
  pub owner_user_id : ℕ
  pub bot_display_name : Text
  pub telegram_username : Option Text
  pub support_contact : Text
  pub bot_extra_fee_percent : Decimal

-- INSERT INTO users(telegram_id, username, …): the id of the new row.
unfoldable pub insert_user : ℕ → Option Text → Action ℕ
insert_user telegram_id username db = pure db.next_user (record db {
  users =
      (db.next_user, record { telegram_id = telegram_id; username = username; frozen = Bool.false })
      ∷ db.users;
  next_user = suc db.next_user;
})

abbrev pub has_telegram_id : ℕ → User → Bool
has_telegram_id k u = u.telegram_id == k

unfoldable pub ensure_user : ℕ → Option Text → Action ℕ
unfolding insert_user
ensure_user telegram_id username = do
  row ← gets (λ db. find_where (has_telegram_id telegram_id) db.users)
  elim row [ some (id, _) ↦ pure id | none ↦ insert_user telegram_id username ]

-- `.lstrip('@')`
unfoldable pub strip_at : Text → Text
strip_at [] = []
strip_at (c ∷ s) = if c == b'@' then strip_at s else c ∷ s

abbrev pub non_empty : Text → Option Text
non_empty s = if is_empty s then none else some s

-- `(telegram_username or '').strip().lstrip('@').lower() or None`
unfoldable pub normal_username : Option Text → Option Text
unfolding strip_at strip lower
normal_username none = none
normal_username (some name) = non_empty (lower (strip_at (strip name)))

abbrev pub is_some {ℓ} : {A : Type ℓ} → Option A → Bool
is_some none = Bool.false
is_some (some a) = Bool.true

abbrev pub same_username : Option Text → Option Text → Bool
same_username (some s) (some t) = text_eq s t
same_username _ _ = Bool.false

-- Another bot with the same `telegram_username`, which the table's UNIQUE forbids.
unfoldable pub username_taken : ℕ → Option Text → Table Bot → Bool
username_taken bot_id name [] = Bool.false
username_taken bot_id name ((j, b) ∷ t) =
    (not (j == bot_id) && same_username name b.telegram_username) || username_taken bot_id name t

-- The constraints of the table `bots`: the owner exists, and the username is free.
unfoldable pub check_bot : ℕ → Bot → Action (Unit {0})
unfolding username_taken find text_eq
check_bot bot_id b = do
  owner ← gets (λ db. find b.owner_user_id db.users)
  raise_if (not (is_some owner)) integrity_error
  raise_if (← gets (λ db. username_taken bot_id b.telegram_username db.bots)) integrity_error

unfoldable pub create_or_update_tenant :
    ℕ → ℕ → Text → Option Text → Text → Decimal → Action TenantView
unfolding normal_username check_bot
create_or_update_tenant bot_id owner_user_id bot_display_name telegram_username support_contact
      percent =
    do
      pct ← lift (validate_bot_extra_fee_percent percent)
      exists ← gets (λ db. find bot_id db.bots)
      let bot : Bot = record {
        owner_user_id = owner_user_id;
        display_name = bot_display_name;
        telegram_username = normal_username telegram_username;
        support_contact = support_contact;
        bot_extra_fee_percent = pct;
      }
      check_bot bot_id bot
      elim exists [
        | some _ ↦ modify (λ db. record db { bots = update bot_id (λ _. bot) db.bots })
        | none ↦ modify (λ db. record db { bots = (bot_id, bot) ∷ db.bots })
      ]
      pure (record {
        bot_id = bot_id;
        owner_user_id = owner_user_id;
        bot_display_name = bot_display_name;
        telegram_username = normal_username telegram_username;
        support_contact = support_contact;
        bot_extra_fee_percent = pct;
      })

-- `TenantView(int(row["id"]), …)`
abbrev pub view_of_bot : ℕ → Bot → TenantView
view_of_bot bot_id b = record {
  bot_id = bot_id;
  owner_user_id = b.owner_user_id;
  bot_display_name = b.display_name;
  telegram_username = b.telegram_username;
  support_contact = b.support_contact;
  bot_extra_fee_percent = b.bot_extra_fee_percent;
}

unfoldable pub get_tenant : ℕ → Db → Option TenantView
get_tenant bot_id db = elim (find bot_id db.bots) [
  | none ↦ none
  | some b ↦ some (view_of_bot bot_id b)
]
