-- ===== src/Tests/EscrowRuns.antt =====
-- The escrow service on the small database.
use escrow_hub.Common.{
  ℕ, ◌≡◌, refl, none, some, List, [], ◌∷◌, false, true, arith, pos, ◌+ℤ◌, ◌-ℤ◌, ◌≤ℤ◌,
}
use escrow_hub.Text.{codes}
use escrow_hub.Asset.{Asset, usdt}
use escrow_hub.Decimal.{Decimal, of_ℕ, units}
use escrow_hub.Outcome.{Result, ok}
use escrow_hub.Table.{find}
use escrow_hub.Fee.{FeeBreakdown, calculate_total_fees, money}
use escrow_hub.Fee.Bounds.{Shares, calculate_total_fees-Shares}
use escrow_hub.Price.{escrow_fallback_prices}
use escrow_hub.Db.{
  Db, EscrowRow, EscrowStatus, active, pending, completed, Lock, LockStatus, locked, released,
  open_request, refund_buyer,
}
use escrow_hub.Db.Transaction.{Connection, IsSettled}
use escrow_hub.Ledger.Sums.{book, holdings, counted}
use escrow_hub.Escrow.Create.{create_body, accept_body}
use escrow_hub.Escrow.Permits.{succeeds, permits}
use escrow_hub.Escrow.Service.{cancel_escrow, dispute, cancel_escrow_mutual, resolve_dispute}
use escrow_hub.Escrow.Settle.{release_body, cancel_body, cancel_mutual_body}
use escrow_hub.Escrow.Life.{IsSound}
use escrow_hub.Escrow.Linked.{held_status, open-AreLinked}
use escrow_hub.Escrow.History.{releases, accepts, serve, run, serve-Serves, Serves, run-final}
use escrow_hub.Escrow.Conservation.{
  Refunds, create_body-holdings, cancel_body-holdings, cancel_mutual_body-holdings,
  release_body-holdings,
}
use escrow_hub.Wallet.Locks.Effects.{lock_row}
use escrow_hub.Escrow.Book.{pay}
use escrow_hub.Escrow.Exits.{funds_back, way_out, run-way_out}
use escrow_hub.Escrow.Balances.{create_body-book, release_body-book, cancel_body-create_body}
use escrow_hub.Wallet.Users.Resolve.{resolve_user}
use escrow_hub.Tests.{funded_db, some_settings, settled_connection}

fees_example : Shares (of_ℕ 50) (record {
  platform_fee = record { coeff = pos 150; places = 2 };
  bot_fee = record { coeff = pos 50; places = 2 };
  total_fee = record { coeff = pos 200; places = 2 };
  seller_payout = record { coeff = pos 4800; places = 2 };
})
unfolding escrow_hub.Common.pow10 calculate_total_fees escrow_hub.Fee.calculate_bot_extra_fee
    escrow_hub.Fee.validate_bot_extra_fee_percent escrow_hub.Decimal.lt escrow_hub.Common.scale
    escrow_hub.Fee.calculate_platform_fee money escrow_hub.Decimal.quantize
    escrow_hub.Common.on_magnitude escrow_hub.Decimal.div_hundred escrow_hub.Decimal.◌+ᵈ◌
    escrow_hub.Decimal.◌-ᵈ◌ escrow_hub.Decimal.◌*ᵈ◌ ◌+ℤ◌ escrow_hub.Common.◌*ℤ◌
    escrow_hub.Common.◌-ℤ◌ escrow_hub.Common.half_up
fees_example =
    calculate_total_fees-Shares (of_ℕ 3) (of_ℕ 50) (of_ℕ 1)
      (record { nonneg = omega arith; capped = omega arith }) (omega arith) refl

funded-IsSound : IsSound funded_db
unfolding find
funded-IsSound = record { linked = λ id. tt; fresh = λ id le. refl }

-- 50 USDT are put into an escrow.
abbrev created : Result ℕ × Db
created = create_body 1 1 2 usdt (of_ℕ 50) (codes "a deal") funded_db

created-ok : created.0 ≡ ok 1
unfolding create_body escrow_hub.Wallet.Users.available_balance
    escrow_hub.Wallet.Users.ensure_user_row find escrow_hub.Decimal.lt escrow_hub.Common.scale
    escrow_hub.Ledger.available_balance escrow_hub.Ledger.net_user_ledger_balance
    escrow_hub.Ledger.sum_where escrow_hub.Asset.asset_eq escrow_hub.Decimal.◌+ᵈ◌ ◌+ℤ◌
    escrow_hub.Common.pow10 escrow_hub.Wallet.Locks.lock_for_escrow
created-ok = refl

create_example :
    (find 1 created.1.escrow_locks ≡ some (lock_row (resolve_user 1 funded_db) usdt (of_ℕ 50)))
    × ((u : ℕ)
        → book 6 created.1 u usdt
          ≡ pay
              (resolve_user 1 funded_db)
              usdt
              (pos 0 -ℤ units 6 (of_ℕ 50))
              (book 6 funded_db)
              u
              usdt)
    × (holdings 6 usdt created.1 ≡ holdings 6 usdt funded_db)
create_example =
    create_body-holdings 6 1 1 2 usdt (of_ℕ 50) (codes "a deal") funded_db usdt funded-IsSound
      created-ok

-- The database with one deal of 50 USDT.
abbrev deal : EscrowStatus → EscrowRow
deal status = record {
  bot_id = 1;
  buyer_id = 1;
  seller_id = 2;
  asset = usdt;
  amount = of_ℕ 50;
  status = status;
  description = codes "a deal";
}

abbrev deal_lock : LockStatus → Lock
deal_lock status = record { user_id = 1; asset = usdt; amount = of_ℕ 50; status = status }

abbrev deal_db : EscrowStatus → LockStatus → Db
deal_db status held = record funded_db {
  escrows = (1, deal status) ∷ [];
  next_escrow = 2;
  escrow_locks = (1, deal_lock held) ∷ [];
}

deal-IsSound : (s : EscrowStatus) (l : LockStatus) → l ≡ held_status s → IsSound (deal_db s l)
deal-IsSound s l h = open-AreLinked funded-IsSound (deal s) (deal_lock l) refl refl h

cancelled-ok : (cancel_body 1 1 (deal_db pending locked)).0 ≡ ok tt
unfolding cancel_body find escrow_hub.Wallet.Locks.cancel_escrow_lock
cancelled-ok = refl

cancel_example :
    Refunds 6 1 usdt (deal_db pending locked) (cancel_body 1 1 (deal_db pending locked)).1
cancel_example = cancel_body-holdings 6 1 1 (deal_db pending locked) usdt cancelled-ok

abbrev cents : ℕ → Decimal
cents n = record { coeff = pos n; places = 2 }

abbrev the_fees : FeeBreakdown
the_fees = record {
  platform_fee = cents 150;
  bot_fee = cents 50;
  total_fee = cents 200;
  seller_payout = cents 4800;
}

released_deal-ok :
    (release_body some_settings 1 1 (deal_db active locked)).0 ≡ ok (deal active, the_fees)
unfolding release_body find escrow_hub.Table.update escrow_hub.Common.on_magnitude
    escrow_hub.Common.◌*ℤ◌ escrow_hub.Common.◌-ℤ◌ escrow_hub.Common.half_up escrow_hub.Common.pow10
    escrow_hub.Common.scale ◌+ℤ◌ escrow_hub.Decimal.lt escrow_hub.Decimal.div_hundred
    escrow_hub.Decimal.neg escrow_hub.Decimal.quantize escrow_hub.Decimal.units
    escrow_hub.Decimal.◌+ᵈ◌ escrow_hub.Decimal.◌*ᵈ◌ escrow_hub.Decimal.◌-ᵈ◌
    escrow_hub.Escrow.Settle.pay_out escrow_hub.Fee.calculate_bot_extra_fee
    escrow_hub.Fee.calculate_platform_fee calculate_total_fees money
    escrow_hub.Fee.validate_bot_extra_fee_percent escrow_hub.Tenant.get_tenant
    escrow_hub.Wallet.Locks.release_escrow
released_deal-ok = refl

release_example :
    holdings 6 usdt (release_body some_settings 1 1 (deal_db active locked)).1
      +ℤ counted 6 usdt usdt (of_ℕ 50)
    ≡ holdings 6 usdt (deal_db active locked) +ℤ counted 6 usdt usdt (money (of_ℕ 50))
unfolding escrow_hub.Common.pow10
release_example =
    release_body-holdings 6 some_settings 1 1 (deal_db active locked) usdt (omega arith)
      (record { nonneg = omega arith; capped = omega arith }) (deal-IsSound active locked refl)
      (omega arith) released_deal-ok

-- The buyer asks the seller to cancel.
abbrev asked : Db
asked = record (deal_db active locked) {
  active_cancel_requests =
      (1, record { requester_user_id = 1; responder_user_id = 2; status = open_request }) ∷ [];
}

mutual-ok : (cancel_mutual_body 1 1 2 asked).0 ≡ ok tt
unfolding cancel_mutual_body find escrow_hub.Escrow.Settle.check_mutual
    escrow_hub.Wallet.Locks.cancel_escrow_lock
mutual-ok = refl

mutual_example : Refunds 6 1 usdt asked (cancel_mutual_body 1 1 2 asked).1
mutual_example = cancel_mutual_body-holdings 6 1 1 2 asked usdt mutual-ok

settled : (db : Db) → IsSettled (settled_connection db)
settled db = record { settled = λ _. refl }

serve_example : Serves (settled_connection (deal_db active locked)) (
    serve some_settings escrow_fallback_prices
      (releases 1 1)
      (settled_connection (deal_db active locked)))
serve_example =
    serve-Serves some_settings escrow_fallback_prices (releases 1 1)
      (settled_connection (deal_db active locked)) (settled (deal_db active locked))
      (deal-IsSound active locked refl)

abbrev cancelled_db : Db
cancelled_db = deal_db EscrowStatus.cancelled released

abbrev cancelled_row : EscrowRow
cancelled_row = deal EscrowStatus.cancelled

cancelled-found : find 1 cancelled_db.escrows ≡ some cancelled_row
unfolding find
cancelled-found = refl

abbrev afterwards : Connection
afterwards =
    run some_settings escrow_fallback_prices (accepts 1 2 ∷ releases 1 1 ∷ [])
      (settled_connection cancelled_db)

final_example :
    (find 1 afterwards.working.escrows ≡ some cancelled_row)
    × ((l : Lock) × (find 1 afterwards.working.escrow_locks ≡ some l) × (l.status ≡ released))
final_example =
    run-final some_settings escrow_fallback_prices (accepts 1 2 ∷ releases 1 1 ∷ [])
      (settled_connection cancelled_db) 1 cancelled_row (settled cancelled_db)
      (deal-IsSound EscrowStatus.cancelled released refl) cancelled-found refl

-- An active deal, which a moderator refunds after its buyer's dispute.
abbrev running : Connection
running = settled_connection (deal_db active locked)

abbrev ended : Connection
ended = run some_settings escrow_fallback_prices (way_out 9 1 (deal active) active) running

active-found : find 1 running.working.escrows ≡ some (deal active)
unfolding find
active-found = refl

the_lock-found : find 1 running.working.escrow_locks ≡ some (lock_row 1 usdt (of_ℕ 50))
unfolding find
the_lock-found = refl

way_out_example :
    (find 1 ended.working.escrows ≡ some (deal completed))
    × (held_status completed ≡ released)
    × ((l : Lock) × (find 1 ended.working.escrow_locks ≡ some l) × (l.status ≡ released))
    × ((u : ℕ) (a : Asset)
        → book 6 ended.working u a
          ≡ funds_back 6 (lock_row 1 usdt (of_ℕ 50)) locked (book 6 running.working) u a)
way_out_example =
    run-way_out some_settings escrow_fallback_prices 1 9 6 running (deal active)
      (lock_row 1 usdt (of_ℕ 50)) (settled (deal_db active locked))
      (deal-IsSound active locked refl) refl active-found the_lock-found

book_example :
    ((u : ℕ) (a : Asset)
      → book 6 created.1 u a
        ≡ pay (resolve_user 1 funded_db) usdt (pos 0 -ℤ units 6 (of_ℕ 50)) (book 6 funded_db) u a)
    × (pos 0 ≤ℤ book 6 created.1 (resolve_user 1 funded_db) usdt)
book_example =
    create_body-book 6 1 1 2 usdt (of_ℕ 50) (codes "a deal") funded_db funded-IsSound
      (omega arith, tt) (omega arith) created-ok

payout_example :
    book 6 (release_body some_settings 1 1 (deal_db active locked)).1 2 usdt
    ≡ pay 2 usdt (units 6 the_fees.seller_payout) (book 6 (deal_db active locked)) 2 usdt
payout_example =
    release_body-book 6 some_settings 1 1 (deal_db active locked) released_deal-ok 2 usdt

undo_example :
    ((cancel_body 1 1 created.1).0 ≡ ok tt)
    × ((u : ℕ) (a : Asset) → book 6 (cancel_body 1 1 created.1).1 u a ≡ book 6 funded_db u a)
undo_example =
    cancel_body-create_body 6 1 1 2 usdt (of_ℕ 50) (codes "a deal") funded_db funded-IsSound
      created-ok

asked-IsSound : IsSound asked
asked-IsSound = deal-IsSound active locked refl

permits_example :
    (succeeds (accept_body 1 1 asked).0 ≡ false)
    × (succeeds (cancel_escrow 1 1 (settled_connection asked)).0 ≡ false)
    × (succeeds (dispute 1 1 (codes "late") (settled_connection asked)).0 ≡ true)
    × (succeeds (cancel_escrow_mutual 1 1 2 (settled_connection asked)).0 ≡ true)
    × (succeeds
          (resolve_dispute some_settings 1 1 refund_buyer (of_ℕ 0) (settled_connection asked)).0
        ≡ false)
unfolding find
permits_example =
    permits some_settings 1 1 2 (codes "late") (of_ℕ 0) (settled_connection asked) asked-IsSound
      active-found
