-- ===== src/Escrow/Lists.antt =====
-- escrow_service.py: the lists of a user's escrows, the newest first, and the other party.
use escrow_hub.Common.{
  ℕ, ◌+◌, ◌-◌, ◌*◌, ◌/◌, min, max, Bool, ◌&&◌, ◌||◌, [], ◌∷◌, if◌then◌else◌, ◌==◌,
}
use escrow_hub.Text.{length, take, drop}
use escrow_hub.Table.{Table}
use escrow_hub.Db.{EscrowRow, EscrowStatus, pending, active, completed, cancelled, disputed}
use escrow_hub.Escrow.Rows.{is_status, is_participant}

unfoldable pub select_escrows : (EscrowStatus → Bool) → ℕ → Table EscrowRow → Table EscrowRow
select_escrows wanted user_id [] = []
select_escrows wanted user_id ((id, e) ∷ rows) =
    let rest = select_escrows wanted user_id rows in
    if wanted e.status && is_participant user_id e then (id, e) ∷ rest else rest

unfoldable pub list_pending_escrows : ℕ → Table EscrowRow → Table EscrowRow
list_pending_escrows = select_escrows (is_status pending)

unfoldable pub list_active_escrows : ℕ → Table EscrowRow → Table EscrowRow
list_active_escrows = select_escrows (is_status active)

unfoldable pub list_disputed_escrows : ℕ → Table EscrowRow → Table EscrowRow
list_disputed_escrows = select_escrows (is_status disputed)

abbrev pub is_over : EscrowStatus → Bool
is_over s = is_status completed s || is_status cancelled s

-- The rows of a page, the page shown and the number of pages.
unfoldable pub list_completed_escrows_page : ℕ → ℕ → ℕ → Table EscrowRow → Table EscrowRow × ℕ × ℕ
unfolding select_escrows
list_completed_escrows_page user_id asked_page asked_per_page rows =
    let per_page : ℕ = max 1 asked_per_page in
    let all : Table EscrowRow = select_escrows is_over user_id rows in
    let pages : ℕ = max 1 ((length all + per_page - 1) / per_page) in
    let page : ℕ = min (max 1 asked_page) pages in
    (take per_page (drop ((page - 1) * per_page) all), page, pages)

unfoldable pub counterparty_user_id : EscrowRow → ℕ → ℕ
counterparty_user_id e viewer_user_id =
    if e.buyer_id == viewer_user_id then e.seller_id else e.buyer_id
