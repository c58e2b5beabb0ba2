-- ===== src/Wallet/Routes/Integrity.antt =====
-- wallet_service.py: the check of the stored deposit addresses at start
-- (`ensure_wallet_route_integrity`).
use escrow_hub.Common.{
  ℕ, Bool, true, false, not, ◌&&◌, ◌||◌, Option, none, some, List, [], ◌∷◌, if◌then◌else◌, ◌==◌,
}
use escrow_hub.Text.{Text, is_empty, text_eq}
use escrow_hub.Asset.{Asset, eth, usdt, asset_eq, ChainFamily, ethereum}
use escrow_hub.Outcome.{
  Result, ok, err, raise_if, ◌>>=◌, ◌>>◌, fingerprint_collision, provider_ref_rebound,
}
use escrow_hub.Outside.{Outside}
use escrow_hub.Table.{Table, update}
use escrow_hub.Db.{Action, WalletAddress}
use escrow_hub.Wallet.Vault.{Vault}
use escrow_hub.Wallet.Routes.{parsed_route_row, text_or_empty, family_eq}

-- What the integrity check keeps of a row that it has passed.
pub record Checked : Type 0 where
  pub id : ℕ
  pub user_id : ℕ
  pub asset : Asset
  pub chain_family : ChainFamily
  pub fingerprint : Text
  pub provider_origin : Text
  pub provider_ref : Text

unfoldable pub by_fingerprint : ChainFamily → Text → List Checked → Option Checked
by_fingerprint family fingerprint [] = none
by_fingerprint family fingerprint (c ∷ passed) =
    let rest = by_fingerprint family fingerprint passed in
    if family_eq c.chain_family family && text_eq c.fingerprint fingerprint then some c else rest

-- Rows without an origin or a reference are not entered.
abbrev pub has_provider_key : Checked → Bool
has_provider_key c = not (is_empty c.provider_origin) && not (is_empty c.provider_ref)

unfoldable pub by_provider : Text → Text → List Checked → Option Checked
by_provider origin ref [] = none
by_provider origin ref (c ∷ passed) =
    let rest = by_provider origin ref passed in
    if has_provider_key c && text_eq c.provider_origin origin && text_eq c.provider_ref ref
    then some c
    else rest

abbrev pub is_evm : Asset → Bool
is_evm eth = true
is_evm usdt = true
is_evm _ = false

-- A prior row with the fingerprint, other than the same user's ETH and USDT.
abbrev pub collides : Checked → Option Checked → Bool
collides c none = false
collides c (some prior) =
    not (
      family_eq c.chain_family ethereum
      && prior.user_id == c.user_id
      && is_evm prior.asset
      && is_evm c.asset)
    && (not (prior.user_id == c.user_id) || not (asset_eq prior.asset c.asset))

-- A prior row with the provider's reference, of another user or address.
abbrev pub rebinds : Checked → Option Checked → Bool
rebinds c none = false
rebinds c (some prior) =
    not (prior.user_id == c.user_id) || not (text_eq prior.fingerprint c.fingerprint)

abbrev pub checked_row : ℕ → WalletAddress → Text → Checked
checked_row id row fingerprint = record {
  id = id;
  user_id = row.user_id;
  asset = row.asset;
  chain_family = row.chain_family;
  fingerprint = fingerprint;
  provider_origin = text_or_empty row.provider_origin;
  provider_ref = text_or_empty row.provider_ref;
}

unfoldable pub check_row : Checked → List Checked → Result (List Checked)
unfolding by_fingerprint by_provider
check_row c passed =
    raise_if (collides c (by_fingerprint c.chain_family c.fingerprint passed)) fingerprint_collision
    >> (raise_if
          (has_provider_key c && rebinds c (by_provider c.provider_origin c.provider_ref passed))
          provider_ref_rebound
        >> ok (c ∷ passed))

unfoldable pub check_rows : Outside → Vault → Table WalletAddress → Result (List Checked)
unfolding check_row parsed_route_row
check_rows o v [] = ok []
check_rows o v ((id, row) ∷ older) = check_rows o v older >>= λ passed.
    parsed_route_row o v row >>= λ parsed. check_row (checked_row id row parsed.fingerprint) passed

-- UPDATE wallet_addresses SET address_fingerprint=? where none is stored
abbrev pub set_fingerprint : Text → WalletAddress → WalletAddress
set_fingerprint fingerprint row =
    if is_empty (text_or_empty row.address_fingerprint)
    then record row { address_fingerprint = some fingerprint }
    else row

unfoldable pub backfill : List Checked → Table WalletAddress → Table WalletAddress
backfill [] rows = rows
backfill (c ∷ passed) rows = update c.id (set_fingerprint c.fingerprint) (backfill passed rows)

unfoldable pub ensure_wallet_route_integrity : Outside → Vault → Action (Unit {0})
unfolding check_rows backfill
ensure_wallet_route_integrity o v db = elim (check_rows o v db.wallet_addresses) [
  | err e ↦ (err e, db)
  | ok passed ↦ (ok tt, record db { wallet_addresses = backfill passed db.wallet_addresses })
]
