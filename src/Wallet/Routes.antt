-- ===== src/Wallet/Routes.antt =====
-- wallet_service.py: the stored deposit addresses (`_parsed_route_row`, `monitored_deposit_address_map`).
pub mod Integrity
pub mod Issue
pub mod Again
pub mod Monitored
use escrow_hub.Common.{
  ℕ, Bool, true, false, not, ◌&&◌, ◌||◌, Option, none, some, List, [], ◌∷◌, ◌++◌, map,
  if◌then◌else◌, ◌==◌,
}
use escrow_hub.Text.{Text, codes, is_empty, text_eq, strip}
use escrow_hub.Asset.{
  Asset, btc, ltc, eth, usdt, sol, asset_eq, ChainFamily, btc_chain, ltc_chain, ethereum, solana,
}
use escrow_hub.Address.{Libraries}
use escrow_hub.Outcome.{
  Result, ok, err, raise_if, ◌>>=◌, ◌>>◌, empty_wallet_address, fingerprint_mismatch,
  duplicate_route, fingerprint_collision, provider_ref_rebound,
}
use escrow_hub.Outcome
use escrow_hub.Outside.{Outside}
use escrow_hub.Table.{Table, update}
use escrow_hub.Db.{Db, Action, WalletAddress}
use escrow_hub.Wallet.Addresses.{validate_withdrawal_address}
use escrow_hub.Wallet.Vault.{Vault, decrypt_field, decrypt_text}

pub record DepositRoute : Type 0 where
  pub address : Text
  pub asset : Asset
  pub chain_family : ChainFamily
  pub destination_tag : Option Text
  pub derivation_path : Option Text

abbrev pub family_name : ChainFamily → Text
family_name btc_chain = codes "BTC"
family_name ltc_chain = codes "LTC"
family_name ethereum = codes "ETHEREUM"
family_name solana = codes "SOLANA"

abbrev pub family_eq : ChainFamily → ChainFamily → Bool
family_eq btc_chain btc_chain = true
family_eq ltc_chain ltc_chain = true
family_eq ethereum ethereum = true
family_eq solana solana = true
family_eq _ _ = false

-- The asset whose addresses a family's are.
abbrev pub asset_of_family : ChainFamily → Asset
asset_of_family btc_chain = btc
asset_of_family ltc_chain = ltc
asset_of_family ethereum = eth
asset_of_family solana = sol

abbrev pub checksummed : Libraries → ChainFamily → Text → Text
checksummed lib ethereum candidate = lib.to_checksum_address candidate
checksummed lib _ candidate = candidate

unfoldable pub normalize_address_for_chain : Libraries → ChainFamily → Text → Result Text
normalize_address_for_chain lib chain_family address =
    let candidate = strip address in
    raise_if (is_empty candidate) empty_wallet_address
    >> (validate_withdrawal_address lib (asset_of_family chain_family) candidate
        >> ok (checksummed lib chain_family candidate))

unfoldable pub address_fingerprint : Outside → ChainFamily → Text → Text
address_fingerprint o chain_family normalized_address =
    o.sha256_hex (family_name chain_family ++ codes ":" ++ normalized_address)

-- `str(value or "")`
abbrev pub text_or_empty : Option Text → Text
text_or_empty none = []
text_or_empty (some t) = t

-- What `_parsed_route_row` returns.
pub record Parsed : Type 0 where
  pub route : DepositRoute
  pub normalized : Text
  pub fingerprint : Text

abbrev pub route_of : WalletAddress → Text → Option Text → DepositRoute
route_of row normalized path = record {
  address = normalized;
  asset = row.asset;
  chain_family = row.chain_family;
  destination_tag = row.destination_tag;
  derivation_path = path;
}

-- `stored_fingerprint and stored_fingerprint != fingerprint`
abbrev pub differs : Text → Text → Bool
differs stored fingerprint = not (is_empty stored) && not (text_eq stored fingerprint)

unfoldable pub parsed_route_row : Outside → Vault → WalletAddress → Result Parsed
parsed_route_row o v row = decrypt_text v row.address >>= λ decrypted.
    raise_if (is_empty decrypted) empty_wallet_address
    >> (normalize_address_for_chain o.libraries row.chain_family decrypted >>= λ normalized.
        let fingerprint = address_fingerprint o row.chain_family normalized in
        raise_if (differs (text_or_empty row.address_fingerprint) fingerprint) fingerprint_mismatch
        >> (decrypt_field v row.derivation_path >>= λ path. ok (record {
          route = route_of row normalized path;
          normalized = normalized;
          fingerprint = fingerprint;
        })))

-- An address that is watched, with its user.
pub record Watched : Type 0 where
  pub chain_family : ChainFamily
  pub address : Text
  pub user_id : ℕ

-- `seen_route_keys.get((chain_family, address))`: the last that was set.
unfoldable pub user_seen : ChainFamily → Text → List Watched → Option ℕ
user_seen family address [] = none
user_seen family address (w ∷ seen) =
    let rest = user_seen family address seen in
    if family_eq w.chain_family family && text_eq w.address address then some w.user_id else rest

-- `key in seen_route_keys and seen_route_keys[key] != user_id`
abbrev pub of_another : ℕ → Option ℕ → Bool
of_another user_id none = false
of_another user_id (some other) = not (other == user_id)

unfoldable pub watch_row : ℕ → Parsed → List Watched → Result (List Watched)
unfolding user_seen
watch_row user_id parsed seen =
    raise_if (of_another user_id (user_seen parsed.route.chain_family parsed.normalized seen))
      duplicate_route
    >> ok (
        record {
          chain_family = parsed.route.chain_family;
          address = parsed.normalized;
          user_id = user_id;
        }
        ∷ seen)

abbrev pub mem_asset : Asset → List Asset → Bool
mem_asset a [] = false
mem_asset a (b ∷ assets) = asset_eq b a || mem_asset a assets

-- The loop over the rows of the assets, the oldest first.
unfoldable pub watched_rows :
    Outside → Vault → List Asset → Table WalletAddress → Result (List Watched)
unfolding watch_row parsed_route_row
watched_rows o v assets [] = ok []
watched_rows o v assets ((id, row) ∷ older) =
    let earlier = watched_rows o v assets older in
    if mem_asset row.asset assets
    then (earlier >>= λ seen.
        parsed_route_row o v row >>= λ parsed. watch_row row.user_id parsed seen)
    else earlier

abbrev pub address_user : Watched → Text × ℕ
address_user w = (w.address, w.user_id)

unfoldable pub monitored_deposit_address_map :
    Outside → Vault → List Asset → Db → Result (List (Text × ℕ))
unfolding watched_rows
monitored_deposit_address_map o v assets db =
    watched_rows o v assets db.wallet_addresses >>= λ watched. ok (map address_user watched)
