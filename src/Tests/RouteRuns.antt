-- ===== src/Tests/RouteRuns.antt =====
-- A deposit address of a user, issued, stored and watched.
use escrow_hub.Common.{ap, map, ◌≡◌, refl, none, List, [], ◌∷◌}
use escrow_hub.Text.{Text, codes}
use escrow_hub.Asset.{btc, btc_chain, chain_family}
use escrow_hub.Outcome.{ok, ◌>>=◌}
use escrow_hub.Table.{find_where}
use escrow_hub.Db.{Db, WalletAddress}
use escrow_hub.Wallet.Vault.{Vault}
use escrow_hub.Wallet.Routes.{
  Watched, address_user, monitored_deposit_address_map, address_fingerprint,
  normalize_address_for_chain, watched_rows,
}
use escrow_hub.Wallet.Routes.Issue.{Prepared, plain_route, route_row, issue_body}
use escrow_hub.Wallet.Routes.Again.{Opens, the_row, after_issue, issue_body_again}
use escrow_hub.Wallet.Routes.Monitored.{newest, Owns, monitored_deposit_address_map-owner}
use escrow_hub.Tests.{some_vault, funded_db, some_outside, some_libraries}

vault-Opens : Opens some_vault
vault-Opens = record { keyed = refl; opens = λ t. refl }

abbrev deposit_address : Text
deposit_address = codes "bc1qar0srrr7xfkvy5l643lydnw9re59gtzzwf5mdq"

abbrev prepared : Prepared
prepared = record {
  issued = record {
    address = deposit_address;
    provider_origin = codes "http";
    provider_ref = codes "r1";
  };
  normalized = deposit_address;
  fingerprint = address_fingerprint some_outside (chain_family btc) deposit_address;
}

normal :
    normalize_address_for_chain some_libraries (chain_family btc) deposit_address
    ≡ ok deposit_address
unfolding normalize_address_for_chain escrow_hub.Text.strip
    escrow_hub.Wallet.Addresses.validate_withdrawal_address escrow_hub.Text.starts_with
    escrow_hub.Text.lower escrow_hub.Wallet.Addresses.bech32_decode escrow_hub.Text.text_eq
    escrow_hub.Address.Bytes.last_index_of escrow_hub.Address.Bytes.index_of
    escrow_hub.Wallet.Addresses.check_segwit chain_family
normal = refl

again_route_example :
    (issue_body some_outside some_vault 1 btc prepared funded_db ≡ (
      ok (plain_route btc deposit_address none),
      after_issue some_outside some_vault 1 btc prepared vault-Opens normal refl funded_db,
    ))
    × (issue_body some_outside some_vault 1 btc prepared
          (after_issue some_outside some_vault 1 btc prepared vault-Opens normal refl funded_db)
        ≡ (
          ok (plain_route btc deposit_address none),
          after_issue some_outside some_vault 1 btc prepared vault-Opens normal refl funded_db,
        ))
unfolding route_row find_where escrow_hub.Table.find
again_route_example =
    issue_body_again some_outside some_vault 1 btc prepared vault-Opens normal refl funded_db refl
      refl refl refl

abbrev stored_row : WalletAddress
unfolding chain_family
stored_row = the_row some_outside some_vault 1 btc prepared vault-Opens normal refl

abbrev watched : List Watched
watched = record { chain_family = btc_chain; address = deposit_address; user_id = 1 } ∷ []

watched-ok : watched_rows some_outside some_vault (btc ∷ []) ((1, stored_row) ∷ []) ≡ ok watched
unfolding watched_rows escrow_hub.Asset.asset_eq stored_row escrow_hub.Wallet.Vault.decrypt_text
    escrow_hub.Text.starts_with normalize_address_for_chain escrow_hub.Text.strip
    escrow_hub.Wallet.Addresses.validate_withdrawal_address escrow_hub.Text.lower
    escrow_hub.Wallet.Addresses.bech32_decode escrow_hub.Text.text_eq
    escrow_hub.Address.Bytes.last_index_of escrow_hub.Address.Bytes.index_of
    escrow_hub.Wallet.Addresses.check_segwit address_fingerprint
    escrow_hub.Wallet.Vault.decrypt_field
watched-ok = refl

abbrev routed : Db
routed = record funded_db { wallet_addresses = (1, stored_row) ∷ []; next_wallet_address = 2 }

the_map-ok :
    monitored_deposit_address_map some_outside some_vault (btc ∷ []) routed
    ≡ ok ((deposit_address, 1) ∷ [])
unfolding monitored_deposit_address_map
the_map-ok = ap (λ r. r >>= λ watched. ok (map address_user watched)) watched-ok

owner_example : Owns some_outside some_vault stored_row ((deposit_address, 1) ∷ [])
unfolding escrow_hub.Asset.asset_eq stored_row chain_family
owner_example =
    monitored_deposit_address_map-owner some_outside some_vault btc_chain (btc ∷ []) routed
      stored_row (refl, tt) (refl, tt) the_map-ok newest refl
