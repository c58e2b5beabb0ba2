-- ===== src/Tests/AddressRuns.antt =====
-- The address checks on addresses of the Bitcoin network.
use escrow_hub.Common.{◌≡◌, refl, arith}
use escrow_hub.Text.{Text, codes}
use escrow_hub.Asset.{btc}
use escrow_hub.Outcome.{ok}
use escrow_hub.Address.{from_bytes}
use escrow_hub.Wallet.Addresses.{validate_withdrawal_address, or_invalid, b58_bytes, b58_number}
use escrow_hub.Wallet.Addresses.Value.{b58_bytes-value, after_ones, leading_zeros, StartsOtherwise}
use escrow_hub.Provider.Addresses.{validate_destination_address}
use escrow_hub.Provider.Addresses.Agree.{destination_agrees}
use escrow_hub.Tests.{some_libraries}

abbrev segwit_address : Text
segwit_address = codes "bc1qar0srrr7xfkvy5l643lydnw9re59gtzzwf5mdq"

accepted : validate_withdrawal_address some_libraries btc segwit_address ≡ ok tt
unfolding validate_withdrawal_address escrow_hub.Text.strip escrow_hub.Text.starts_with
    escrow_hub.Text.lower escrow_hub.Wallet.Addresses.bech32_decode escrow_hub.Text.text_eq
    escrow_hub.Address.last_index_of escrow_hub.Address.index_of
    escrow_hub.Wallet.Addresses.check_segwit
accepted = refl

agree_example :
    or_invalid (validate_destination_address some_libraries btc segwit_address)
    ≡ or_invalid (validate_withdrawal_address some_libraries btc segwit_address)
unfolding escrow_hub.Asset.asset_eq
agree_example = destination_agrees some_libraries btc segwit_address refl

-- "11BvBMS"
base58_example :
    (from_bytes 0 (b58_bytes (after_ones 2 (codes "BvBMS")) 123540721) ≡ 123540721)
    × (leading_zeros (b58_bytes (after_ones 2 (codes "BvBMS")) 123540721) ≡ 2)
unfolding b58_number escrow_hub.Address.index_of after_ones StartsOtherwise
base58_example = b58_bytes-value 2 (codes "BvBMS") 123540721 (λ same. absurd (omega arith)) refl
