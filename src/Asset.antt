-- ===== src/Asset.antt =====
-- The supported assets and their tables (config/settings.py, wallet_service.py, price_service.py).
use escrow_hub.Common.{ℕ, ◌≡◌, refl, Bool, true, false, if◌then◌else◌, arith}
use escrow_hub.Text.{Text, codes, text_eq, upper}
use escrow_hub.Outcome.{Result, ok, err, unsupported_asset}

pub data Asset : Type 0 where
  btc ltc eth usdt sol : Asset

unfoldable pub name : Asset → Text
name btc = codes "BTC"
name ltc = codes "LTC"
name eth = codes "ETH"
name usdt = codes "USDT"
name sol = codes "SOL"

unfoldable pub asset_eq : Asset → Asset → Bool
asset_eq btc btc = true
asset_eq ltc ltc = true
asset_eq eth eth = true
asset_eq usdt usdt = true
asset_eq sol sol = true
asset_eq _ _ = false

-- `WalletService._asset`
unfoldable pub parse_asset : Text → Result Asset
unfolding name text_eq upper
parse_asset text =
    let symbol = upper text in
    if text_eq symbol (name btc)
    then ok btc
    else if text_eq symbol (name ltc)
    then ok ltc
    else if text_eq symbol (name eth)
    then ok eth
    else if text_eq symbol (name usdt)
    then ok usdt
    else if text_eq symbol (name sol)
    then ok sol
    else err unsupported_asset

pub data ChainFamily : Type 0 where
  btc_chain ltc_chain ethereum solana : ChainFamily

-- `WalletService._chain_family`
unfoldable pub chain_family : Asset → ChainFamily
chain_family btc = btc_chain
chain_family ltc = ltc_chain
chain_family eth = ethereum
chain_family usdt = ethereum
chain_family sol = solana

-- `ASSET_QUANTA`: the number of decimal places that an asset has.
unfoldable pub quantum_places : Asset → ℕ
quantum_places btc = 8
quantum_places ltc = 8
quantum_places eth = 8
quantum_places usdt = 6
quantum_places sol = 9

pub asset_eq_refl : (a : Asset) → asset_eq a a ≡ true
unfolding asset_eq
asset_eq_refl btc = refl
asset_eq_refl ltc = refl
asset_eq_refl eth = refl
asset_eq_refl usdt = refl
asset_eq_refl sol = refl

pub asset_eq_sound : (a b : Asset) → asset_eq a b ≡ true → a ≡ b
unfolding asset_eq
asset_eq_sound btc b h = ground arith
asset_eq_sound ltc b h = ground arith
asset_eq_sound eth b h = ground arith
asset_eq_sound usdt b h = ground arith
asset_eq_sound sol b h = ground arith
