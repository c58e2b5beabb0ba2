-- ===== src/Price/Cache.antt =====
-- price_service.py: `CoinGeckoPriceService` with its cache. The two price feeds are arguments.
use escrow_hub.Common.{ℕ, ◌+◌, Option, none, some, if◌then◌else◌, ltb}
use escrow_hub.Asset.{Asset, btc, ltc, eth, usdt, sol, asset_eq}
use escrow_hub.Decimal.{Decimal, of_ℕ}
use escrow_hub.Outcome.{Result, ok, err, price_lookup_failed}
use escrow_hub.Price.{Quotes}

-- The time in seconds and the price, by symbol.
abbrev pub Cache : Type 0
Cache = Asset → Option (ℕ × Decimal)

-- `time.time() - ts < ttl_seconds`
unfoldable pub cache_get_fresh : ℕ → ℕ → Asset → Cache → Option Decimal
cache_get_fresh ttl_seconds now asset cache = elim (cache asset) [
  | none ↦ none
  | some (ts, price) ↦ if ltb now (ts + ttl_seconds) then some price else none
]

unfoldable pub cache_get_any : Asset → Cache → Option Decimal
cache_get_any asset cache = elim (cache asset) [ none ↦ none | some (_, price) ↦ some price ]

unfoldable pub cache_set : ℕ → Asset → Decimal → Cache → Cache
cache_set now asset price cache a = if asset_eq a asset then some (now, price) else cache a

-- `STATIC_FALLBACK_PRICES`
unfoldable pub static_price : Asset → Option Decimal
static_price usdt = some (of_ℕ 1)
static_price btc = none
static_price ltc = none
static_price eth = none
static_price sol = none

-- The answer of a feed, kept; else the next thing to try.
abbrev pub keep_or :
    ℕ → Asset → Cache → Result Decimal → Result Decimal × Cache → Result Decimal × Cache
keep_or now asset cache (ok price) next = (ok price, cache_set now asset price cache)
keep_or now asset cache (err _) next = next

abbrev pub stale_or_raise : Option Decimal → Result Decimal
stale_or_raise none = err price_lookup_failed
stale_or_raise (some price) = ok price

abbrev pub from_feeds : ℕ → Quotes → Quotes → Asset → Cache → Result Decimal × Cache
from_feeds now coingecko coinbase asset cache =
    keep_or now asset cache (coingecko asset)
      (keep_or now asset cache (coinbase asset) (stale_or_raise (cache_get_any asset cache), cache))

unfoldable pub get_usd_price : ℕ → ℕ → Quotes → Quotes → Asset → Cache → Result Decimal × Cache
unfolding cache_get_fresh cache_get_any cache_set static_price
get_usd_price ttl_seconds now coingecko coinbase asset cache =
    elim (cache_get_fresh ttl_seconds now asset cache) [
      | some price ↦ (ok price, cache)
      | none ↦ elim (static_price asset) [
        | some price ↦ (ok price, cache_set now asset price cache)
        | none ↦ from_feeds now coingecko coinbase asset cache
      ]
    ]
