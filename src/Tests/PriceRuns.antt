-- ===== src/Tests/PriceRuns.antt =====
-- A price that is looked up twice: the second answer is the cached one.
use escrow_hub.Common.{subst, arith, ◌≡◌, refl, true, none, some, List, [], ◌∷◌, ℕ}
use escrow_hub.Asset.{Asset, btc}
use escrow_hub.Decimal.{Decimal, of_ℕ, zero_amount, lt}
use escrow_hub.Outcome.{ok, err, price_lookup_failed, ok-injective}
use escrow_hub.Price.{Quotes}
use escrow_hub.Price.Cache.{Cache, static_price, get_usd_price}
use escrow_hub.Price.Sourced.{
  Lookup, Meets, CacheMeets, StaticMeets, after_lookups, get_usd_price-after_lookups,
}

-- A feed that answers 100, and one that does not answer.
abbrev answering : Quotes
answering asset = ok (of_ℕ 100)

abbrev failing : Quotes
failing asset = err price_lookup_failed

abbrev no_cache : Cache
no_cache asset = none

abbrev Positive : Asset → Decimal → Type 0
Positive asset price = lt zero_amount price ≡ true

abbrev first_lookup : Lookup
first_lookup = record { now = 10; asset = btc; coingecko = failing; coinbase = answering }

abbrev second_lookup : Lookup
second_lookup = record { now = 20; asset = btc; coingecko = failing; coinbase = failing }

answering-Meets : Meets Positive answering
unfolding lt escrow_hub.Common.scale escrow_hub.Common.pow10
answering-Meets = record {
  meets = λ a price e. subst (λ d. lt zero_amount d ≡ true) (ok-injective e) refl;
}

failing-Meets : Meets Positive failing
failing-Meets = record { meets = λ a price e. absurd (cc) }

no_cache-CacheMeets : CacheMeets Positive no_cache
no_cache-CacheMeets = record { cached = λ a ts price e. absurd (cc) }

fixed-StaticMeets : StaticMeets Positive
unfolding static_price lt escrow_hub.Common.scale escrow_hub.Common.pow10
fixed-StaticMeets = record { fixed = λ a price e. fixed_positive a price e }
  where
    fixed_positive :
        (a : Asset) (price : Decimal) → static_price a ≡ some price → lt zero_amount price ≡ true
    fixed_positive Asset.usdt price e =
        let it : of_ℕ 1 ≡ price = ground arith in subst (λ d. lt zero_amount d ≡ true) it refl
    fixed_positive Asset.btc price e = absurd (cc)
    fixed_positive Asset.ltc price e = absurd (cc)
    fixed_positive Asset.eth price e = absurd (cc)
    fixed_positive Asset.sol price e = absurd (cc)

cached_price :
    (get_usd_price 60 20 failing failing btc (after_lookups 60 (first_lookup ∷ []) no_cache)).0
    ≡ ok (of_ℕ 100)
unfolding get_usd_price after_lookups escrow_hub.Asset.asset_eq
cached_price = refl

price_example : lt zero_amount (of_ℕ 100) ≡ true
price_example =
    get_usd_price-after_lookups Positive 60 (first_lookup ∷ []) second_lookup no_cache (of_ℕ 100)
      fixed-StaticMeets no_cache-CacheMeets (failing-Meets, answering-Meets, tt) failing-Meets
      failing-Meets cached_price
