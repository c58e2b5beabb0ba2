-- ===== src/Price/Sourced.antt =====
-- price_service.py: where the prices come from that `CoinGeckoPriceService` returns.
use escrow_hub.Common.{
  ℕ, ◌≡◌, refl, sym, subst, Bool-cases, inl, inr, Option-cases, none, some, List, [], ◌∷◌, arith,
}
use escrow_hub.Asset.{Asset, asset_eq, asset_eq_sound}
use escrow_hub.Decimal.{Decimal}
use escrow_hub.Outcome.{Result, ok, err, ok-injective}
use escrow_hub.Price.{Quotes}
use escrow_hub.Price.Cache.{
  Cache, cache_get_fresh, cache_get_any, cache_set, static_price, keep_or, stale_or_raise,
  from_feeds, get_usd_price,
}

-- A call, at its time, with what the two feeds answer then.
pub record Lookup : Type 0 where
  pub now : ℕ
  pub asset : Asset
  pub coingecko : Quotes
  pub coinbase : Quotes

module _ (p : Asset → Decimal → Type 0) where
  -- Whatever a feed answers has the property.
  pub record Meets (q : Quotes) : Type 0 where
    pub meets : (a : Asset) (price : Decimal) → q a ≡ ok price → p a price

  pub record CacheMeets (cache : Cache) : Type 0 where
    pub cached : (a : Asset) (ts : ℕ) (price : Decimal) → cache a ≡ some (ts, price) → p a price

  -- A price that is returned has the property, and so have those that are kept.
  record Fair (asset : Asset) (r : Result Decimal × Cache) : Type 0 where
    returned : (price : Decimal) → r.0 ≡ ok price → p asset price
    kept : CacheMeets r.1

  cache_set-Fair :
      (now : ℕ) (asset : Asset) (price : Decimal) (cache : Cache)
      → p asset price
      → CacheMeets cache
      → Fair asset (ok price, cache_set now asset price cache)
  unfolding cache_set
  cache_set-Fair now asset price cache good c = record {
    returned = λ q e. subst (λ d. p asset d) (ok-injective e) good;
    kept = record {
      cached = λ a ts q e. elim (Bool-cases (asset_eq a asset)) [
        | inl same ↦
            let one : a ≡ asset = asset_eq_sound a asset same in
            let it : price ≡ q = ground arith in
            subst (λ b. p b q) (sym one) (subst (λ d. p asset d) it good)
        | inr other ↦ c.cached a ts q (rw other at e)
      ];
    };
  }

  keep_or-Fair :
      (now : ℕ) (asset : Asset) (cache : Cache) (r : Result Decimal) (next : Result Decimal × Cache)
      → ((price : Decimal) → r ≡ ok price → p asset price)
      → CacheMeets cache
      → Fair asset next
      → Fair asset (keep_or now asset cache r next)
  keep_or-Fair now asset cache (ok price) next good c f =
      cache_set-Fair now asset price cache (good price refl) c
  keep_or-Fair now asset cache (err e) next good c f = f

  stale_or_raise-Fair :
      (asset : Asset) (cache : Cache)
      → CacheMeets cache
      → Fair asset (stale_or_raise (cache_get_any asset cache), cache)
  unfolding cache_get_any
  stale_or_raise-Fair asset cache c = record {
    returned = λ price e. elim (Option-cases (cache asset)) [
      | inl n ↦ absurd (ground arith)
      | inr ((ts, q), s) ↦
          let it : q ≡ price = ground arith in subst (λ d. p asset d) it (c.cached asset ts q s)
    ];
    kept = c;
  }

  -- The table of fixed prices has the property.
  pub record StaticMeets : Type 0 where
    pub fixed : (a : Asset) (price : Decimal) → static_price a ≡ some price → p a price

  cache_get_fresh-eq-some :
      (ttl now : ℕ) (asset : Asset) (cache : Cache) (price : Decimal)
      → cache_get_fresh ttl now asset cache ≡ some price
      → CacheMeets cache
      → p asset price
  unfolding cache_get_fresh
  cache_get_fresh-eq-some ttl now asset cache price e c = elim (Option-cases (cache asset)) [
    | inl n ↦ absurd (ground arith)
    | inr ((ts, q), s) ↦
        let it : q ≡ price = ground arith in subst (λ d. p asset d) it (c.cached asset ts q s)
  ]

  asks_feeds :
      (ttl : ℕ) (l : Lookup) (cache : Cache)
      → cache_get_fresh ttl l.now l.asset cache ≡ none
      → static_price l.asset ≡ none
      → get_usd_price ttl l.now l.coingecko l.coinbase l.asset cache
        ≡ from_feeds l.now l.coingecko l.coinbase l.asset cache
  unfolding get_usd_price
  asks_feeds ttl l cache e f = ground (arith, e, f)

  asks_table :
      (ttl : ℕ) (l : Lookup) (cache : Cache) {price : Decimal}
      → cache_get_fresh ttl l.now l.asset cache ≡ none
      → static_price l.asset ≡ some price
      → get_usd_price ttl l.now l.coingecko l.coinbase l.asset cache
        ≡ (ok price, cache_set l.now l.asset price cache)
  unfolding get_usd_price
  asks_table ttl l cache e f = ground (arith, e, f)

  asks_cache :
      (ttl : ℕ) (l : Lookup) (cache : Cache) {price : Decimal}
      → cache_get_fresh ttl l.now l.asset cache ≡ some price
      → get_usd_price ttl l.now l.coingecko l.coinbase l.asset cache ≡ (ok price, cache)
  unfolding get_usd_price
  asks_cache ttl l cache e = ground (arith, e)

  get_usd_price-Fair :
      (ttl : ℕ) (l : Lookup) (cache : Cache)
      → StaticMeets
      → Meets l.coingecko
      → Meets l.coinbase
      → CacheMeets cache
      → Fair l.asset (get_usd_price ttl l.now l.coingecko l.coinbase l.asset cache)
  get_usd_price-Fair ttl l cache st m1 m2 c =
      elim (Option-cases (cache_get_fresh ttl l.now l.asset cache)) [
        | inr (price, e) ↦ subst (Fair l.asset) (sym (asks_cache ttl l cache e)) (record {
          returned = λ q r.
              subst (λ d. p l.asset d) (ok-injective r)
                (cache_get_fresh-eq-some ttl l.now l.asset cache price e c);
          kept = c;
        })
        | inl e ↦ elim (Option-cases (static_price l.asset)) [
          | inr (price, f) ↦
              subst (Fair l.asset) (sym (asks_table ttl l cache e f))
                (cache_set-Fair l.now l.asset price cache (st.fixed l.asset price f) c)
          | inl f ↦ subst (Fair l.asset) (sym (asks_feeds ttl l cache e f)) (
              keep_or-Fair l.now l.asset cache (l.coingecko l.asset) _ (m1.meets l.asset) c (
                keep_or-Fair l.now l.asset cache (l.coinbase l.asset) _ (m2.meets l.asset) c
                  (stale_or_raise-Fair l.asset cache c)))
        ]
      ]

  -- The feeds of every call.
  abbrev pub AllMeet : List Lookup → Type 0
  AllMeet [] = Unit {0}
  AllMeet (l ∷ ls) = Meets l.coingecko × Meets l.coinbase × AllMeet ls

-- The cache after calls in their order.
unfoldable pub after_lookups : ℕ → List Lookup → Cache → Cache
after_lookups ttl [] cache = cache
after_lookups ttl (l ∷ ls) cache =
    after_lookups ttl ls (get_usd_price ttl l.now l.coingecko l.coinbase l.asset cache).1

-- If a property of an asset and a price holds of the fixed prices, of the prices in the cache and of
-- whatever the two feeds answer in each of a sequence of calls and in one more, then it holds of the
-- price that the last call returns, be it fresh, cached or stale.
pub get_usd_price-after_lookups :
    (p : Asset → Decimal → Type 0) (ttl : ℕ) (ls : List Lookup) (l : Lookup) (cache : Cache)
    (price : Decimal)
    → StaticMeets p
    → CacheMeets p cache
    → AllMeet p ls
    → Meets p l.coingecko
    → Meets p l.coinbase
    → (get_usd_price ttl l.now l.coingecko l.coinbase l.asset (after_lookups ttl ls cache)).0
      ≡ ok price
    → p l.asset price
unfolding after_lookups
get_usd_price-after_lookups p ttl [] l cache price st c all m1 m2 h =
    (get_usd_price-Fair p ttl l cache st m1 m2 c).returned price h
get_usd_price-after_lookups p ttl (k ∷ ls) l cache price st c (k1, k2, all) m1 m2 h =
    get_usd_price-after_lookups p ttl ls l
      (get_usd_price ttl k.now k.coingecko k.coinbase k.asset cache).1 price st
      (get_usd_price-Fair p ttl k cache st k1 k2 c).kept all m1 m2 h
