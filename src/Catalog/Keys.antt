-- ===== src/Catalog/Keys.antt =====
-- Which cached prices an invalidation of services/catalog deletes: domain/cacheKeys.ts and
-- domain/cacheInvalidation.ts.
use atlas_commerce.Prelude.{
  ℕ, zero, suc, ◌+◌, ◌≤◌, ◌<◌, ◌≡◌, ◌∙◌, refl, sym, subst, inl, inr, Bool, true, false, none, List,
  [], ◌∷◌, ◌++◌, map, ◌==◌, ◌&&◌, ◌||◌, arith, Member, ==_iff, ==_refl, Bool-cases,
}
use atlas_commerce.Catalog.Prices.{
  price_cache_key, quantities, keys_of_currencies, keys_of_tiers, enumerate_price_cache_keys,
  has_key, without_keys, cached_price,
}
use atlas_commerce.Catalog.Types.{
  CustomerTier, Currency, ComputedPrice, PriceKey, tier_code, currency_code, same_currency,
  same_key,
}

abbrev Same : PriceKey → PriceKey → Type 0
Same x y =
    (x.product_id ≡ y.product_id)
    × (tier_code x.tier ≡ tier_code y.tier)
    × (currency_code x.currency ≡ currency_code y.currency)
    × (x.qty ≡ y.qty)

both : (a b : Bool) → (a && b) ≡ true → (a ≡ true) × (b ≡ true)
both true true h = (refl, refl)
both true false h = cc
both false b h = cc

same_key-Same : (x y : PriceKey) → same_key x y ≡ true → Same x y
same_key-Same x y h =
    let (p, h') =
      both (x.product_id == y.product_id)
        ((tier_code x.tier == tier_code y.tier)
          && (same_currency x.currency y.currency && (x.qty == y.qty)))
        h in
    let (t, h'') =
      both (tier_code x.tier == tier_code y.tier)
        (same_currency x.currency y.currency && (x.qty == y.qty)) h' in
    let (c, q) = both (same_currency x.currency y.currency) (x.qty == y.qty) h'' in
    (
      (==_iff x.product_id y.product_id).0 p,
      (==_iff (tier_code x.tier) (tier_code y.tier)).0 t,
      (==_iff (currency_code x.currency) (currency_code y.currency)).0 c,
      (==_iff x.qty y.qty).0 q,
    )

Same-same_key : (x y : PriceKey) → Same x y → same_key x y ≡ true
Same-same_key x y (p, t, c, q) = rw ((==_iff x.product_id y.product_id).1 p) (
    rw ((==_iff (tier_code x.tier) (tier_code y.tier)).1 t) (
      rw ((==_iff (currency_code x.currency) (currency_code y.currency)).1 c)
        ((==_iff x.qty y.qty).1 q)))

or_true : (b : Bool) → (b || true) ≡ true
or_true true = refl
or_true false = refl

-- Keys that are one are found among the same keys.
has_key-Same :
    (x y : PriceKey) → Same x y → (ks : List PriceKey) → has_key y ks ≡ true → has_key x ks ≡ true
has_key-Same x y same [] h = cc
has_key-Same x y same (k ∷ ks) h = elim (Bool-cases (same_key y k)) [
  | inl hit ↦
      (let (p, t, c, q) = same_key-Same y k hit in
        let (p', t', c', q') = same in rw (Same-same_key x k (p' ∙ p, t' ∙ t, c' ∙ c, q' ∙ q)) refl)
  | inr miss ↦
      (let later : has_key y ks ≡ true = sym (rw miss refl) ∙ h in
        rw (has_key-Same x y same ks later) (or_true (same_key x k)))
]

has_key_first :
    (k : PriceKey) (xs ys : List PriceKey) → has_key k xs ≡ true → has_key k (xs ++ ys) ≡ true
has_key_first k [] ys h = cc
has_key_first k (x ∷ xs) ys h = elim (Bool-cases (same_key k x)) [
  | inl hit ↦ rw hit refl
  | inr miss ↦
      (let later : has_key k xs ≡ true = sym (rw miss refl) ∙ h in
        rw (has_key_first k xs ys later) (or_true (same_key k x)))
]

has_key_second :
    (k : PriceKey) (xs ys : List PriceKey) → has_key k ys ≡ true → has_key k (xs ++ ys) ≡ true
has_key_second k [] ys h = h
has_key_second k (x ∷ xs) ys h = rw (has_key_second k xs ys h) (or_true (same_key k x))

has_key_quantity :
    (p : ℕ) (t : CustomerTier) (c : Currency) (q from n : ℕ)
    → from ≤ q
    → q < from + n
    → has_key (price_cache_key p t c q) (map (price_cache_key p t c) (quantities from n)) ≡ true
unfolding quantities
has_key_quantity p t c q from zero low high = absurd (omega arith)
has_key_quantity p t c q from (suc n) low high = elim (Bool-cases (q == from)) [
  | inl here ↦
      rw (==_refl p) (rw (==_refl (tier_code t)) (rw (==_refl (currency_code c)) (rw here refl)))
  | inr there ↦
      rw (has_key_quantity p t c q (suc from) n (ground arith) (ground arith))
        (or_true (same_key (price_cache_key p t c q) (price_cache_key p t c from)))
]

has_key_currency :
    (p : ℕ) (t : CustomerTier) (c : Currency) (q : ℕ) (cs : List Currency)
    → 1 ≤ q
    → q ≤ 1000
    → Member c cs
    → has_key (price_cache_key p t c q) (keys_of_currencies p t cs) ≡ true
has_key_currency p t c q [] low high m = elim m [ ]
has_key_currency p t c q (x ∷ cs) low high (inl e) =
    has_key_first (price_cache_key p t c q) (map (price_cache_key p t x) (quantities 1 1000))
      (keys_of_currencies p t cs)
      (subst
        (λ x.
          has_key (price_cache_key p t c q) (map (price_cache_key p t x) (quantities 1 1000))
          ≡ true)
        e (has_key_quantity p t c q 1 1000 low (omega arith)))
has_key_currency p t c q (x ∷ cs) low high (inr m) =
    has_key_second (price_cache_key p t c q) (map (price_cache_key p t x) (quantities 1 1000))
      (keys_of_currencies p t cs) (has_key_currency p t c q cs low high m)

abbrev currencies : List Currency
currencies = Currency.usd ∷ Currency.krw ∷ Currency.jpy ∷ Currency.eur ∷ []

Member-currencies : (c : Currency) → Member c currencies
Member-currencies Currency.usd = inl refl
Member-currencies Currency.krw = inr (inl refl)
Member-currencies Currency.jpy = inr (inr (inl refl))
Member-currencies Currency.eur = inr (inr (inr (inl refl)))

has_key_tier :
    (p : ℕ) (t : CustomerTier) (c : Currency) (q : ℕ) (ts : List CustomerTier)
    → 1 ≤ q
    → q ≤ 1000
    → Member t ts
    → has_key (price_cache_key p t c q) (keys_of_tiers p ts) ≡ true
has_key_tier p t c q [] low high m = elim m [ ]
has_key_tier p t c q (x ∷ ts) low high (inl e) =
    has_key_first (price_cache_key p t c q) (keys_of_currencies p x currencies) (keys_of_tiers p ts)
      (subst (λ x. has_key (price_cache_key p t c q) (keys_of_currencies p x currencies) ≡ true) e
        (has_key_currency p t c q currencies low high (Member-currencies c)))
has_key_tier p t c q (x ∷ ts) low high (inr m) =
    has_key_second (price_cache_key p t c q) (keys_of_currencies p x currencies)
      (keys_of_tiers p ts) (has_key_tier p t c q ts low high m)

Member-tiers :
    (t : CustomerTier)
    → Member t (CustomerTier.standard ∷ CustomerTier.gold ∷ CustomerTier.platinum ∷ [])
Member-tiers CustomerTier.standard = inl refl
Member-tiers CustomerTier.gold = inr (inl refl)
Member-tiers CustomerTier.platinum = inr (inr (inl refl))

-- The enumeration has every key of the product, up to the greatest quantity.
pub has_key-enumerate_price_cache_keys :
    (p : ℕ) (t : CustomerTier) (c : Currency) (q : ℕ)
    → 1 ≤ q
    → q ≤ 1000
    → has_key (price_cache_key p t c q) (enumerate_price_cache_keys p) ≡ true
unfolding enumerate_price_cache_keys
has_key-enumerate_price_cache_keys p t c q low high =
    has_key_tier p t c q (CustomerTier.standard ∷ CustomerTier.gold ∷ CustomerTier.platinum ∷ [])
      low high (Member-tiers t)

-- A key that was deleted is not cached.
pub cached_price-without_keys :
    (key : PriceKey) (keys : List PriceKey) (es : List (PriceKey × ComputedPrice))
    → has_key key keys ≡ true
    → cached_price key (without_keys keys es) ≡ none
unfolding cached_price
cached_price-without_keys key keys [] h = refl
cached_price-without_keys key keys (e ∷ es) h = elim (Bool-cases (has_key (e.0) keys)) [
  | inl gone ↦ rw gone (cached_price-without_keys key keys es h)
  | inr stays ↦ elim (Bool-cases (same_key (e.0) key)) [
    | inl one ↦
        (let too : has_key (e.0) keys ≡ true =
            has_key-Same (e.0) key (same_key-Same (e.0) key one) keys h in
          cc)
    | inr other ↦ rw stays (rw other (cached_price-without_keys key keys es h))
  ]
]
