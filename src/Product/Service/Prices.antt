-- ===== src/Product/Service/Prices.antt =====
-- What a reservation quotes: each product under its name and at its price.
use shop_microservices.Prelude.{
  ℕ, ◌+◌, ◌*◌, ◌==◌, Option, none, some, List, [], ◌∷◌, All, ◌≡◌, inl, inr, arith, Bool-cases,
  eq_iff,
}
use shop_microservices.Shared.Messages.{StockItem}
use shop_microservices.Product.Entity.{ProductEntity, ReservedItemResult, Tables}
use shop_microservices.Product.Service.{save_product}

abbrev pub price_of : Option ProductEntity → ℕ
price_of none = 0
price_of (some p) = p.price

module _ (T : Tables) where
  -- What the items cost at the prices in the table.
  abbrev pub cost : T.products.Table → List StockItem → ℕ
  cost t [] = 0
  cost t (i ∷ items) = price_of (T.products.find_one t i.product_id) * i.quantity + cost t items

  -- The reply quotes a stored product under its name and at its price.
  abbrev pub IsPriced : T.products.Table → ReservedItemResult → Type 0
  IsPriced t r =
      (p : ProductEntity) × (T.products.find_one t r.product_id ≡ some p)
      × (r.name ≡ p.name)
      × (r.unit_price ≡ p.price)

  -- What is quoted from the second table is quoted from the first.
  abbrev pub KeepsPrices : T.products.Table → T.products.Table → Type 0
  KeepsPrices t t' = (r : ReservedItemResult) → IsPriced t' r → IsPriced t r

  pub save_product-KeepsPrices :
      (now n : ℕ) (t : T.products.Table) (p : ProductEntity)
      → T.products.find_one t p.id ≡ some p
      → KeepsPrices t (save_product T now (record p { stock = n }) t)
  unfolding save_product
  save_product-KeepsPrices now n t p found r (q, stored, named, priced) =
      let saved = record p { stock = n; updated_at = now } in
      let here = T.products.find_one-save t saved r.product_id in
      elim (Bool-cases (p.id == r.product_id)) [
        | inl same ↦ (
          p,
          ground (arith, eq_iff p.id r.product_id, same, found),
          ground (arith, here, stored, same, named),
          ground (arith, here, stored, same, priced),
        )
        | inr other ↦ (q, ground (arith, here, stored, other), named, priced)
      ]

  pub All-IsPriced :
      (t t' : T.products.Table) (rs : List ReservedItemResult)
      → KeepsPrices t t'
      → All (IsPriced t') rs
      → All (IsPriced t) rs
  All-IsPriced t t' [] keeps all = tt
  All-IsPriced t t' (r ∷ rs) keeps (p, all) = (keeps r p, All-IsPriced t t' rs keeps all)
