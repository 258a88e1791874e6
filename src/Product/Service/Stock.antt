-- ===== src/Product/Service/Stock.antt =====
-- What reserving and releasing do to the stock of each product.
use shop_microservices.Prelude.{
  ℕ, ◌+◌, ◌-◌, ◌≤◌, String, true, Option, none, some, List, [], ◌∷◌, ◌++◌, map, All, subst,
  if◌then◌else◌, ltb, ◌==◌, ◌≡◌, ◌≢◌, ◌⊎◌, inl, inr, refl, sym, append-nil, ◌∙◌, arith, eq_iff,
  Bool-cases, Option-cases, ap,
}
use shop_microservices.Shared.Messages.{StockItem}
use shop_microservices.Product.Service.Prices.{
  IsPriced, KeepsPrices, All-IsPriced, save_product-KeepsPrices,
}
use shop_microservices.Exec.{Result, ok, err, continue, pure}
use shop_microservices.Product.Entity.{
  ProductEntity, ReservedItemResult, ProductError, product_not_found, insufficient_stock, Tables,
}
use shop_microservices.Product.Service.{
  save_product, find_active, reserved_item, reserve_item, reserve_each,
}

-- The units of one product that a list asks for.
unfoldable pub requested : List StockItem → String → ℕ
requested [] k = 0
requested (item ∷ items) k = (if item.product_id == k then item.quantity else 0) + requested items k

unfoldable pub stock_in : Option ProductEntity → ℕ
stock_in none = 0
stock_in (some p) = p.stock

-- The reply quotes an item: the product and the quantity.
abbrev pub quoted : ReservedItemResult → StockItem
quoted r = record { product_id = r.product_id; quantity = r.quantity }

pub requested-append :
    (xs ys : List StockItem) (k : String) → requested (xs ++ ys) k ≡ requested xs k + requested ys k
unfolding requested
requested-append [] ys k = omega arith
requested-append (x ∷ xs) ys k = omega (arith, requested-append xs ys k)

module _ (T : Tables) where
  unfoldable pub stock_of : T.products.Table → String → ℕ
  unfolding stock_in
  stock_of t k = stock_in (T.products.find_one t k)

  -- Exactly the units of a list were taken, and no product has gone.
  abbrev pub Takes : List StockItem → T.products.Table → T.products.Table → Type 0
  Takes taken t t' =
      (k : String)
      → (stock_of t' k + requested taken k ≡ stock_of t k)
        × (T.products.find_one t' k ≡ none → T.products.find_one t k ≡ none)

  pub stock_of-none :
      (t : T.products.Table) (k : String) → T.products.find_one t k ≡ none → stock_of t k ≡ 0
  unfolding stock_of stock_in
  stock_of-none t k gone = rw gone refl

  stock_of-save :
      (now : ℕ) (t : T.products.Table) (p : ProductEntity) (k : String)
      → stock_of (save_product T now p t) k ≡ (if p.id == k then p.stock else stock_of t k)
  unfolding stock_of stock_in save_product
  stock_of-save now t p k = elim (Bool-cases (p.id == k)) [
    | inl h ↦ rw (T.products.find_one-save t (record p { updated_at = now }) k, h)
    | inr h ↦ rw (T.products.find_one-save t (record p { updated_at = now }) k, h)
  ]

  -- An item is taken from its product, or the table is as it was.
  pub reserve_item-cases :
      (now : ℕ) (item : StockItem) (t : T.products.Table)
      → ((p : ProductEntity) × (T.products.find_one t item.product_id ≡ some p)
          × (item.quantity ≤ p.stock)
          × (reserve_item T now item t ≡ (
            ok (reserved_item p item),
            save_product T now (record p { stock = p.stock - item.quantity }) t,
          )))
        ⊎ ((e : ProductError) × (reserve_item T now item t ≡ (err e, t)))
  unfolding reserve_item find_active
  reserve_item-cases now item t = elim (Option-cases (T.products.find_one t item.product_id)) [
    | inl h ↦ inr (product_not_found item.product_id, rw (reserve_item, find_active, h))
    | inr (p, h) ↦ elim (Bool-cases p.is_active) [
      | inr inactive ↦
          inr (product_not_found item.product_id, rw (reserve_item, find_active, h, inactive))
      | inl active ↦ elim (Bool-cases (ltb p.stock item.quantity)) [
        | inl short ↦ inr (
          insufficient_stock item.product_id item.quantity p.stock,
          rw (reserve_item, find_active, h, active, short),
        )
        | inr enough ↦
            inl (p, h, ground (arith, enough), rw (reserve_item, find_active, h, active, enough))
      ]
    ]
  ]

  save_keeps :
      (now : ℕ) (t : T.products.Table) (p : ProductEntity) (k : String)
      → T.products.find_one (save_product T now p t) k ≡ none
      → T.products.find_one t k ≡ none
  unfolding save_product
  save_keeps now t p k gone =
      ground (arith, gone, T.products.find_one-save t (record p { updated_at = now }) k)

  stock_of-found :
      (t : T.products.Table) (i k : String) (p : ProductEntity)
      → T.products.find_one t i ≡ some p
      → i == k ≡ true
      → stock_of t k ≡ p.stock
  unfolding stock_of stock_in
  stock_of-found t i k p found same =
      subst (λ j. stock_in (T.products.find_one t j) ≡ p.stock) ((eq_iff i k).0 same)
        (rw (found, stock_in))

  take_conserves :
      (now : ℕ) (item : StockItem) (t : T.products.Table) (p : ProductEntity)
      → T.products.find_one t item.product_id ≡ some p
      → item.quantity ≤ p.stock
      → (k : String)
      → stock_of (save_product T now (record p { stock = p.stock - item.quantity }) t) k
          + requested (item ∷ []) k
        ≡ stock_of t k
  unfolding requested
  take_conserves now item t p found enough k =
      subst
        (λ i.
          stock_of (save_product T now (record p { stock = p.stock - item.quantity }) t) k
            + ((if i == k then item.quantity else 0) + 0)
          ≡ stock_of t k)
        (T.products.key-find_one t item.product_id p found)
        (elim (Bool-cases (p.id == k)) [
          | inl h ↦
              rw (stock_of-save now t (record p { stock = p.stock - item.quantity }) k, h)
                (omega (
                  arith,
                  enough,
                  stock_of-found t p.id k p
                      (subst (λ i. T.products.find_one t i ≡ some p)
                        (sym (T.products.key-find_one t item.product_id p found)) found)
                      h,
                ))
          | inr h ↦
              rw (stock_of-save now t (record p { stock = p.stock - item.quantity }) k, h)
                (omega arith)
        ])

  pub reserve_item_step :
      (now : ℕ) (item : StockItem) (t : T.products.Table)
      → ((r : ReservedItemResult) × (t' : T.products.Table) × (reserve_item T now item t
            ≡ (ok r, t'))
          × (quoted r ≡ item)
          × Takes (item ∷ []) t t'
          × IsPriced T t r
          × KeepsPrices T t t')
        ⊎ ((e : ProductError) × (reserve_item T now item t ≡ (err e, t)))
  unfolding reserved_item
  reserve_item_step now item t =
      let stored = λ (p : ProductEntity) (found : T.products.find_one t item.product_id ≡ some p).
        ap (T.products.find_one t) (T.products.key-find_one t item.product_id p found) ∙ found in
      elim (reserve_item-cases now item t) [
        | inr failed ↦ inr failed
        | inl (p, found, enough, runs) ↦ inl (
          reserved_item p item,
          save_product T now (record p { stock = p.stock - item.quantity }) t,
          runs,
          ap (λ i. record { product_id = i; quantity = item.quantity })
              (T.products.key-find_one t item.product_id p found),
          λ k. (
            take_conserves now item t p found enough k,
            save_keeps now t (record p { stock = p.stock - item.quantity }) k,
          ),
          (p, stored p found, refl, refl),
          save_product-KeepsPrices T now (p.stock - item.quantity) t p (stored p found),
        )
      ]

  -- A loop that ends has taken every item and quotes them all; one that throws has not.
  abbrev pub Finished :
      List StockItem
      → List StockItem
      → T.products.Table
      → Result ProductError (List ReservedItemResult)
      → Type 0
  Finished items rest t (ok rs) = (rest ≡ []) × (map quoted rs ≡ items) × All (IsPriced T t) rs
  Finished items rest t (err e) = rest ≢ []

  -- Some first items were taken, and no unit of any product was lost or made.
  abbrev pub Reserved :
      List StockItem
      → T.products.Table
      → Result ProductError (List ReservedItemResult) × T.products.Table
      → Type 0
  Reserved items t out =
      (taken : List StockItem) × (rest : List StockItem) × (items ≡ taken ++ rest)
      × Takes taken t out.1
      × Finished items rest t out.0

  prepend :
      (item : StockItem) (items : List StockItem) (t t' : T.products.Table) (r : ReservedItemResult)
      → quoted r ≡ item
      → Takes (item ∷ []) t t'
      → IsPriced T t r
      → KeepsPrices T t t'
      → (out : Result ProductError (List ReservedItemResult) × T.products.Table)
      → Reserved items t' out
      → Reserved (item ∷ items) t (continue out.0 (λ rs. pure (r ∷ rs)) out.1)
  unfolding requested
  prepend item items t t' r quotes takes price keeps (ok rs, t'')
        (taken, rest, splits, conserves, (ends, all, priced)) =
      (
        item ∷ taken,
        rest,
        ap (λ xs. item ∷ xs) splits,
        λ k. (
          omega (arith, (takes k).0, (conserves k).0),
          λ gone. (takes k).1 ((conserves k).1 gone),
        ),
        (ends, cc (quotes, all), (price, All-IsPriced T t t' rs keeps priced)),
      )
  prepend item items t t' r quotes takes price keeps (err e, t'')
        (taken, rest, splits, conserves, more) =
      (
        item ∷ taken,
        rest,
        ap (λ xs. item ∷ xs) splits,
        λ k. (
          omega (arith, (takes k).0, (conserves k).0),
          λ gone. (takes k).1 ((conserves k).1 gone),
        ),
        more,
      )

  pub reserve_each_prefix :
      (now : ℕ) (items : List StockItem) (t : T.products.Table)
      → Reserved items t (reserve_each T now items t)
  unfolding requested reserve_each
  reserve_each_prefix now [] t = ([], [], refl, λ k. (omega arith, λ gone. gone), (refl, refl, tt))
  reserve_each_prefix now (item ∷ items) t = elim (reserve_item_step now item t) [
    | inl (r, t', runs, quotes, takes, price, keeps) ↦ rw (runs) (
        prepend item items t t' r quotes takes price keeps (reserve_each T now items t')
          (reserve_each_prefix now items t'))
    | inr (e, fails) ↦
        rw (fails) ([], item ∷ items, refl, λ k. (omega arith, λ gone. gone), λ same. cc same)
  ]

  pub reserve_each_complete :
      (now : ℕ) (items : List StockItem) (t t' : T.products.Table) (rs : List ReservedItemResult)
      → reserve_each T now items t ≡ (ok rs, t')
      → Takes items t t' × (map quoted rs ≡ items)
  reserve_each_complete now items t t' rs runs =
      let (taken, rest, splits, takes, (ends, all, _)) =
        subst (Reserved items t) runs (reserve_each_prefix now items t) in
      (
        subst (λ xs. Takes xs t t') (sym (splits ∙ ap (λ r. taken ++ r) ends ∙ append-nil taken))
            takes,
        all,
      )
