-- ===== src/Product/Service/Release.antt =====
-- The compensation: what releasing adds to the stock of each product, and that it undoes reserving.
use shop_microservices.Prelude.{
  ℕ, ◌+◌, String, Bool, true, false, Option, none, some, List, [], ◌∷◌, if◌then◌else◌, ◌==◌, ◌≡◌,
  inl, inr, refl, sym, arith, Option-cases,
}
use shop_microservices.Shared.Messages.{StockItem}
use mathlib.Core.Option
use shop_microservices.Exec.{ok}
use shop_microservices.Product.Entity.{ProductEntity, ReservedItemResult, Tables}
use shop_microservices.Product.Service.{reserve_each, increment, release_each}
use shop_microservices.Product.Service.Stock.{
  Takes, stock_of-none, requested, stock_in, stock_of, reserve_each_complete,
}

unfoldable pub is_there : Option ProductEntity → Bool
is_there none = false
is_there (some p) = true

module _ (T : Tables) where
  find_one-increment :
      (now : ℕ) (item : StockItem) (t : T.products.Table) (k : String)
      → T.products.find_one (increment T now item t) k ≡ (
          if item.product_id == k
          then Option.map {A = ProductEntity}
              (λ p. record p { stock = p.stock + item.quantity; updated_at = now })
              (T.products.find_one t k)
          else T.products.find_one t k)
  unfolding increment
  find_one-increment now item t k =
      T.products.find_one-update t item.product_id
        (λ p. record p { stock = p.stock + item.quantity; updated_at = now }) (λ r. refl) k

  increment_adds :
      (now : ℕ) (item : StockItem) (t : T.products.Table) (k : String)
      → stock_of T (increment T now item t) k ≡ (
          if is_there (T.products.find_one t k)
          then stock_of T t k + requested (item ∷ []) k
          else 0)
  unfolding stock_of stock_in is_there requested
  increment_adds now item t k = rw (find_one-increment now item t k) (ground arith)

  increment_keeps :
      (now : ℕ) (item : StockItem) (t : T.products.Table) (k : String)
      → is_there (T.products.find_one (increment T now item t) k)
        ≡ is_there (T.products.find_one t k)
  unfolding is_there
  increment_keeps now item t k = rw (find_one-increment now item t k) (ground arith)

  pub release_each_adds :
      (now : ℕ) (items : List StockItem) (t : T.products.Table) (k : String)
      → stock_of T (release_each T now items t) k
        ≡ (if is_there (T.products.find_one t k) then stock_of T t k + requested items k else 0)
  unfolding stock_of stock_in is_there requested release_each
  release_each_adds now [] t k = ground arith
  release_each_adds now (item ∷ items) t k =
      rw (release_each_adds now items (increment T now item t) k, increment_keeps now item t k)
        (ground (arith, increment_adds now item t k))

  -- What was taken from the stock is there again once it is released.
  pub release_each_restores :
      (later : ℕ) (items : List StockItem) (t t' : T.products.Table)
      → Takes T items t t'
      → (k : String) → stock_of T (release_each T later items t') k ≡ stock_of T t k
  unfolding is_there
  release_each_restores later items t t' takes k =
      rw (release_each_adds later items t' k) (elim (Option-cases (T.products.find_one t' k)) [
        | inl gone ↦ rw gone (sym (stock_of-none T t k ((takes k).1 gone)))
        | inr (p, here) ↦ rw here (omega (arith, (takes k).0))
      ])

  -- Releasing the items of a reservation that went through restores the stock of every product, at
  -- whatever time it is done.
  pub reserve_each-release_each :
      (now later : ℕ) (items : List StockItem) (t t' : T.products.Table)
      (rs : List ReservedItemResult)
      → reserve_each T now items t ≡ (ok rs, t')
      → (k : String) → stock_of T (release_each T later items t') k ≡ stock_of T t k
  reserve_each-release_each now later items t t' rs runs =
      release_each_restores later items t t' (reserve_each_complete T now items t t' rs runs).0
