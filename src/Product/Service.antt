-- ===== src/Product/Service.antt =====
-- products.service.ts. A call without a manager runs its own transaction. A miss of `find_by_id` is
-- fetched under `dedup`, which does not change what a single call returns; how it merges concurrent
-- calls is in Inflight.
pub mod Prices
pub mod Stock
pub mod Release
pub mod Failure
pub mod Own
pub mod Window
pub mod Inflight
use Prim.Native.String.{◌++◌ as ◌++ₛ◌}
use shop_microservices.Prelude.{
  ℕ, ◌+◌, ◌-◌, ◌*◌, String, Bool, true, false, Option, none, some, List, [], ◌∷◌, map,
  if◌then◌else◌, ltb,
}
use shop_microservices.Shared.Pages.{PageMeta, page_meta}
use shop_microservices.Shared.Messages.{StockItem}
use shop_microservices.Exec.{
  Exec, ok, err, DataSourceBeside, pure, throw, gets, or_throw, modify, ◌>>=◌, ◌>>◌,
}
use shop_microservices.Product.Entity.{
  ProductEntity, CreateProductInput, UpdateProductInput, ProductResult, ReservedItemResult,
  ProductError, product_not_found, insufficient_stock, Tables, Db, CacheReply, Cache,
}

-- 10 min
abbrev pub cache_ttl_one : ℕ
cache_ttl_one = 600000

unfoldable pub key_one : String → String
key_one id = "product:" ++ₛ id

unfoldable pub to_result : ProductEntity → ProductResult
to_result p = record {
  id = p.id;
  name = p.name;
  description = p.description;
  price = p.price;
  stock = p.stock;
  is_active = p.is_active;
  created_at = p.created_at;
  updated_at = p.updated_at;
}

-- A row that `create` inserts, under the column defaults.
unfoldable pub new_product : String → ℕ → CreateProductInput → ProductEntity
new_product id now input = record {
  id = id;
  name = input.name;
  description = input.description;
  price = input.price;
  stock = input.stock;
  is_active = true;
  created_at = now;
  updated_at = now;
}

-- `value ?? other`
abbrev pub or_else {ℓ} : {A : Type ℓ} → Option A → A → A
or_else none a = a
or_else (some b) a = b

-- `Object.assign(product, defined)`
unfoldable pub assign : UpdateProductInput → ProductEntity → ProductEntity
assign input p = record p {
  name = or_else input.name p.name;
  description = elim input.description [ none ↦ p.description | some d ↦ some d ];
  price = or_else input.price p.price;
  stock = or_else input.stock p.stock;
}

unfoldable pub reserved_item : ProductEntity → StockItem → ReservedItemResult
reserved_item p item = record {
  product_id = p.id;
  name = p.name;
  quantity = item.quantity;
  unit_price = p.price;
}

module _ (C : Cache) where
  -- The three calls swallow what the cache throws.
  unfoldable pub cache_get : C.Store → String → Option ProductResult
  cache_get c key = elim (C.get c key) [
    | CacheReply.unavailable ↦ none
    | CacheReply.miss ↦ none
    | CacheReply.hit v ↦ some v
  ]

  unfoldable pub cache_set : String → ProductResult → ℕ → C.Store → C.Store
  cache_set key value ttl c = or_else (C.set c key value ttl) c

  -- All deletions are started, whichever of them fail.
  unfoldable pub cache_del : List String → C.Store → C.Store
  cache_del [] c = c
  cache_del (k ∷ ks) c = cache_del ks (or_else (C.del c k) c)

module _ (T : Tables) where
  unfoldable pub save_product : ℕ → ProductEntity → T.products.Table → T.products.Table
  save_product now p t = T.products.save t (record p { updated_at = now })

  -- `findOne({ where: { id, isActive: true } })`
  unfoldable pub find_active : T.products.Table → String → Option ProductEntity
  find_active t id = elim (T.products.find_one t id) [
    | none ↦ none
    | some p ↦ if p.is_active then some p else none
  ]

  -- One turn of the loop in `reserveStock`.
  unfoldable pub reserve_item :
      ℕ → StockItem → Exec ProductError T.products.Table ReservedItemResult
  unfolding save_product find_active reserved_item
  reserve_item now item t = elim (find_active t item.product_id) [
    | none ↦ throw (product_not_found item.product_id) t
    | some p ↦
        if ltb p.stock item.quantity
        then throw (insufficient_stock item.product_id item.quantity p.stock) t
        else pure (reserved_item p item)
            (save_product now (record p { stock = p.stock - item.quantity }) t)
  ]

  unfoldable pub reserve_each :
      ℕ → List StockItem → Exec ProductError T.products.Table (List ReservedItemResult)
  unfolding reserve_item
  reserve_each now [] = pure []
  reserve_each now (item ∷ items) =
      reserve_item now item >>= λ r. reserve_each now items >>= λ rs. pure (r ∷ rs)

  -- `repo.increment({ id }, 'stock', quantity)`
  unfoldable pub increment : ℕ → StockItem → T.products.Table → T.products.Table
  increment now item t =
      T.products.update t item.product_id
        (λ p. record p { stock = p.stock + item.quantity; updated_at = now })

  unfoldable pub release_each : ℕ → List StockItem → T.products.Table → T.products.Table
  unfolding increment
  release_each now [] t = t
  release_each now (item ∷ items) t = release_each now items (increment now item t)

module _ (T : Tables) (C : Cache) where
  abbrev pub Action : Type 0 → Type 0
  Action A = Exec ProductError (Db T × C.Store) A

  abbrev pub on_products : {A : Type 0} → Exec ProductError T.products.Table A → Action A
  on_products m (db, c) = ((m db.products).0, (record db { products = (m db.products).1 }, c))

  abbrev pub on_cache : (C.Store → C.Store) → Action (Unit {0})
  on_cache f = modify λ s. (s.0, f s.1)

  unfoldable pub evict : List StockItem → Action (Unit {0})
  unfolding cache_del key_one
  evict items = on_cache (cache_del C (map (λ i. key_one i.product_id) items))

  -- `reserveStock(input, manager)`
  unfoldable pub reserve_stock : ℕ → List StockItem → Action (List ReservedItemResult)
  unfolding reserve_each evict
  reserve_stock now items = evict items >> on_products (reserve_each T now items)

  -- `reserveStock(input)`
  unfoldable pub reserve_stock_own :
      DataSourceBeside ProductError (Db T) C.Store
      → ℕ
      → List StockItem
      → Action (List ReservedItemResult)
  unfolding reserve_each evict
  reserve_stock_own D now items =
      D.transaction (List ReservedItemResult) (on_products (reserve_each T now items)) >>= λ result.
      evict items >> pure result

  unfoldable pub release_stock : ℕ → List StockItem → Action (Unit {0})
  unfolding release_each evict
  release_stock now items =
      evict items
      >> modify λ s. (record (s.0) { products = release_each T now items s.0.products }, s.1)

  -- `findById`
  unfoldable pub find_by_id : String → Action ProductResult
  unfolding key_one cache_get cache_set find_active to_result
  find_by_id id s = elim (cache_get C s.1 (key_one id)) [
    | some cached ↦ pure cached s
    | none ↦ elim (find_active T s.0.products id) [
      | none ↦ throw (product_not_found id) s
      | some p ↦ pure (to_result p) (s.0, cache_set C (key_one id) (to_result p) cache_ttl_one s.1)
    ]
  ]

  -- `findAll`
  unfoldable pub find_all : ℕ → ℕ → Action (List ProductResult × PageMeta)
  unfolding to_result page_meta
  find_all page limit = gets λ s.
      let found =
        T.products.find_and_count s.0.products (λ p. p.is_active) ((page - 1) * limit) limit in
      (map to_result found.0, page_meta page limit found.1)

  unfoldable pub create : ℕ → CreateProductInput → Action ProductResult
  unfolding new_product to_result
  create now input s =
      let row = new_product (T.products.generate s.0.products) now input in
      pure (to_result row) (record (s.0) { products = T.products.save s.0.products row }, s.1)

  unfoldable pub update : ℕ → String → UpdateProductInput → Action ProductResult
  unfolding find_active assign save_product to_result cache_del key_one
  update now id input = gets (λ s. find_active T s.0.products id) >>= λ found.
      or_throw found (product_not_found id) >>= λ p.
      modify
        (λ s. (record (s.0) { products = save_product T now (assign input p) s.0.products }, s.1))
      >> on_cache (cache_del C (key_one id ∷ []))
      >> pure (to_result (record (assign input p) { updated_at = now }))

  unfoldable pub remove : ℕ → String → Action (Unit {0})
  unfolding find_active save_product cache_del key_one
  remove now id = gets (λ s. find_active T s.0.products id) >>= λ found.
      or_throw found (product_not_found id) >>= λ p.
      modify (λ s. (
        record (s.0) {
          products = save_product T now (record p { is_active = false }) s.0.products;
        },
        s.1,
      ))
      >> on_cache (cache_del C (key_one id ∷ []))
