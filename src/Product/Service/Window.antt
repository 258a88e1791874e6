-- ===== src/Product/Service/Window.antt =====
-- `reserveStock` in the caller's transaction, and a reader between its two halves: it evicts the
-- cache before it writes, and the writes are committed later.
use shop_microservices.Prelude.{
  ℕ, String, none, some, List, contains, ◌≡◌, ◌≢◌, refl, true, ◌⊎◌, inl, inr,
}
use shop_microservices.Shared.Messages.{StockItem}
use shop_microservices.Exec.{Result, ok, ◌>>=◌, ◌>>◌, pure}
use shop_microservices.Product.Entity.{
  ProductEntity, ProductResult, ReservedItemResult, ProductError, Tables, Db, Cache, CacheReply,
}
use shop_microservices.Product.Service.{
  key_one, to_result, cache_ttl_one, cache_get, cache_set, cache_del, find_active, reserve_each,
  evict, find_by_id, on_products,
}
use shop_microservices.Product.Service.Stock.{Takes, reserve_each_complete}
use shop_microservices.Product.Service.Own.{IsReachable, cache_keys, cache_del_evicts}

-- Redis takes an entry and has it until it expires.
abbrev pub Keeps : Cache → Type 0
Keeps C =
    (c : C.Store) (k : String) (v : ProductResult) (ttl : ℕ)
    → (c' : C.Store) × (C.set c k v ttl ≡ some c') × (C.get c' k ≡ CacheReply.hit v)

module _ (C : Cache) where
  cache_get-cases :
      (c : C.Store) (k : String)
      → (cache_get C c k ≡ none) ⊎ ((v : ProductResult) × (C.get c k ≡ CacheReply.hit v))
  unfolding cache_get
  cache_get-cases c k = go (C.get c k) refl
    where
      go :
          (r : CacheReply)
          → C.get c k ≡ r
          → (cache_get C c k ≡ none) ⊎ ((v : ProductResult) × (C.get c k ≡ CacheReply.hit v))
      go CacheReply.unavailable e = inl (rw (cache_get, e))
      go CacheReply.miss e = inl (rw (cache_get, e))
      go (CacheReply.hit v) e = inr (v, e)

  cache_get-absent :
      (c : C.Store) (k : String)
      → ((v : ProductResult) → C.get c k ≢ CacheReply.hit v)
      → cache_get C c k ≡ none
  cache_get-absent c k absent = elim (cache_get-cases c k) [
    | inl missed ↦ missed
    | inr (v, found) ↦ absurd (absent v found)
  ]

  -- An entry that was written is read.
  cache_get-cache_set :
      (c : C.Store) (k : String) (v : ProductResult) (ttl : ℕ)
      → Keeps C
      → cache_get C (cache_set C k v ttl c) k ≡ some v
  unfolding cache_get cache_set
  cache_get-cache_set c k v ttl keeps =
      let (c', written, found) = keeps c k v ttl in rw (cache_get, cache_set, written, found)

module _ (T : Tables) (C : Cache) (now : ℕ) (items : List StockItem) where
  -- The two halves of the reservation with a reader between them, who sees the committed rows. The
  -- result is what the reader got.
  abbrev pub reserve_with_reader :
      String → Db T × C.Store → Result ProductError ProductResult × (Db T × C.Store)
  reserve_with_reader id = evict T C items >> find_by_id T C id >>= λ seen.
      on_products T C (reserve_each T now items) >> pure seen

module _ (T : Tables) (C : Cache) where
  find_by_id-missed :
      (id : String) (db : Db T) (c : C.Store) (p : ProductEntity)
      → cache_get C c (key_one id) ≡ none
      → find_active T db.products id ≡ some p
      → find_by_id T C id (db, c)
        ≡ (ok (to_result p), (db, cache_set C (key_one id) (to_result p) cache_ttl_one c))
  unfolding find_by_id
  find_by_id-missed id db c p missed found = rw (find_by_id, missed, found)

  find_by_id-cached :
      (id : String) (db : Db T) (c : C.Store) (v : ProductResult)
      → cache_get C c (key_one id) ≡ some v
      → find_by_id T C id (db, c) ≡ (ok v, (db, c))
  unfolding find_by_id
  find_by_id-cached id db c v cached = rw (find_by_id, cached)

  -- The reservation went through and took its units, and yet the product is read as it was before.
  abbrev pub Stale : ℕ → List StockItem → String → ProductEntity → Db T → C.Store → Type 0
  Stale now items id p db c =
      let after = (reserve_with_reader T C now items id (db, c)).1 in
      ((reserve_with_reader T C now items id (db, c)).0 ≡ ok (to_result p))
      × Takes T items db.products after.0.products
      × (find_by_id T C id after ≡ (ok (to_result p), after))

  -- When somebody reads a reserved product after the reservation has evicted it and before it writes,
  -- and the reservation then goes through, every later read shows the stock from before the
  -- reservation until the cache entry expires, although the units are taken. It asks for a cache that
  -- answers deletions and keeps what is written.
  pub reserve_stock_repopulated :
      (now : ℕ) (items : List StockItem) (id : String) (p : ProductEntity) (db : Db T) (c : C.Store)
      (t' : T.products.Table) (rs : List ReservedItemResult)
      → IsReachable C
      → Keeps C
      → contains (key_one id) (cache_keys items) ≡ true
      → find_active T db.products id ≡ some p
      → reserve_each T now items db.products ≡ (ok rs, t')
      → Stale now items id p db c
  unfolding evict
  reserve_stock_repopulated now items id p db c t' rs reach keeps listed found runs =
      let c1 = cache_del C (cache_keys items) c in
      let missed =
        cache_get-absent C c1 (key_one id)
          (λ v. cache_del_evicts C reach (cache_keys items) c (key_one id) v listed) in
      let c2 = cache_set C (key_one id) (to_result p) cache_ttl_one c1 in
      let after : Db T × C.Store = (record db { products = t' }, c2) in
      let ran : reserve_with_reader T C now items id (db, c) ≡ (ok (to_result p), after) =
        rw (reserve_with_reader, find_by_id-missed id db c1 p missed found, runs) in
      rw ran (
        refl,
        (reserve_each_complete T now items db.products t' rs runs).0,
        find_by_id-cached id (record db { products = t' }) c2 (to_result p)
            (cache_get-cache_set C c1 (key_one id) (to_result p) cache_ttl_one keeps),
      )
