-- ===== src/Product/Service/Own.antt =====
-- `reserveStock` in its own transaction: all or nothing, and the cache entries go.
use shop_microservices.Prelude.{
  ◌∙◌, ℕ, ◌==◌, String, List, [], ◌∷◌, map, contains, ◌≡◌, ◌≢◌, ◌⊎◌, refl, sym, ap, subst, inl, inr,
  some, true, eq_iff, Bool-cases, arith,
}
use shop_microservices.Shared.Messages.{StockItem}
use shop_microservices.Exec.{
  settled_beside, ◌>>◌, Result, ok, err, continue, pure, DataSourceBeside,
}
use shop_microservices.Product.Entity.{
  ProductResult, ReservedItemResult, ProductError, Tables, Db, Cache, CacheReply,
}
use shop_microservices.Product.Service.{
  key_one, cache_del, reserve_each, evict, reserve_stock_own, or_else,
}
use shop_microservices.Product.Service.Stock.{quoted, Takes, reserve_each_complete}

abbrev pub cache_keys : List StockItem → List String
cache_keys items = map (λ i. key_one i.product_id) items

-- Redis answers every deletion.
abbrev pub IsReachable : Cache → Type 0
IsReachable C = (c : C.Store) (k : String) → (c' : C.Store) × (C.del c k ≡ some c')

module _ (C : Cache) (reach : IsReachable C) where
  cache_del_step :
      (ks : List String) (c : C.Store) (j k : String) (v : ProductResult)
      → C.get c k ≢ CacheReply.hit v
      → C.get (or_else (C.del c j) c) k ≢ CacheReply.hit v
  cache_del_step ks c j k v absent found =
      let (c', deletes) = reach c j in
      absent (
        C.get-del-other c c' j k v deletes
          (subst (λ o. C.get (or_else o c) k ≡ CacheReply.hit v) deletes found))

  cache_del_keeps :
      (ks : List String) (c : C.Store) (k : String) (v : ProductResult)
      → C.get c k ≢ CacheReply.hit v
      → C.get (cache_del C ks c) k ≢ CacheReply.hit v
  unfolding cache_del
  cache_del_keeps [] c k v absent = absent
  cache_del_keeps (j ∷ ks) c k v absent =
      cache_del_keeps ks (or_else (C.del c j) c) k v (cache_del_step ks c j k v absent)

  pub cache_del_evicts :
      (ks : List String) (c : C.Store) (k : String) (v : ProductResult)
      → contains k ks ≡ true
      → C.get (cache_del C ks c) k ≢ CacheReply.hit v
  unfolding cache_del
  cache_del_evicts [] c k v listed = cc listed
  cache_del_evicts (j ∷ ks) c k v listed = elim (Bool-cases (j == k)) [
    | inl same ↦
        let (c', deletes) = reach c j in
        cache_del_keeps ks (or_else (C.del c j) c) k v (λ found. C.get-del c c' j v deletes (
          subst (λ i. C.get c' i ≡ CacheReply.hit v) (sym ((eq_iff j k).0 same))
            (subst (λ o. C.get (or_else o c) k ≡ CacheReply.hit v) deletes found)))
    | inr other ↦ cache_del_evicts ks (or_else (C.del c j) c) k v (ground (arith, listed, other))
  ]

module _ (T : Tables) (C : Cache) where
  -- What the caller sees of an outcome of the loop.
  abbrev own_result :
      List StockItem
      → Db T
      → C.Store
      → Result ProductError (List ReservedItemResult) × T.products.Table
      → Result ProductError (List ReservedItemResult) × (Db T × C.Store)
  own_result items db c (ok rs, t) =
      (ok rs, (record db { products = t }, cache_del C (cache_keys items) c))
  own_result items db c (err e, t) = (err e, (db, c))

  settles :
      (items : List StockItem) (db : Db T) (c : C.Store)
      (out : Result ProductError (List ReservedItemResult) × T.products.Table)
      → continue
          (settled_beside db (out.0, (record db { products = out.1 }, c))).0
          (λ result. evict T C items >> pure result)
          (settled_beside db (out.0, (record db { products = out.1 }, c))).1
        ≡ own_result items db c out
  unfolding evict
  settles items db c (ok rs, t) = refl
  settles items db c (err e, t) = refl

  evicted :
      (items : List StockItem) (db db' : Db T) (c c' : C.Store) (rs : List ReservedItemResult)
      → IsReachable C
      → (out : Result ProductError (List ReservedItemResult) × T.products.Table)
      → own_result items db c out ≡ (ok rs, (db', c'))
      → (k : String) (v : ProductResult) → contains k (cache_keys items) ≡ true
      → C.get c' k ≢ CacheReply.hit v
  evicted items db db' c c' rs reach (ok rs', t) runs k v listed =
      subst (λ s. C.get s k ≢ CacheReply.hit v) (ap (λ o. o.1.1) runs)
        (cache_del_evicts C reach (cache_keys items) c k v listed)
  evicted items db db' c c' rs reach (err e, t) runs k v listed = cc runs

  -- Every item is reserved, or the error comes back and nothing has changed.
  abbrev pub AllOrNothing :
      List StockItem
      → Db T
      → C.Store
      → Result ProductError (List ReservedItemResult) × (Db T × C.Store)
      → Type 0
  AllOrNothing items db c out =
      ((rs : List ReservedItemResult) × (out.0 ≡ ok rs)
        × (map quoted rs ≡ items)
        × Takes T items db.products out.1.0.products)
      ⊎ ((e : ProductError) × (out ≡ (err e, (db, c))))

module _ (T : Tables) (C : Cache) (D : DataSourceBeside ProductError (Db T) C.Store) where
  reserve_stock_own_lem :
      (now : ℕ) (items : List StockItem) (db : Db T) (c : C.Store)
      → reserve_stock_own T C D now items (db, c)
        ≡ own_result T C items db c (reserve_each T now items db.products)
  unfolding reserve_stock_own
  reserve_stock_own_lem now items db c =
      rw (D.transaction_lem) (settles T C items db c (reserve_each T now items db.products))

  all_or_nothing :
      (now : ℕ) (items : List StockItem) (db : Db T) (c : C.Store)
      (out : Result ProductError (List ReservedItemResult) × T.products.Table)
      → reserve_each T now items db.products ≡ out
      → AllOrNothing T C items db c (own_result T C items db c out)
  all_or_nothing now items db c (ok rs, t) runs =
      let (takes, all) = reserve_each_complete T now items db.products t rs runs in
      inl (rs, refl, all, takes)
  all_or_nothing now items db c (err e, t) runs = inr (e, refl)

  -- A reservation in its own transaction is all or nothing: every item is taken and quoted in the
  -- result, or the error comes back and neither database nor cache has changed.
  pub reserve_stock_own_atomic :
      (now : ℕ) (items : List StockItem) (db : Db T) (c : C.Store)
      → AllOrNothing T C items db c (reserve_stock_own T C D now items (db, c))
  reserve_stock_own_atomic now items db c =
      subst (AllOrNothing T C items db c) (sym (reserve_stock_own_lem now items db c))
        (all_or_nothing now items db c (reserve_each T now items db.products) refl)

  -- After a reservation in its own transaction went through, with a cache that answers every
  -- deletion, no cached copy of a reserved product is left.
  pub reserve_stock_own_evicts :
      (now : ℕ) (items : List StockItem) (db db' : Db T) (c c' : C.Store)
      (rs : List ReservedItemResult)
      → IsReachable C
      → reserve_stock_own T C D now items (db, c) ≡ (ok rs, (db', c'))
      → (k : String) (v : ProductResult) → contains k (cache_keys items) ≡ true
      → C.get c' k ≢ CacheReply.hit v
  reserve_stock_own_evicts now items db db' c c' rs reach runs k v listed =
      evicted T C items db db' c c' rs reach (reserve_each T now items db.products)
        (sym (reserve_stock_own_lem now items db c) ∙ runs) k v listed
