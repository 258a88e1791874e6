-- ===== src/Product/Controller/Listing.antt =====
-- The list of products that a query gets.
use shop_microservices.Prelude.{
  ℕ, ◌≤◌, ◌-◌, ◌*◌, String, ◌≡◌, refl, true, some, List, map, length-map, All, All-map, ◌⊎◌, inl,
  inr, subst, sym, arith,
}
use shop_microservices.Exec.{Result, ok, err}
use shop_microservices.Http.{Thrown, http, unhandled, call}
use shop_microservices.Shared.Pages.{PageMeta, page_meta, PaginationQuery, invalid_query}
use shop_microservices.Shared.Pages.Bounds.{
  AsksPage, AsksLimit, IsMistaken, Fits, page_meta-Fits, with_page-cases,
}
use shop_microservices.Product.Entity.{
  ProductEntity, ProductResult, ProductError, Tables, Db, Cache,
}
use shop_microservices.Product.Service.{to_result, find_all}
use shop_microservices.Product.Controller.{handle_find_all}

module _ (T : Tables) (C : Cache) where
  -- The entry is an active product as it is stored.
  abbrev pub IsListed : Db T → ProductResult → Type 0
  IsListed db r =
      (p : ProductEntity) × (T.products.find_one db.products p.id ≡ some p)
      × (p.is_active ≡ true)
      × (r ≡ to_result p)

  abbrev pub Refused :
      List String
      → PaginationQuery
      → Db T × C.Store
      → Result (Thrown ProductError) (List ProductResult × PageMeta) × (Db T × C.Store)
      → Type 0
  Refused messages query s out = (out ≡ (err (http (invalid_query messages)), s)) × IsMistaken query

  abbrev pub Listed :
      PaginationQuery
      → Db T × C.Store
      → Result (Thrown ProductError) (List ProductResult × PageMeta) × (Db T × C.Store)
      → Type 0
  Listed query s out =
      (rows : List ProductResult) × (meta : PageMeta) × (out ≡ (ok (rows, meta), s))
      × AsksPage query meta.page
      × AsksLimit query meta.limit
      × Fits rows meta
      × All (IsListed s.0) rows

  find_all-Listed :
      (query : PaginationQuery) (page limit : ℕ) (s : Db T × C.Store)
      → AsksPage query page
      → AsksLimit query limit
      → 1 ≤ page
      → 1 ≤ limit
      → limit ≤ 100
      → Listed query s (call unhandled (find_all T C page limit) s)
  unfolding find_all page_meta
  find_all-Listed query page limit s asked_page asked_limit first least most =
      let found =
        T.products.find_and_count s.0.products (λ p. p.is_active) ((page - 1) * limit) limit in
      let (few, left) =
        T.products.length-find_and_count s.0.products (λ p. p.is_active) ((page - 1) * limit)
          limit in
      let same = length-map to_result found.0 in
      (
        map to_result found.0,
        page_meta page limit found.1,
        refl,
        asked_page,
        asked_limit,
        page_meta-Fits (map to_result found.0) page limit found.1 first least most
            (omega (arith, same, few)) (omega (arith, same, left)),
        All-map
            (λ (p : ProductEntity).
              (p.is_active ≡ true) × (T.products.find_one s.0.products p.id ≡ some p))
            (IsListed s.0) to_result (λ p h. (p, h.1, h.0, refl)) found.0
            (T.products.find_and_count_sound s.0.products (λ p. p.is_active) ((page - 1) * limit)
              limit),
      )

  -- A query for products is answered with 400, and nothing changes, where it gives a page that is not
  -- a whole number from 1 on or a limit that is not one from 1 to 100; or it is answered with a page.
  -- The page then has the number that was asked for, or 1 where none was, and the limit that was
  -- asked for, or 20 where none was, so that it is from 1 on and the limit from 1 to 100; it
  -- holds at most that many products and none beyond the total, each an active product as it is
  -- stored; and the number of pages is the least that holds the total.
  pub handle_find_all-Listed :
      (messages : List String) (query : PaginationQuery) (s : Db T × C.Store)
      → Refused messages query s (handle_find_all T C messages query s)
        ⊎ Listed query s (handle_find_all T C messages query s)
  unfolding handle_find_all
  handle_find_all-Listed messages query s =
      elim (with_page-cases messages query (λ page limit. call unhandled (find_all T C page limit))
        s) [
          | inl refused ↦ inl refused
          | inr (page, limit, runs, asked_page, asked_limit, first, least, most) ↦ inr (
              subst (Listed query s) (sym runs)
                (find_all-Listed query page limit s asked_page asked_limit first least most))
        ]
