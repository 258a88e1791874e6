-- ===== src/Product/Tests.antt =====
-- Concurrent reads of a product, and pages of products.
use shop_microservices.Prelude.{◌≡◌, refl, none, some, [], ◌∷◌, ◌⊎◌}
use shop_microservices.Shared.Pages.{
  PaginationQuery, whole, page_of, limit_of, valid_or, is_page, is_limit,
}
use shop_microservices.Product.Controller.{handle_find_all}
use shop_microservices.Product.Controller.Listing.{Refused, Listed, handle_find_all-Listed}
use shop_microservices.Product.Service.Inflight.{
  call, settled, start, run, dedup, finish, get_promise,
}
use shop_microservices.Product.Service.Inflight.Sharing.{Shares, Only, Idle, dedup-Shares_always}
use shop_microservices.Product.Examples.{tables, cache, shop, cold}

-- Two readers of a product that is not cached, whose fetch has settled, and a third.
dedup-Shares_always_example :
    let s = run (call "product:p1" ∷ call "product:p1" ∷ settled 0 ∷ []) start in
    let out = dedup "product:p1" s in
    Shares "product:p1" s out.0 out.1
    × Only "product:p1" out.0 out.1
    × Idle "product:p1" (finish out.0 out.1)
    × (get_promise "product:p1" (finish out.0 out.1).entries ≡ none)
dedup-Shares_always_example =
    dedup-Shares_always (call "product:p1" ∷ call "product:p1" ∷ settled 0 ∷ []) "product:p1"

-- The first page with five products, the limit given as a parameter.
abbrev five : PaginationQuery
five = record { page = none; limit = some (whole 5) }

handle_find_all-Listed_example :
    Refused tables cache [] five (shop, cold) (handle_find_all tables cache [] five (shop, cold))
    ⊎ Listed tables cache five (shop, cold) (handle_find_all tables cache [] five (shop, cold))
handle_find_all-Listed_example = handle_find_all-Listed tables cache [] five (shop, cold)

-- There is no page 0, and no page of more than 100 products.
refused_pages :
    (page_of (record { page = some (whole 0); limit = none }) ≡ none)
    × (limit_of (record { page = none; limit = some (whole 101) }) ≡ none)
    × (limit_of (record { page = none; limit = none }) ≡ some 20)
unfolding page_of limit_of valid_or is_page is_limit
refused_pages = (refl, refl, refl)
