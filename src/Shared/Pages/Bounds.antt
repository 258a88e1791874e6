-- ===== src/Shared/Pages/Bounds.antt =====
-- What a page holds, and which queries get one.
use native.Mathlib.Nat.{mul-div-le, lt-mul-div-succ}
use native.Mathlib.Omega.{arith}
use shop_microservices.Prelude.{
  Option, zero, suc, some, leb, Bool-cases, ℕ, ◌+◌, ◌-◌, ◌*◌, ◌≤◌, ◌<◌, String, ◌≡◌, refl, none,
  List, length, ◌⊎◌, inl, inr,
}
use shop_microservices.Exec.{Exec, err}
use shop_microservices.Http.{Thrown, http}
use shop_microservices.Shared.Pages.{
  PageMeta, page_meta, PaginationQuery, QueryNumber, whole, other, is_page, is_limit, valid_or,
  page_of, limit_of, invalid_query, with_page,
}

-- A page holds at most as many entries as were asked for, and at most 100, and none beyond the total;
-- and the pages are as many as it takes to hold the total.
pub record Fits {A : Type 0} (page : List A) (meta : PageMeta) : Type 0 where
  pub first : 1 ≤ meta.page
  pub asked : length page ≤ meta.limit
  pub capped : meta.limit ≤ 100
  pub within : length page ≤ meta.total - (meta.page - 1) * meta.limit
  pub enough : meta.total ≤ meta.limit * meta.total_pages
  pub needed : meta.limit * meta.total_pages < meta.total + meta.limit

pub page_meta-Fits :
    {A : Type 0} (rows : List A) (page limit total : ℕ)
    → 1 ≤ page
    → 1 ≤ limit
    → limit ≤ 100
    → length rows ≤ limit
    → length rows ≤ total - (page - 1) * limit
    → Fits rows (page_meta page limit total)
unfolding page_meta
page_meta-Fits rows page limit total first some_limit capped asked within = record {
  first = first;
  asked = asked;
  capped = capped;
  within = within;
  enough = omega (arith, some_limit, lt-mul-div-succ (total + (limit - 1)) some_limit);
  needed = omega (arith, some_limit, mul-div-le (total + (limit - 1)) limit);
}

-- The page that the query asks for: a whole number from 1 on, or the first where it asks for none.
abbrev pub AsksPage : PaginationQuery → ℕ → Type 0
AsksPage query page =
    ((query.page ≡ none) × (page ≡ 1)) ⊎ ((query.page ≡ some (whole page)) × (1 ≤ page))

-- The limit that the query asks for: a whole number from 1 to 100, or 20 where it asks for none.
abbrev pub AsksLimit : PaginationQuery → ℕ → Type 0
AsksLimit query limit =
    ((query.limit ≡ none) × (limit ≡ 20))
    ⊎ ((query.limit ≡ some (whole limit)) × (1 ≤ limit) × (limit ≤ 100))

-- A parameter is there and is no such number.
abbrev pub IsMistaken : PaginationQuery → Type 0
IsMistaken query =
    ((query.page ≡ some other) ⊎ (query.page ≡ some (whole 0)))
    ⊎ ((query.limit ≡ some other)
        ⊎ ((n : ℕ) × (query.limit ≡ some (whole n)) × ((n ≡ 0) ⊎ (100 < n))))

page_value-cases :
    (value : Option QueryNumber)
    → ((valid_or is_page 1 value ≡ none) × ((value ≡ some other) ⊎ (value ≡ some (whole 0))))
      ⊎ ((page : ℕ) × (valid_or is_page 1 value ≡ some page)
          × (((value ≡ none) × (page ≡ 1)) ⊎ ((value ≡ some (whole page)) × (1 ≤ page))))
unfolding valid_or is_page
page_value-cases none = inr (1, refl, inl (refl, refl))
page_value-cases (some other) = inl (refl, inl refl)
page_value-cases (some (whole zero)) = inl (refl, inr refl)
page_value-cases (some (whole (suc n))) = inr (suc n, ground arith, inr (refl, omega arith))

limit_value-cases :
    (value : Option QueryNumber)
    → ((valid_or is_limit 20 value ≡ none)
        × ((value ≡ some other) ⊎ ((n : ℕ) × (value ≡ some (whole n)) × ((n ≡ 0) ⊎ (100 < n)))))
      ⊎ ((limit : ℕ) × (valid_or is_limit 20 value ≡ some limit)
          × (((value ≡ none) × (limit ≡ 20))
              ⊎ ((value ≡ some (whole limit)) × (1 ≤ limit) × (limit ≤ 100))))
unfolding valid_or is_limit
limit_value-cases none = inr (20, refl, inl (refl, refl))
limit_value-cases (some other) = inl (refl, inl refl)
limit_value-cases (some (whole zero)) = inl (refl, inr (0, refl, inl refl))
limit_value-cases (some (whole (suc n))) = elim (Bool-cases (leb (suc n) 100)) [
  | inl fits ↦ inr (suc n, ground (arith, fits), inr (refl, omega arith, ground (arith, fits)))
  | inr over ↦ inl (ground (arith, over), inr (suc n, refl, inr (ground (arith, over))))
]

AsksPage-bounds : (query : PaginationQuery) (page : ℕ) → AsksPage query page → 1 ≤ page
AsksPage-bounds query page (inl (absent, first)) = omega (arith, first)
AsksPage-bounds query page (inr (asked, least)) = least

AsksLimit-bounds :
    (query : PaginationQuery) (limit : ℕ) → AsksLimit query limit → (1 ≤ limit) × (limit ≤ 100)
AsksLimit-bounds query limit (inl (absent, twenty)) = (omega (arith, twenty), omega (arith, twenty))
AsksLimit-bounds query limit (inr (asked, least, most)) = (least, most)

-- A query is refused with 400, and nothing is done, where a parameter is not valid; or the handler
-- runs on valid ones.
pub with_page-cases :
    {E S A : Type 0} (messages : List String) (query : PaginationQuery)
    (handler : ℕ → ℕ → Exec (Thrown E) S A) (s : S)
    → ((with_page messages query handler s ≡ (err (http (invalid_query messages)), s))
        × IsMistaken query)
      ⊎ ((page : ℕ) × (limit : ℕ) × (with_page messages query handler s ≡ handler page limit s)
          × AsksPage query page
          × AsksLimit query limit
          × (1 ≤ page)
          × (1 ≤ limit)
          × (limit ≤ 100))
unfolding with_page page_of limit_of
with_page-cases messages query handler s = elim (page_value-cases query.page) [
  | inl (bad, why) ↦ inl (rw (with_page, bad) refl, inl why)
  | inr (page, good, asked_page) ↦ elim (limit_value-cases query.limit) [
    | inl (bad, why) ↦ inl (rw (with_page, good, bad) refl, inr why)
    | inr (limit, fine, asked_limit) ↦
        let (least, most) = AsksLimit-bounds query limit asked_limit in
        inr (
          page,
          limit,
          rw (with_page, good, fine) refl,
          asked_page,
          asked_limit,
          AsksPage-bounds query page asked_page,
          least,
          most,
        )
  ]
]
