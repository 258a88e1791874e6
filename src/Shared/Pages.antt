-- ===== src/Shared/Pages.antt =====
-- `PaginationMeta` of packages/shared/src/interfaces, as the list queries fill it, and the query
-- that asks for a page: `PaginationQueryDto` of product-, user- and order-service, which is the
-- same in all three, behind the ValidationPipe of their main.ts.
pub mod Bounds
use shop_microservices.Prelude.{
  ℕ, ◌+◌, ◌-◌, ◌/◌, String, Bool, false, ◌&&◌, Option, none, some, List, leb, if◌then◌else◌,
}
use shop_microservices.Exec.{Exec, throw}
use shop_microservices.Http.{HttpException, Thrown, http, Json, many}

pub record PageMeta : Type 0 where
  pub page : ℕ
  pub limit : ℕ
  pub total : ℕ
  pub total_pages : ℕ

-- `{ page, limit, total, totalPages: Math.ceil(total / limit) }`, where a valid limit is at least 1
unfoldable pub page_meta : ℕ → ℕ → ℕ → PageMeta
page_meta page limit total = record {
  page = page;
  limit = limit;
  total = total;
  total_pages = (total + (limit - 1)) / limit;
}

-- What `Number` makes of a parameter: a natural number, or a negative number, a fraction, an infinity
-- or NaN.
pub data QueryNumber : Type 0 where
  whole : ℕ → QueryNumber
  other : QueryNumber

-- The parameters of the query, where they are there.
pub record PaginationQuery : Type 0 where
  pub page : Option QueryNumber
  pub limit : Option QueryNumber

-- `@IsInt() @Min(1)`
unfoldable pub is_page : QueryNumber → Bool
is_page (whole n) = leb 1 n
is_page other = false

-- `@IsInt() @Min(1) @Max(100)`
unfoldable pub is_limit : QueryNumber → Bool
is_limit (whole n) = leb 1 n && leb n 100
is_limit other = false

-- `@IsOptional()`: a parameter that is absent keeps the default and is not checked.
unfoldable pub valid_or : (QueryNumber → Bool) → ℕ → Option QueryNumber → Option ℕ
valid_or check default none = some default
valid_or check default (some other) = none
valid_or check default (some (whole n)) = if check (whole n) then some n else none

unfoldable pub page_of : PaginationQuery → Option ℕ
unfolding is_page valid_or
page_of query = valid_or is_page 1 query.page

unfoldable pub limit_of : PaginationQuery → Option ℕ
unfolding is_limit valid_or
limit_of query = valid_or is_limit 20 query.limit

-- The exception of the ValidationPipe, with the messages of class-validator.
abbrev pub invalid_query : List String → HttpException
invalid_query messages = record {
  status = 400;
  response = Json.with_message (many messages);
  message = "Bad Request Exception";
}

-- A handler that takes the query; it is not called where the query is refused.
module _ {E S A : Type 0} where
  unfoldable pub with_page :
      List String → PaginationQuery → (ℕ → ℕ → Exec (Thrown E) S A) → Exec (Thrown E) S A
  unfolding page_of limit_of
  with_page messages query handler s = elim (page_of query) [
    | none ↦ throw (http (invalid_query messages)) s
    | some page ↦ elim (limit_of query) [
      | none ↦ throw (http (invalid_query messages)) s
      | some limit ↦ handler page limit s
    ]
  ]
