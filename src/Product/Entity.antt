-- ===== src/Product/Entity.antt =====
-- product.entity.ts, products.inputs.ts, products.outputs.ts and
-- products.errors.ts. Prices are in cents. The tables are parameters; the Redis cache is one too.
use Prim.Native.String.{◌++◌ as ◌++ₛ◌}
use shop_microservices.Prelude.{ℕ, String, ◌≡◌, ◌≢◌, Bool, Option, some}
use shop_microservices.Prelude.Decimal.{show_number}
use shop_microservices.Shared.Messages.{OrderCreatedEventItem}
use shop_microservices.Repository.{Repository}
use shop_microservices.Idempotency.{IdempotencyRepository}
use shop_microservices.Outbox.{OutboxRepository}

pub record ProductEntity : Type 0 where
  pub id : String
  pub name : String
  pub description : Option String
  pub price : ℕ
  pub stock : ℕ
  pub is_active : Bool
  pub created_at : ℕ
  pub updated_at : ℕ

pub record CreateProductInput : Type 0 where
  pub name : String
  pub description : Option String
  pub price : ℕ
  pub stock : ℕ

-- A field that the request leaves out is `none`.
pub record UpdateProductInput : Type 0 where
  pub name : Option String
  pub description : Option String
  pub price : Option ℕ
  pub stock : Option ℕ

pub record ProductResult : Type 0 where
  pub id : String
  pub name : String
  pub description : Option String
  pub price : ℕ
  pub stock : ℕ
  pub is_active : Bool
  pub created_at : ℕ
  pub updated_at : ℕ

-- The same fields as an item of the stock-reserved event.
abbrev pub ReservedItemResult : Type 0
ReservedItemResult = OrderCreatedEventItem

pub data ProductError : Type 0 where
  product_not_found : String → ProductError
  -- product, requested, available
  insufficient_stock : String → ℕ → ℕ → ProductError

unfoldable pub error_message : ProductError → String
error_message (product_not_found id) = "Product " ++ₛ (id ++ₛ " not found")
error_message (insufficient_stock id requested available) =
    "Insufficient stock for product "
    ++ₛ (id
        ++ₛ (": requested "
            ++ₛ (show_number requested ++ₛ (", available " ++ₛ show_number available))))

abbrev pub product_key : ProductEntity → String
product_key r = r.id

-- products_db
pub record Tables : Type 1 where
  pub products : Repository ProductEntity product_key
  pub keys : IdempotencyRepository
  pub outbox : OutboxRepository

pub record Db (T : Tables) : Type 0 where
  pub products : T.products.Table
  pub keys : T.keys.Table
  pub outbox : T.outbox.Table

-- What `cache.get` gives: Redis may be down.
pub data CacheReply : Type 0 where
  unavailable miss : CacheReply
  hit : ProductResult → CacheReply

-- The cache behind cache-manager. `none` is a call that throws.
pub record Cache : Type 1 where
  pub Store : Type 0
  pub get : Store → String → CacheReply
  pub set : Store → String → ProductResult → ℕ → Option Store
  pub del : Store → String → Option Store
  pub get-del :
      (s s' : Store) (k : String) (v : ProductResult) → del s k ≡ some s' → get s' k ≢ hit v
  pub get-del-other :
      (s s' : Store) (k k' : String) (v : ProductResult)
      → del s k ≡ some s'
      → get s' k' ≡ hit v
      → get s k' ≡ hit v
