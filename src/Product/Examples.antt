-- ===== src/Product/Examples.antt =====
-- The theorems about the stock on a small catalogue: five mugs and one plate.
use shop_microservices.Prelude.{
  ℕ, String, ◌==◌, ◌≡◌, ◌≢◌, refl, ap, none, some, List, [], ◌∷◌, true, false, eq_refl, Bool, ◌∙◌,
  if◌then◌else◌,
}
use shop_microservices.Exec.{ok, err, DataSourceBeside, settled_beside}
use shop_microservices.Repository.Memory.{memory}
use shop_microservices.Repository.Memory.Rows.{find_one}
use shop_microservices.Shared.{KafkaTopic}
use shop_microservices.Shared.Messages.{StockItem, ReserveStockCommand, Payload}
use shop_microservices.Idempotency.{IdempotencyKeyEntity, idempotency_key}
use shop_microservices.Outbox
use shop_microservices.Outbox.{OutboxEntity, outbox_key}
use shop_microservices.Product.Entity.{
  ProductEntity, ProductResult, ReservedItemResult, product_key, ProductError, insufficient_stock,
  error_message, Tables, Db, Cache, CacheReply,
}
use shop_microservices.Product.Service.{
  or_else, find_active, reserve_item, reserve_each, reserved_item, reserve_stock_own, release_each,
  save_product, evict, cache_del, key_one,
}
use shop_microservices.Product.Service.Stock.{Takes, stock_of}
use shop_microservices.Product.Service.Release.{reserve_each-release_each}
use shop_microservices.Product.Service.Own.{
  AllOrNothing, IsReachable, reserve_stock_own_atomic, reserve_stock_own_evicts,
}
use shop_microservices.Product.Service.Window.{Keeps, Stale, reserve_stock_repopulated}
use shop_microservices.Product.SagaController.{handle_reserve_stock}
use shop_microservices.Product.SagaController.Replies.{
  Accounted, Repeated, handle_reserve_stock_told, reserve_stock_leaks, handle_reserve_stock_twice,
}

abbrev pub tables : Tables
tables = record {
  products = memory ProductEntity product_key;
  keys = memory IdempotencyKeyEntity idempotency_key;
  outbox = memory OutboxEntity outbox_key;
}

pub hit_kept :
    (b : Bool) (r : CacheReply) (v : ProductResult)
    → (if b then CacheReply.miss else r) ≡ CacheReply.hit v
    → r ≡ CacheReply.hit v
hit_kept true r v h = absurd (cc h)
hit_kept false r v h = h

pub missed :
    (b : Bool) (r : CacheReply) (v : ProductResult)
    → b ≡ true
    → (if b then CacheReply.miss else r) ≢ CacheReply.hit v
missed true r v same h = cc h
missed false r v same h = cc same

-- A cache that is always reachable: a function from keys to replies.
abbrev pub cache : Cache
cache = record {
  Store = String → CacheReply;
  get = λ s k. s k;
  set = λ s k v ttl. some (λ j. if j == k then CacheReply.hit v else s j);
  del = λ s k. some (λ j. if k == j then CacheReply.miss else s j);
  get-del = λ s s' k v deleted found.
      missed (k == k) (s k) v (eq_refl k) (ap (λ o. or_else o s k) deleted ∙ found);
  get-del-other = λ s s' k k' v deleted found.
      hit_kept (k == k') (s k') v (ap (λ o. or_else o s k') deleted ∙ found);
}

abbrev pub source : DataSourceBeside ProductError (Db tables) (String → CacheReply)
source = record {
  transaction = λ A callback s. settled_beside s.0 (callback s);
  transaction_lem = λ A callback s c. refl;
}

abbrev product : String → String → ℕ → ℕ → ProductEntity
product id name price stock = record {
  id = id;
  name = name;
  description = none;
  price = price;
  stock = stock;
  is_active = true;
  created_at = 0;
  updated_at = 0;
}

abbrev shelf : List ProductEntity
shelf = product "p1" "Mug" 450 5 ∷ product "p2" "Plate" 700 1 ∷ []

abbrev pub shop : Db tables
shop = record { products = shelf; keys = []; outbox = [] }

abbrev pub mugs : StockItem
mugs = record { product_id = "p1"; quantity = 2 }

abbrev plates : StockItem
plates = record { product_id = "p2"; quantity = 3 }

abbrev pub cold : String → CacheReply
cold k = CacheReply.miss

abbrev command : ReserveStockCommand
command = record {
  base = record { command_id = "s1"; order_id = "o1"; correlation_id = "c1" };
  items = mugs ∷ plates ∷ [];
}

abbrev left : List ProductEntity
left = record (product "p1" "Mug" 450 3) { updated_at = 9 } ∷ shelf

abbrev two_mugs : ReservedItemResult
two_mugs = record { product_id = "p1"; name = "Mug"; quantity = 2; unit_price = 450 }

taking : reserve_each tables 9 (mugs ∷ []) shelf ≡ (ok (two_mugs ∷ []), left)
unfolding find_one reserve_each reserve_item find_active reserved_item save_product
taking = refl

failing : reserve_item tables 9 plates left ≡ (err (insufficient_stock "p2" 3 1), left)
unfolding find_one reserve_item find_active
failing = refl

handle_reserve_stock_told_example :
    Accounted tables cache 9 command shop
      (handle_reserve_stock tables cache 9 source command (shop, cold)).1.0
unfolding find_one
handle_reserve_stock_told_example =
    handle_reserve_stock_told tables cache source 9 command shop cold refl

reserve_stock_leaks_example :
    Takes tables
      (mugs ∷ [])
      shelf
      (handle_reserve_stock tables cache 9 source command (shop, cold)).1.0.products
    × ((handle_reserve_stock tables cache 9 source command (shop, cold)).1.0.outbox
        ≡ Outbox.write tables.outbox 9 "o1" KafkaTopic.stock_reservation_failed "o1"
            (Payload.stock_reservation_failed (record {
              base = command.base;
              reason = error_message (insufficient_stock "p2" 3 1);
            }))
            [])
unfolding find_one
reserve_stock_leaks_example =
    reserve_stock_leaks tables cache source 9 command shop cold (mugs ∷ []) [] plates
      (two_mugs ∷ []) left (insufficient_stock "p2" 3 1) refl refl taking failing

handle_reserve_stock_twice_example :
    Repeated tables cache source 9 12 command shop cold
      (handle_reserve_stock tables cache 9 source command (shop, cold)).1.0
handle_reserve_stock_twice_example =
    handle_reserve_stock_twice tables cache source 9 12 command shop cold cold

reserve_each-release_each_example :
    stock_of tables (release_each tables 20 (mugs ∷ []) left) "p1" ≡ stock_of tables shelf "p1"
reserve_each-release_each_example =
    reserve_each-release_each tables 9 20 (mugs ∷ []) shelf left (two_mugs ∷ []) taking "p1"

reserve_stock_own_atomic_example :
    AllOrNothing tables cache command.items shop cold
      (reserve_stock_own tables cache source 9 command.items (shop, cold))
reserve_stock_own_atomic_example =
    reserve_stock_own_atomic tables cache source 9 command.items shop cold

abbrev mug_result : ProductResult
mug_result = record {
  id = "p1";
  name = "Mug";
  description = none;
  price = 450;
  stock = 5;
  is_active = true;
  created_at = 0;
  updated_at = 0;
}

abbrev warm : String → CacheReply
warm k = CacheReply.hit mug_result

reachable : IsReachable cache
reachable c k = ((λ j. if k == j then CacheReply.miss else c j), refl)

own_runs : reserve_stock_own tables cache source 9 (mugs ∷ []) (shop, warm) ≡ (
  ok (two_mugs ∷ []),
  (record shop { products = left }, (λ j. if "product:p1" == j then CacheReply.miss else warm j)),
)
unfolding find_one reserve_stock_own reserve_each reserve_item find_active reserved_item
    save_product evict cache_del key_one
own_runs = refl

reserve_stock_own_evicts_example :
    (if "product:p1" == "product:p1" then CacheReply.miss else warm "product:p1")
    ≢ CacheReply.hit mug_result
unfolding key_one
reserve_stock_own_evicts_example =
    reserve_stock_own_evicts tables cache source 9 (mugs ∷ []) shop
      (record shop { products = left }) warm
      (λ j. if "product:p1" == j then CacheReply.miss else warm j) (two_mugs ∷ []) reachable
      own_runs "product:p1" mug_result refl

keeps : Keeps cache
keeps c k v ttl = ((λ j. if j == k then CacheReply.hit v else c j), refl, rw (eq_refl k))

reserve_stock_repopulated_example :
    Stale tables cache 9 (mugs ∷ []) "p1" (product "p1" "Mug" 450 5) shop cold
unfolding find_one key_one find_active
reserve_stock_repopulated_example =
    reserve_stock_repopulated tables cache 9 (mugs ∷ []) "p1" (product "p1" "Mug" 450 5) shop cold
      left (two_mugs ∷ []) reachable keeps refl refl taking
