-- ===== src/Order/Examples.antt =====
-- Two databases of order-service held in memory: one with a saga that waits for the stock, one with
-- a saga that has failed.
use shop_microservices.Prelude.{
  String, ◌==◌, ◌≡◌, refl, none, some, List, [], ◌∷◌, arith, Bool-cases, inl, inr, subst, sym, ◌∙◌,
  eq_iff,
}
use mathlib.Core.Option
use shop_microservices.Exec.{DataSource, settled}
use shop_microservices.Repository.Memory.{memory, memory_unique}
use shop_microservices.Repository.Memory.Rows.{find_one}
use shop_microservices.Shared.Messages.{BaseCommand}
use shop_microservices.Outbox.{OutboxEntity, outbox_key}
use shop_microservices.Order.Status.{OrderStatus, SagaStep, SagaStatus, OrderError}
use shop_microservices.Order.Persistence.{OrderItemOrmEntity, OrderOrmEntity, SagaStateOrmEntity}
use shop_microservices.Order.Persistence.Repositories.{
  Tables, Db, ItemTable, order_key, saga_key, same_order, with_items, patch_items,
}
use shop_microservices.Order.Orchestrator.{SagaReply}
use shop_microservices.Order.Orchestrator.Consistency.{IsConsistent, Tied}

abbrev pub source : (S : Type 0) → DataSource OrderError S
source S = record {
  transaction = λ A callback s. settled s (callback s);
  transaction_lem = λ A callback s. refl;
}

abbrev pub patch_all :
    String → (OrderItemOrmEntity → OrderItemOrmEntity) → List OrderOrmEntity → List OrderOrmEntity
patch_all id f [] = []
patch_all id f (o ∷ os) = with_items (patch_items id f) o ∷ patch_all id f os

pub find_one-patch_all :
    (t : List OrderOrmEntity) (id : String) (f : OrderItemOrmEntity → OrderItemOrmEntity)
    (k : String)
    → (memory OrderOrmEntity order_key).find_one (patch_all id f t) k
      ≡ Option.map (with_items (patch_items id f)) ((memory OrderOrmEntity order_key).find_one t k)
unfolding find_one
find_one-patch_all [] id f k = refl
find_one-patch_all (o ∷ os) id f k = elim (Bool-cases (o.id == k)) [
  | inl h ↦ rw h refl
  | inr h ↦ rw h (find_one-patch_all os id f k)
]

abbrev pub items : ItemTable (memory OrderOrmEntity order_key)
items = record {
  update_item = λ t id f. patch_all id f t;
  find_one-update_item = find_one-patch_all;
  generate_item = λ t n. "item";
  generate_item-ne-empty = λ t n. refl;
}

abbrev pub tables : Tables
tables = record {
  orders = memory OrderOrmEntity order_key;
  items = items;
  sagas = memory SagaStateOrmEntity saga_key;
  unique_order = memory_unique SagaStateOrmEntity saga_key same_order;
  outbox = memory OutboxEntity outbox_key;
}

abbrev pub order_row : OrderStatus → OrderOrmEntity
order_row status = record {
  id = "o1";
  user_id = "u1";
  user_email = "u1@shop.test";
  status = status;
  total = 0;
  items =
      record {
        id = "i1";
        order_id = "o1";
        product_id = "p1";
        product_name = "";
        quantity = 2;
        unit_price = 0;
      }
      ∷ [];
  created_at = 0;
  updated_at = 0;
}

abbrev pub saga_row : SagaStep → SagaStatus → SagaStateOrmEntity
saga_row step status = record {
  id = "s1";
  order_id = "o1";
  current_step = step;
  status = status;
  retry_count = 0;
  correlation_id = some "c1";
  last_error = none;
  next_retry_at = some 30000;
  created_at = 0;
  updated_at = 0;
}

abbrev pub db_of : OrderStatus → SagaStep → SagaStatus → Db tables
db_of order step status = record {
  orders = order_row order ∷ [];
  sagas = saga_row step status ∷ [];
  outbox = [];
}

abbrev pub waiting_db : Db tables
waiting_db = db_of OrderStatus.pending SagaStep.reserve_stock SagaStatus.running

abbrev pub failed_db : Db tables
failed_db = db_of OrderStatus.cancelled SagaStep.failed SagaStatus.failed

only_saga :
    (step : SagaStep) (status : SagaStatus) (k : String) (s : SagaStateOrmEntity)
    → tables.sagas.find_one (saga_row step status ∷ []) k ≡ some s
    → ("s1" ≡ k) × (saga_row step status ≡ s)
unfolding find_one
only_saga step status k s e = elim (Bool-cases ("s1" == k)) [
  | inl h ↦ ((eq_iff "s1" k).0 h, cc (rw h at e))
  | inr h ↦ absurd (cc (rw h at e))
]

pub waiting_db-IsConsistent : IsConsistent tables waiting_db
unfolding find_one
waiting_db-IsConsistent = record {
  tied = λ k s e.
      subst (Tied tables waiting_db.orders)
        (only_saga SagaStep.reserve_stock SagaStatus.running k s e).1
        (record {
          order_status = OrderStatus.pending;
          found = refl;
          agrees = refl;
          coherent = refl;
          bounded = omega arith;
        });
  one_saga = λ j k r s e f h.
      sym (only_saga SagaStep.reserve_stock SagaStatus.running j r e).0
      ∙ (only_saga SagaStep.reserve_stock SagaStatus.running k s f).0;
}

pub failed_db-IsConsistent : IsConsistent tables failed_db
unfolding find_one
failed_db-IsConsistent = record {
  tied = λ k s e.
      subst (Tied tables failed_db.orders) (only_saga SagaStep.failed SagaStatus.failed k s e).1
        (record {
          order_status = OrderStatus.cancelled;
          found = refl;
          agrees = tt;
          coherent = refl;
          bounded = omega arith;
        });
  one_saga = λ j k r s e f h.
      sym (only_saga SagaStep.failed SagaStatus.failed j r e).0
      ∙ (only_saga SagaStep.failed SagaStatus.failed k s f).0;
}

abbrev pub base : BaseCommand
base = record { command_id = "s1"; order_id = "o1"; correlation_id = "c1" }

abbrev pub reserved : SagaReply
reserved = SagaReply.stock_reserved (record {
  base = base;
  items = record { product_id = "p1"; name = "Mug"; quantity = 2; unit_price = 450 } ∷ [];
  total = 900;
})

abbrev pub refused : SagaReply
refused =
    SagaReply.stock_reservation_failed (record { base = base; reason = "Product p1 not found" })
