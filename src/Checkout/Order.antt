-- ===== src/Checkout/Order.antt =====
-- The order that a creation leaves behind.
use Prim.Native.String.{◌++◌ as ◌++ₛ◌}
use shop_microservices.Prelude.{
  suc, [], ◌∷◌, map, ap, ◌∙◌, ℕ, String, ◌≡◌, refl, some, List, eq_refl,
}
use shop_microservices.Shared.Messages.{
  StockItem, BaseCommand, Payload, ReserveStockCommand, ProcessPaymentCommand, StockReservedEvent,
  StockReservationFailedEvent,
}
use shop_microservices.Order.Status.{OrderStatus, SagaStep}
use shop_microservices.Order.Entity
use shop_microservices.Order.Saga
use mathlib.Core.Option
use shop_microservices.Order.Orchestrator.SagaIds.{HasSaga}
use shop_microservices.Order.Orchestrator.Lines.{line_of, lines_of, lines_at}
use shop_microservices.Order.Entity.{new_item}
use shop_microservices.Order.Persistence.{
  item_to_orm, saga_to_orm, saga_to_domain, order_to_orm, order_to_domain,
}
use shop_microservices.Order.Persistence.Repositories as Orders
use shop_microservices.Order.UseCases.{CreateOrderInput}
use shop_microservices.Order.UseCases.Creation.{
  order_row, saga_row, created, created-IsConsistent, status_at-created,
}
use shop_microservices.Order.Orchestrator.{process_payment_command, command_base, pay_command_id}
use shop_microservices.Order.Orchestrator.Consistency.{IsConsistent}
use shop_microservices.Order.Orchestrator.Loading.{Waiting}
use shop_microservices.Order.Orchestrator.Progress.{progress_of, reserving}
use shop_microservices.Order.Orchestrator.Progress.Rows.{progress_of-stored}
use shop_microservices.Product.Entity.{ReservedItemResult}
use shop_microservices.Product.SagaController.Replies.{worth}

-- The order that a creation leaves.
module _ (O : Orders.Tables) (db : Orders.Db O) where
  abbrev pub new_id : String
  new_id = O.orders.generate db.orders

  abbrev pub new_saga_id : String
  new_saga_id = O.sagas.generate db.sagas

  -- The commands of the new saga.
  abbrev pub base_of : CreateOrderInput → String → BaseCommand
  base_of input command_id = record {
    command_id = command_id;
    order_id = new_id;
    correlation_id = input.correlation_id;
  }

  abbrev pub stock_command : CreateOrderInput → ReserveStockCommand
  stock_command input = record { base = base_of input new_saga_id; items = input.items }

  abbrev pub pay_command : CreateOrderInput → ℕ → ProcessPaymentCommand
  pay_command input amount = record {
    base = base_of input (new_saga_id ++ₛ "-pay");
    user_id = input.user_id;
    amount = amount;
  }

  -- The replies of product-service.
  abbrev pub reserved_event : CreateOrderInput → List ReservedItemResult → StockReservedEvent
  reserved_event input items = record {
    base = base_of input new_saga_id;
    items = items;
    total = worth items;
  }

  abbrev pub failed_event : CreateOrderInput → String → StockReservationFailedEvent
  failed_event input reason = record { base = base_of input new_saga_id; reason = reason }

module _ (O : Orders.Tables) (now : ℕ) (input : CreateOrderInput) (db : Orders.Db O) where
  pub created-Waiting :
      Waiting O
        (created O now input db)
        (new_id O db)
        SagaStep.reserve_stock
        (saga_row O now input db)
  unfolding saga_to_orm Saga.create
  created-Waiting = record {
    stored = rw (
      O.sagas.find_one-save db.sagas (saga_row O now input db) (new_saga_id O db),
      eq_refl (new_saga_id O db),
    );
    of_order = refl;
    at_step = refl;
    is_live = refl;
  }

  pub created-HasSaga : HasSaga O (created O now input db) (new_id O db) (new_saga_id O db)
  unfolding saga_to_orm
  created-HasSaga =
      (saga_row O now input db, Waiting.stored created-Waiting, Waiting.of_order created-Waiting)

  pub created-found :
      O.orders.find_one (created O now input db).orders (new_id O db)
      ≡ some (order_row O now input db)
  unfolding order_to_orm
  created-found = rw (
    O.orders.find_one-save db.orders (order_row O now input db) (new_id O db),
    eq_refl (new_id O db),
  )

  pub created-pending : (order_row O now input db).status ≡ OrderStatus.pending
  unfolding order_to_orm Entity.create
  created-pending = refl

  pub created-reserving :
      IsConsistent O db → progress_of O (created O now input db) (new_id O db) ≡ some reserving
  unfolding saga_to_orm Saga.create
  created-reserving c =
      progress_of-stored O (created O now input db) (new_id O db) (saga_row O now input db)
        OrderStatus.pending (created-IsConsistent O now input db c) (Waiting.stored created-Waiting)
        refl (rw (status_at-created O now input db (new_id O db), eq_refl (new_id O db)))

  pub created-pay_command :
      (amount : ℕ)
      → process_payment_command
          (new_id O db)
          (saga_to_domain (saga_row O now input db))
          (order_to_domain (order_row O now input db))
          amount
        ≡ Payload.process_payment (pay_command O db input amount)
  unfolding process_payment_command command_base pay_command_id saga_to_domain saga_to_orm
      order_to_domain order_to_orm Saga.create Entity.create
  created-pay_command amount = refl

  lines-item_to_orm :
      (order_id : String) (ids : ℕ → String) (n : ℕ) (items : List StockItem)
      → map line_of (item_to_orm order_id ids n (map new_item items)) ≡ items
  unfolding item_to_orm new_item
  lines-item_to_orm order_id ids n [] = refl
  lines-item_to_orm order_id ids n (i ∷ items) =
      ap (λ xs. i ∷ xs) (lines-item_to_orm order_id ids (suc n) items)

  -- The new order holds what was asked for.
  pub created-lines : lines_at O (created O now input db).orders (new_id O db) ≡ some input.items
  unfolding order_to_orm Entity.create
  created-lines =
      ap (Option.map lines_of) created-found
      ∙ ap some (lines-item_to_orm (new_id O db) (O.items.generate_item db.orders) 0 input.items)
