-- ===== src/Order/Entity.antt =====
-- order.ts and order-item.ts of the domain layer. Amounts are in cents; the time of a call is an
-- argument.
pub mod Transitions
use shop_microservices.Prelude.{
  ℕ, String, ◌==◌, Bool, true, false, Option, none, some, List, [], ◌∷◌, map, if◌then◌else◌,
}
use shop_microservices.Exec.{Result, ok, err}
use shop_microservices.Shared.Messages.{StockItem, OrderCreatedEventItem}
use shop_microservices.Order.Status.{
  OrderStatus, pending, confirmed, cancelled, completed, OrderError, invalid_order_transition,
}

pub record OrderItem : Type 0 where
  pub id : String
  pub product_id : String
  pub product_name : String
  pub quantity : ℕ
  pub unit_price : ℕ

pub record Order : Type 0 where
  pub id : String
  pub user_id : String
  pub user_email : String
  pub status : OrderStatus
  pub total : ℕ
  pub items : List OrderItem
  pub created_at : ℕ
  pub updated_at : ℕ

unfoldable pub new_item : StockItem → OrderItem
new_item i = record {
  id = "";
  product_id = i.product_id;
  product_name = "";
  quantity = i.quantity;
  unit_price = 0;
}

-- `Order.create`
unfoldable pub create : ℕ → String → String → List StockItem → Order
unfolding new_item
create now user_id user_email items = record {
  id = "";
  user_id = user_id;
  user_email = user_email;
  status = pending;
  total = 0;
  items = map new_item items;
  created_at = now;
  updated_at = now;
}

-- `itemDetails.find((d) => d.productId === item.productId)`
unfoldable pub find_detail : String → List OrderCreatedEventItem → Option OrderCreatedEventItem
find_detail product_id [] = none
find_detail product_id (d ∷ details) =
    if d.product_id == product_id then some d else find_detail product_id details

unfoldable pub with_detail : List OrderCreatedEventItem → OrderItem → OrderItem
unfolding find_detail
with_detail details item = elim (find_detail item.product_id details) [
  | none ↦ item
  | some d ↦ record item { product_name = d.name; unit_price = d.unit_price }
]

unfoldable pub with_details : List OrderCreatedEventItem → List OrderItem → List OrderItem
unfolding with_detail
with_details details [] = []
with_details details (item ∷ items) = with_detail details item ∷ with_details details items

unfoldable pub is_pending : OrderStatus → Bool
is_pending pending = true
is_pending confirmed = false
is_pending cancelled = false
is_pending completed = false

-- `this.status === CONFIRMED || this.status === COMPLETED`
unfoldable pub refuses_cancel : OrderStatus → Bool
refuses_cancel pending = false
refuses_cancel confirmed = true
refuses_cancel cancelled = false
refuses_cancel completed = true

-- `this.status === COMPLETED || this.status === CANCELLED`
unfoldable pub refuses_compensation : OrderStatus → Bool
refuses_compensation pending = false
refuses_compensation confirmed = false
refuses_compensation cancelled = true
refuses_compensation completed = true

module _ (now : ℕ) (order : Order) where
  unfoldable pub confirm : ℕ → List OrderCreatedEventItem → Result OrderError Order
  unfolding is_pending with_details
  confirm total details =
      if is_pending order.status
      then ok (record order {
        status = confirmed;
        total = total;
        items = with_details details order.items;
        updated_at = now;
      })
      else err (invalid_order_transition order.status confirmed)

  unfoldable pub cancel : Result OrderError Order
  unfolding refuses_cancel
  cancel =
      if refuses_cancel order.status
      then err (invalid_order_transition order.status cancelled)
      else ok (record order { status = cancelled; updated_at = now })

  -- Saga compensation: from PENDING or CONFIRMED, not after COMPLETED.
  unfoldable pub compensate : Result OrderError Order
  unfolding refuses_compensation
  compensate =
      if refuses_compensation order.status
      then err (invalid_order_transition order.status cancelled)
      else ok (record order { status = cancelled; updated_at = now })
