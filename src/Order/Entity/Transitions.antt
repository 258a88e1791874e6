-- ===== src/Order/Entity/Transitions.antt =====
-- What the transitions of an order keep: the lines that the customer ordered.
use shop_microservices.Prelude.{
  ℕ, List, [], ◌∷◌, map, ◌≡◌, refl, Option-cases, Bool-cases, inl, inr,
}
use shop_microservices.Exec.{Result, ok, err}
use shop_microservices.Shared.Messages.{StockItem, OrderCreatedEventItem}
use shop_microservices.Order.Status.{OrderError}
use shop_microservices.Order.Entity.{
  Order, OrderItem, find_detail, with_detail, with_details, confirm, cancel, compensate, is_pending,
  refuses_cancel, refuses_compensation,
}

-- Product and quantity of a line, the form in which the commands send it.
abbrev pub line : OrderItem → StockItem
line i = record { product_id = i.product_id; quantity = i.quantity }

with_detail-line :
    (details : List OrderCreatedEventItem) (i : OrderItem) → line (with_detail details i) ≡ line i
unfolding with_detail
with_detail-line details i = elim (Option-cases (find_detail i.product_id details)) [
  | inl absent ↦ rw (absent, with_detail) refl
  | inr (d, found) ↦ rw (found, with_detail) refl
]

pub with_details-lines :
    (details : List OrderCreatedEventItem) (items : List OrderItem)
    → map line (with_details details items) ≡ map line items
unfolding with_details
with_details-lines details [] = refl
with_details-lines details (i ∷ items) =
    cc (with_detail-line details i, with_details-lines details items)

-- The transitions of an order.
pub data Change : Type 0 where
  confirmation : ℕ → List OrderCreatedEventItem → Change
  cancellation compensation : Change

abbrev pub change : ℕ → Order → Change → Result OrderError Order
change now order (confirmation total details) = confirm now order total details
change now order cancellation = cancel now order
change now order compensation = compensate now order

-- An outcome that keeps id, customer and lines.
abbrev pub Keeps : Order → Result OrderError Order → Type 0
Keeps order (err e) = Unit
Keeps order (ok after) =
    (after.id ≡ order.id)
    × (after.user_id ≡ order.user_id)
    × (map line after.items ≡ map line order.items)

-- Whatever transition an order makes, its id, its customer and the products and quantities of its
-- lines stay: what is released in a compensation is what was reserved.
pub change-Keeps : (now : ℕ) (order : Order) (c : Change) → Keeps order (change now order c)
unfolding confirm cancel compensate
change-Keeps now order (confirmation total details) = elim (Bool-cases (is_pending order.status)) [
  | inl holds ↦ rw holds (refl, refl, with_details-lines details order.items)
  | inr fails ↦ rw fails tt
]
change-Keeps now order cancellation = elim (Bool-cases (refuses_cancel order.status)) [
  | inl holds ↦ rw holds tt
  | inr fails ↦ rw fails (refl, refl, refl)
]
change-Keeps now order compensation = elim (Bool-cases (refuses_compensation order.status)) [
  | inl holds ↦ rw holds tt
  | inr fails ↦ rw fails (refl, refl, refl)
]
