-- ===== src/Order/Persistence/Mapping.antt =====
-- The mappers there and back.
use shop_microservices.Prelude.{ℕ, String, List, [], ◌∷◌, map, suc, ◌≡◌, refl, ap}
use shop_microservices.Order.Entity.{Order, OrderItem}
use shop_microservices.Order.Entity.Transitions.{line}
use shop_microservices.Order.Saga.{Saga}
use shop_microservices.Order.Persistence.{
  item_to_domain, order_to_domain, item_to_orm, order_to_orm, saga_to_domain, saga_to_orm,
}

item_to_orm-lines :
    (order_id : String) (item_ids : ℕ → String) (n : ℕ) (items : List OrderItem)
    → map line (map item_to_domain (item_to_orm order_id item_ids n items)) ≡ map line items
unfolding item_to_orm item_to_domain
item_to_orm-lines order_id item_ids n [] = refl
item_to_orm-lines order_id item_ids n (i ∷ items) =
    ap (λ rest. line i ∷ rest) (item_to_orm-lines order_id item_ids (suc n) items)

-- An order that is saved and read back is the order with the ids and times that the database gave it:
-- its customer, its status, its total and the products and quantities of its lines are the same. A
-- saga that is saved and read back differs in id and times only.
pub to_domain-to_orm :
    (now : ℕ) (id : String) (item_ids : ℕ → String) (order : Order) (saga : Saga)
    → let read = order_to_domain (order_to_orm now id item_ids order) in
      (map line read.items ≡ map line order.items)
      × (record read { items = order.items }
          ≡ record order { id = id; created_at = now; updated_at = now })
      × (saga_to_domain (saga_to_orm now id saga)
          ≡ record saga { id = id; created_at = now; updated_at = now })
unfolding order_to_domain order_to_orm saga_to_domain saga_to_orm
to_domain-to_orm now id item_ids order saga =
    (item_to_orm-lines id item_ids 0 order.items, refl, refl)
