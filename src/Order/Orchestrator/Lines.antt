-- ===== src/Order/Orchestrator/Lines.antt =====
-- What was ordered stays through every update of an order.
use mathlib.Core.Option
use shop_microservices.Prelude.{
  ℕ, String, ◌==◌, ◌≡◌, refl, ap, ◌∙◌, Option, none, some, List, [], ◌∷◌, map, Bool-cases, inl, inr,
}
use shop_microservices.Shared.Messages.{StockItem}
use shop_microservices.Order.Entity.{Order, OrderItem}
use shop_microservices.Order.Persistence.{OrderOrmEntity, OrderItemOrmEntity}
use shop_microservices.Order.Persistence.Repositories.{
  Tables, Db, update_order, update_items, order_patch, item_patch, patch_items, with_items,
}

abbrev pub line_of : OrderItemOrmEntity → StockItem
line_of i = record { product_id = i.product_id; quantity = i.quantity }

abbrev pub lines_of : OrderOrmEntity → List StockItem
lines_of o = map line_of o.items

-- The products and quantities of an order, if there is one.
abbrev pub lines_at : (T : Tables) → T.orders.Table → String → Option (List StockItem)
lines_at T t k = Option.map lines_of (T.orders.find_one t k)

lines-patch_items :
    (i : OrderItem) (id : String) (items : List OrderItemOrmEntity)
    → map line_of (patch_items id (item_patch i) items) ≡ map line_of items
unfolding item_patch
lines-patch_items i id [] = refl
lines-patch_items i id (x ∷ items) = elim (Bool-cases (x.id == id)) [
  | inl same ↦ rw (same, lines-patch_items i id items)
  | inr other ↦ rw (other, lines-patch_items i id items)
]

map-lines_of :
    (f : OrderOrmEntity → OrderOrmEntity) (o : Option OrderOrmEntity)
    → ((r : OrderOrmEntity) → lines_of (f r) ≡ lines_of r)
    → Option.map lines_of (Option.map f o) ≡ Option.map lines_of o
map-lines_of f none h = refl
map-lines_of f (some r) h = ap some (h r)

module _ (T : Tables) where
  lines_at-update_item :
      (t : T.orders.Table) (i : OrderItem) (k : String)
      → lines_at T (T.items.update_item t i.id (item_patch i)) k ≡ lines_at T t k
  lines_at-update_item t i k =
      ap (Option.map lines_of) (T.items.find_one-update_item t i.id (item_patch i) k)
      ∙ map-lines_of (with_items (patch_items i.id (item_patch i))) (T.orders.find_one t k)
          (λ r. lines-patch_items i i.id r.items)

  lines_at-update_items :
      (items : List OrderItem) (t : T.orders.Table) (k : String)
      → lines_at T (update_items T items t) k ≡ lines_at T t k
  unfolding update_items
  lines_at-update_items [] t k = refl
  lines_at-update_items (i ∷ items) t k = elim (Bool-cases (i.id == "")) [
    | inl fresh ↦ rw (update_items, fresh) (lines_at-update_items items t k)
    | inr stored ↦
        rw (update_items, stored)
          (lines_at-update_items items (T.items.update_item t i.id (item_patch i)) k
            ∙ lines_at-update_item t i k)
  ]

  pub lines_at-update_order :
      (now : ℕ) (o : Order) (db : Db T) (k : String)
      → lines_at T (update_order T now o db).1.orders k ≡ lines_at T db.orders k
  unfolding update_order order_patch
  lines_at-update_order now o db k =
      lines_at-update_items o.items (T.orders.update db.orders o.id (order_patch now o)) k
      ∙ ap (Option.map lines_of)
          (T.orders.find_one-update db.orders o.id (order_patch now o) (λ r. refl) k)
      ∙ elim (Bool-cases (o.id == k)) [
        | inl same ↦
            rw same (map-lines_of (order_patch now o) (T.orders.find_one db.orders k) (λ r. refl))
        | inr other ↦ rw other
      ]
