-- ===== src/Product/SagaController/Replies.antt =====
-- What a reserve command leaves behind: stock, stored reply and outbox, the first time and when it
-- is delivered again.
use shop_microservices.Product.Service.Failure.{reserve_each_fails}
use shop_microservices.Prelude.{
  ℕ, ◌+◌, ◌*◌, none, some, List, [], ◌∷◌, ◌++◌, map, All, ◌≡◌, ◌≢◌, ◌⊎◌, inl, inr, refl, sym, ap,
  subst, arith, ◌∙◌, eq_refl, Option-cases,
}
use shop_microservices.Shared.{KafkaTopic}
use shop_microservices.Shared.Messages.{StockItem, ReserveStockCommand, Payload}
use shop_microservices.Exec.{ok, err, DataSourceBeside}
use shop_microservices.Outbox
use shop_microservices.Idempotency.{IdempotencyKeyEntity}
use shop_microservices.Product.Entity.{
  ReservedItemResult, ProductError, error_message, Tables, Db, Cache,
}
use shop_microservices.Product.Service.{cache_del, key_one, reserve_each, reserve_item}
use shop_microservices.Product.Service.Prices.{IsPriced, cost}
use shop_microservices.Product.Service.Stock.{
  Takes, Reserved, quoted, reserve_each_prefix, reserve_each_complete,
}
use shop_microservices.Product.SagaController.{
  total_from, reserved_reply, failed_reply, save, write, handle_reserve_stock,
}
use shop_microservices.Product.SagaController.Safety.{
  reply_topic, reply_payload, Outcome, reserved_db, handle_reserve_stock_new,
  handle_reserve_stock_again,
}

-- What the reserved items cost.
unfoldable pub worth : List ReservedItemResult → ℕ
worth [] = 0
worth (i ∷ items) = i.unit_price * i.quantity + worth items

total_from_lem :
    (sum : ℕ) (items : List ReservedItemResult) → total_from sum items ≡ sum + worth items
unfolding total_from worth
total_from_lem sum [] = omega arith
total_from_lem sum (i ∷ items) =
    omega (arith, total_from_lem (sum + i.unit_price * i.quantity) items)

-- What a reservation quotes is what its items cost.
worth-quoted :
    (T : Tables) (t : T.products.Table) (rs : List ReservedItemResult)
    → All (IsPriced T t) rs
    → worth rs ≡ cost T t (map quoted rs)
unfolding worth
worth-quoted T t [] priced = refl
worth-quoted T t (r ∷ rs) ((p, stored, named, price), priced) =
    rw (stored, price, worth-quoted T t rs priced)

pub worth-cost :
    (T : Tables) (t : T.products.Table) (items : List StockItem) (rs : List ReservedItemResult)
    → map quoted rs ≡ items
    → All (IsPriced T t) rs
    → worth rs ≡ cost T t items
worth-cost T t items rs quotes priced = worth-quoted T t rs priced ∙ ap (cost T t) quotes

total_lem : (items : List ReservedItemResult) → total_from 0 items ≡ worth items
total_lem items = omega (arith, total_from_lem 0 items)

module _ (T : Tables) (C : Cache) where
  -- The reply in the outbox, and what it says about the items that were not taken.
  abbrev pub Told : ℕ → ReserveStockCommand → Db T → Db T → List StockItem → Type 0
  Told now command before after rest =
      ((items : List ReservedItemResult) × (rest ≡ [])
        × (map quoted items ≡ command.items)
        × All (IsPriced T before.products) items
        × (after.outbox
            ≡ Outbox.write T.outbox now command.order_id KafkaTopic.stock_reserved command.order_id
                (Payload.stock_reserved
                  (record { base = command.base; items = items; total = worth items }))
                before.outbox))
      ⊎ ((e : ProductError) × (rest ≢ [])
          × (after.outbox
              ≡ Outbox.write T.outbox now command.order_id KafkaTopic.stock_reservation_failed
                  command.order_id
                  (Payload.stock_reservation_failed
                    (record { base = command.base; reason = error_message e }))
                  before.outbox))

  -- A first part of the items is taken, and the reply tells which.
  abbrev pub Accounted : ℕ → ReserveStockCommand → Db T → Db T → Type 0
  Accounted now command db after =
      (taken : List StockItem) × (rest : List StockItem) × (command.items ≡ taken ++ rest)
      × Takes T taken db.products after.products
      × Told now command db after rest

  told :
      (now : ℕ) (command : ReserveStockCommand) (db : Db T) (out : Outcome T)
      → Reserved T command.items db.products out
      → Accounted now command db (reserved_db T C now command db out)
  unfolding save write reserved_reply failed_reply
  told now command db (ok items, t) (taken, rest, splits, takes, (ends, all, priced)) =
      (taken, rest, splits, takes, inl (items, ends, all, priced, rw (total_lem items) refl))
  told now command db (err e, t) (taken, rest, splits, takes, more) =
      (taken, rest, splits, takes, inr (e, more, refl))

module _ (T : Tables) (C : Cache) (D : DataSourceBeside ProductError (Db T) C.Store) where
  -- A reserve command that was not answered before takes a first part of its items and no unit of
  -- any other product: what is left of each product and what was taken of it add up to what was
  -- there. If that is all of them, the queued reply is stock-reserved with every product and
  -- quantity of the command, each under its stored name and at its stored price, and with the sum of
  -- price times quantity; if not, it is stock-reservation-failed with the error's message, and the
  -- first part stays taken.
  pub handle_reserve_stock_told :
      (now : ℕ) (command : ReserveStockCommand) (db : Db T) (c : C.Store)
      → T.keys.find_one db.keys command.command_id ≡ none
      → Accounted T C now command db (handle_reserve_stock T C now D command (db, c)).1.0
  handle_reserve_stock_told now command db c unseen =
      subst (λ s. Accounted T C now command db s.1.0)
        (sym (handle_reserve_stock_new T C D now command db c unseen))
        (told T C now command db (reserve_each T now command.items db.products)
          (reserve_each_prefix T now command.items db.products))

  -- When the first items of a new reserve command can be taken and the next one cannot, the reply
  -- that is queued says that the reservation failed, and yet the stock of the first items stays
  -- taken.
  pub reserve_stock_leaks :
      (now : ℕ) (command : ReserveStockCommand) (db : Db T) (c : C.Store)
      (taken rest : List StockItem) (item : StockItem) (rs : List ReservedItemResult)
      (t : T.products.Table) (e : ProductError)
      → T.keys.find_one db.keys command.command_id ≡ none
      → command.items ≡ taken ++ (item ∷ rest)
      → reserve_each T now taken db.products ≡ (ok rs, t)
      → reserve_item T now item t ≡ (err e, t)
      → Takes T taken db.products (handle_reserve_stock T C now D command (db, c)).1.0.products
        × ((handle_reserve_stock T C now D command (db, c)).1.0.outbox
            ≡ Outbox.write T.outbox now command.order_id KafkaTopic.stock_reservation_failed
                command.order_id
                (Payload.stock_reservation_failed
                  (record { base = command.base; reason = error_message e }))
                db.outbox)
  unfolding save write failed_reply
  reserve_stock_leaks now command db c taken rest item rs t e unseen splits taking failing =
      subst
        (λ s.
          Takes T taken db.products s.1.0.products
          × (s.1.0.outbox
              ≡ Outbox.write T.outbox now command.order_id KafkaTopic.stock_reservation_failed
                  command.order_id (Payload.stock_reservation_failed (failed_reply command e))
                  db.outbox))
        (sym (
          handle_reserve_stock_new T C D now command db c unseen
          ∙ ap
              (λ out. (
                ok tt,
                (
                  reserved_db T C now command db out,
                  cache_del C (map (λ i. key_one i.product_id) command.items) c,
                ),
              ))
              (subst (λ items. reserve_each T now items db.products ≡ (err e, t)) (sym splits)
                (reserve_each_fails T now taken rest item e db.products t rs taking failing))))
        ((reserve_each_complete T now taken db.products t rs taking).0, refl)

  requeued :
      (later : ℕ) (command : ReserveStockCommand) (db : Db T) (c : C.Store)
      (existing : IdempotencyKeyEntity)
      → T.keys.find_one db.keys command.command_id ≡ some existing
      → let second = (handle_reserve_stock T C later D command (db, c)).1.0 in
        (second.outbox
          ≡ Outbox.write T.outbox later command.order_id existing.reply_topic command.order_id
              existing.reply_payload db.outbox)
        × (second.products ≡ db.products)
        × (second.keys ≡ db.keys)
  unfolding write
  requeued later command db c existing seen =
      let runs = handle_reserve_stock_again T C D later command db c existing seen in
      (ap (λ s. s.1.0.outbox) runs, ap (λ s. s.1.0.products) runs, ap (λ s. s.1.0.keys) runs)

  -- The first delivery queued a reply, and the second queues it again and changes nothing else.
  abbrev pub Repeated : ℕ → ℕ → ReserveStockCommand → Db T → C.Store → Db T → Type 0
  Repeated now later command db c' first =
      let second = (handle_reserve_stock T C later D command (first, c')).1.0 in
      (topic : KafkaTopic) × (payload : Payload) × (first.outbox
        ≡ Outbox.write T.outbox now command.order_id topic command.order_id payload db.outbox)
      × (second.outbox
          ≡ Outbox.write T.outbox later command.order_id topic command.order_id payload
              first.outbox)
      × (second.products ≡ first.products)
      × (second.keys ≡ first.keys)

  abbrev stored_reply : ℕ → ReserveStockCommand → Outcome T → IdempotencyKeyEntity
  stored_reply now command out = record {
    key = command.command_id;
    reply_topic = reply_topic out.0;
    reply_payload = reply_payload command out.0;
    processed_at = now;
  }

  repeated :
      (now later : ℕ) (command : ReserveStockCommand) (db : Db T) (c' : C.Store) (out : Outcome T)
      → Repeated now later command db c' (reserved_db T C now command db out)
  unfolding save write
  repeated now later command db c' out =
      let (queued, products, keys) =
        requeued later command (reserved_db T C now command db out) c'
          (stored_reply now command out)
          (rw
            (
              T.keys.find_one-save db.keys (stored_reply now command out) command.command_id,
              eq_refl command.command_id,
            )
            refl) in
      (reply_topic out.0, reply_payload command out.0, refl, queued, products, keys)

  -- A reserve command that is delivered twice takes stock at most once: the second delivery leaves
  -- the products and the stored replies as the first left them, and queues the reply that the first
  -- queued.
  pub handle_reserve_stock_twice :
      (now later : ℕ) (command : ReserveStockCommand) (db : Db T) (c c' : C.Store)
      → Repeated now later command db c' (handle_reserve_stock T C now D command (db, c)).1.0
  unfolding write
  handle_reserve_stock_twice now later command db c c' =
      elim (Option-cases (T.keys.find_one db.keys command.command_id)) [
        | inl unseen ↦
            subst (λ s. Repeated now later command db c' s.1.0)
              (sym (handle_reserve_stock_new T C D now command db c unseen))
              (repeated now later command db c' (reserve_each T now command.items db.products))
        | inr (existing, seen) ↦
            subst (λ s. Repeated now later command db c' s.1.0)
              (sym (handle_reserve_stock_again T C D now command db c existing seen))
              (let (queued, products, keys) =
                  requeued later command
                    (write T C now command.order_id existing.reply_topic existing.reply_payload db)
                    c' existing seen in
                (existing.reply_topic, existing.reply_payload, refl, queued, products, keys))
      ]
