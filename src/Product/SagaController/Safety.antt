-- ===== src/Product/SagaController/Safety.antt =====
-- The two handlers on a command that is new and on one that was answered before, as equations.
use shop_microservices.Prelude.{some, none, ℕ, String, ◌==◌, false, List, map, ap, ◌∙◌, ◌≡◌, refl}
use shop_microservices.Shared.{KafkaTopic}
use shop_microservices.Shared.Messages.{ReleaseStockCommand, ReserveStockCommand, Payload}
use shop_microservices.Exec.{DataSourceBeside, Result, ok, err, continue, handle_error}
use shop_microservices.Idempotency.{IdempotencyKeyEntity}
use shop_microservices.Product.Entity.{ReservedItemResult, ProductError, Tables, Db, Cache}
use shop_microservices.Product.Service.{
  release_each, release_stock, cache_del, key_one, reserve_each, evict, reserve_stock,
}
use shop_microservices.Product.SagaController.{
  requeue, find, once, handle_reserve_stock, release_and_answer, handle_release_stock,
  reserved_reply, failed_reply, save, write, answer, reserve_and_answer,
}

abbrev pub Outcome : Tables → Type 0
Outcome T = Result ProductError (List ReservedItemResult) × T.products.Table

-- The reply to the outcome of a reservation.
abbrev pub reply_topic : Result ProductError (List ReservedItemResult) → KafkaTopic
reply_topic (ok items) = KafkaTopic.stock_reserved
reply_topic (err e) = KafkaTopic.stock_reservation_failed

abbrev pub reply_payload :
    ReserveStockCommand → Result ProductError (List ReservedItemResult) → Payload
reply_payload command (ok items) = Payload.stock_reserved (reserved_reply command items)
reply_payload command (err e) = Payload.stock_reservation_failed (failed_reply command e)

module _ (T : Tables) (C : Cache) (now : ℕ) where
  abbrev pub reserved_db : ReserveStockCommand → Db T → Outcome T → Db T
  reserved_db command db out =
      write T C now command.order_id (reply_topic out.0) (reply_payload command out.0) (
        save T C now command.command_id (reply_topic out.0) (reply_payload command out.0)
          (record db { products = out.1 }))

  answers :
      (command : ReserveStockCommand) (db : Db T) (c : C.Store) (out : Outcome T)
      → handle_error
          (λ e.
            answer T C now command.base KafkaTopic.stock_reservation_failed
              (Payload.stock_reservation_failed (failed_reply command e)))
          (continue out.0
            (λ items.
              answer T C now command.base KafkaTopic.stock_reserved
                (Payload.stock_reserved (reserved_reply command items)))
            (record db { products = out.1 }, c))
        ≡ (ok tt, (reserved_db command db out, c))
  unfolding answer
  answers command db c (ok items, t) = refl
  answers command db c (err e, t) = refl

  pub reserve_and_answer_lem :
      (command : ReserveStockCommand) (db : Db T) (c : C.Store)
      → reserve_and_answer T C now command (db, c) ≡ (
        ok tt,
        (
          reserved_db command db (reserve_each T now command.items db.products),
          cache_del C (map (λ i. key_one i.product_id) command.items) c,
        ),
      )
  unfolding reserve_and_answer reserve_stock evict
  reserve_and_answer_lem command db c =
      answers command db (cache_del C (map (λ i. key_one i.product_id) command.items) c)
        (reserve_each T now command.items db.products)

module _ (T : Tables) (C : Cache) (D : DataSourceBeside ProductError (Db T) C.Store) (now : ℕ) where
  pub handle_reserve_stock_new :
      (command : ReserveStockCommand) (db : Db T) (c : C.Store)
      → T.keys.find_one db.keys command.command_id ≡ none
      → handle_reserve_stock T C now D command (db, c) ≡ (
        ok tt,
        (
          reserved_db T C now command db (reserve_each T now command.items db.products),
          cache_del C (map (λ i. key_one i.product_id) command.items) c,
        ),
      )
  unfolding handle_reserve_stock find once
  handle_reserve_stock_new command db c unseen = rw (
    handle_reserve_stock,
    D.transaction_lem,
    find,
    unseen,
    once,
    reserve_and_answer_lem T C now command db c,
  )

  pub handle_reserve_stock_again :
      (command : ReserveStockCommand) (db : Db T) (c : C.Store) (existing : IdempotencyKeyEntity)
      → T.keys.find_one db.keys command.command_id ≡ some existing
      → handle_reserve_stock T C now D command (db, c) ≡ (
        ok tt,
        (write T C now command.order_id existing.reply_topic existing.reply_payload db, c),
      )
  unfolding handle_reserve_stock find once requeue
  handle_reserve_stock_again command db c existing seen =
      rw (handle_reserve_stock, D.transaction_lem, find, seen, once, requeue)

  abbrev pub released_db : ReleaseStockCommand → Db T → Db T
  released_db command db =
      write T C now command.order_id KafkaTopic.stock_released (Payload.stock_released command.base)
        (save T C now command.command_id KafkaTopic.stock_released
          (Payload.stock_released command.base)
          (record db { products = release_each T now command.items db.products }))

  pub handle_release_stock_new :
      (command : ReleaseStockCommand) (db : Db T) (c : C.Store)
      → T.keys.find_one db.keys command.command_id ≡ none
      → handle_release_stock T C now D command (db, c) ≡ (
        ok tt,
        (released_db command db, cache_del C (map (λ i. key_one i.product_id) command.items) c),
      )
  unfolding handle_release_stock find once release_and_answer release_stock answer evict
  handle_release_stock_new command db c unseen = rw (
    handle_release_stock, D.transaction_lem, find, unseen, once, release_and_answer, release_stock,
    answer, evict,
  )

  pub handle_release_stock_again :
      (command : ReleaseStockCommand) (db : Db T) (c : C.Store) (existing : IdempotencyKeyEntity)
      → T.keys.find_one db.keys command.command_id ≡ some existing
      → handle_release_stock T C now D command (db, c) ≡ (
        ok tt,
        (write T C now command.order_id existing.reply_topic existing.reply_payload db, c),
      )
  unfolding handle_release_stock find once requeue
  handle_release_stock_again command db c existing seen =
      rw (handle_release_stock, D.transaction_lem, find, seen, once, requeue)

-- A reserve command stores no reply but its own.
pub handle_reserve_stock-keys :
    (T : Tables) (C : Cache) (D : DataSourceBeside ProductError (Db T) C.Store) (now : ℕ)
    (command : ReserveStockCommand) (db : Db T) (c : C.Store) (k : String)
    → T.keys.find_one db.keys command.command_id ≡ none
    → (command.command_id == k) ≡ false
    → T.keys.find_one (handle_reserve_stock T C now D command (db, c)).1.0.keys k
      ≡ T.keys.find_one db.keys k
unfolding save write
handle_reserve_stock-keys T C D now command db c k unseen other =
    ap (λ r. T.keys.find_one r.1.0.keys k) (handle_reserve_stock_new T C D now command db c unseen)
    ∙ T.keys.find_one-save db.keys _ k
    ∙ rw other refl
