-- ===== src/Gateway/Handlers/Payments.antt =====
-- payments-proxy.controller.ts
use Prim.Native.String.{◌++◌ as ◌++ₛ◌}
use shop_microservices.Prelude.{String, Option, none, []}
use shop_microservices.Gateway.Proxy.{payment_service}
use shop_microservices.Gateway.Handlers.{RouteHandler, for_user, admins, id_of}

module _ {B : Type 0} where
  unfoldable pub get_my_wallet_handler : RouteHandler B
  get_my_wallet_handler =
      for_user [] payment_service "GET" (λ user. "/wallets/" ++ₛ id_of user) none

  unfoldable pub get_wallet_handler : String → RouteHandler B
  get_wallet_handler user_id =
      for_user admins payment_service "GET" (λ user. "/wallets/" ++ₛ user_id) none

  unfoldable pub top_up_handler : String → Option B → RouteHandler B
  top_up_handler user_id body =
      for_user admins payment_service "POST" (λ user. "/wallets/" ++ₛ (user_id ++ₛ "/top-up")) body
