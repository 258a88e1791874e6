-- ===== src/Checkout/Examples.antt =====
-- A checkout of two mugs: the small databases of the services' examples together.
use shop_microservices.Prelude.{[], ◌∷◌}
use shop_microservices.Order.UseCases.{CreateOrderInput}
use shop_microservices.Order.Persistence.Repositories as Orders
use shop_microservices.Order.Examples as OrderExamples
use shop_microservices.Product.Examples as ProductExamples
use shop_microservices.Payment.Examples as PaymentExamples
use shop_microservices.Checkout.{Shop}

abbrev input : CreateOrderInput
input = record {
  user_id = "u1";
  user_email = "u1@shop.test";
  correlation_id = "c9";
  items = ProductExamples.mugs ∷ [];
}

abbrev shop :
    Shop OrderExamples.tables ProductExamples.tables ProductExamples.cache PaymentExamples.tables
shop = record {
  orders = OrderExamples.waiting_db;
  products = ProductExamples.shop;
  cache = ProductExamples.cold;
  payments = PaymentExamples.bank;
}

-- A customer without a wallet, whose payment is refused.
abbrev unpaid_input : CreateOrderInput
unpaid_input = record input { user_id = "u9" }
