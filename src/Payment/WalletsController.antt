-- ===== src/Payment/WalletsController.antt =====
-- wallets.controller.ts. The amount in a top-up has passed the validation of its DTO.
pub mod TopUp
use shop_microservices.Prelude.{ℕ, String, ◌==◌, Bool, ◌&&◌, not, Option, none, some, if◌then◌else◌}
use shop_microservices.Exec.{Exec, DataSource, pure, throw, ◌>>=◌}
use shop_microservices.Shared.Roles.{parse_roles}
use shop_microservices.User.{includes_admin}
use shop_microservices.Http.{Thrown, http, unhandled, call, forbidden, not_found, or_empty}
use shop_microservices.Payment.Entity.{UserWalletEntity, PaymentError, Tables, Db}
use shop_microservices.Payment.Wallet.{get_balance, top_up}

pub record WalletResult : Type 0 where
  pub user_id : String
  pub balance : ℕ

unfoldable pub wallet_result : UserWalletEntity → WalletResult
wallet_result wallet = record { user_id = wallet.user_id; balance = wallet.balance }

module _ (T : Tables) (D : DataSource PaymentError (Db T)) where
  abbrev pub Handling : Type 0 → Type 0
  Handling A = Exec (Thrown PaymentError) (Db T) A

  -- `if (!wallet) throw new NotFoundException(…)`
  unfoldable pub found_wallet : Option UserWalletEntity → Handling WalletResult
  unfolding wallet_result
  found_wallet none = throw (http (not_found "Wallet not found"))
  found_wallet (some wallet) = pure (wallet_result wallet)

  unfoldable pub get_wallet : String → Option String → Option String → Handling WalletResult
  unfolding parse_roles includes_admin get_balance found_wallet
  get_wallet user_id requester_id roles_header db =
      if not (or_empty requester_id == user_id)
        && not (includes_admin (parse_roles (or_empty roles_header)))
      then throw (http (forbidden "Access denied")) db
      else (call unhandled (D.transaction (Option UserWalletEntity) (get_balance T user_id))
            >>= found_wallet)
          db

  unfoldable pub top_up_wallet : ℕ → String → ℕ → Option String → Handling WalletResult
  unfolding parse_roles includes_admin top_up wallet_result
  top_up_wallet now user_id amount roles_header db =
      if includes_admin (parse_roles (or_empty roles_header))
      then (call unhandled (D.transaction UserWalletEntity (top_up T now user_id amount))
            >>= λ wallet. pure (wallet_result wallet))
          db
      else throw (http (forbidden "Admin role required")) db
