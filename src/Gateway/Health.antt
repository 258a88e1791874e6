-- ===== src/Gateway/Health.antt =====
-- modules/health/health.module.ts with `getBreakersStatus` of proxy.service.ts. The circuit
-- breakers are those of opossum; the check of the memory is one of terminus.
use shop_microservices.Prelude.{ℕ, Bool, true, false, ◌||◌, List, [], ◌∷◌, map, if◌then◌else◌}
use shop_microservices.Exec.{Result, ok, err}
use shop_microservices.Gateway.Proxy.{ServiceName}

pub record BreakerStats : Type 0 where
  pub fires : ℕ
  pub failures : ℕ
  pub successes : ℕ
  pub rejects : ℕ

-- What opossum tells of a breaker.
pub record Breaker : Type 0 where
  pub opened : Bool
  pub half_open : Bool
  pub stats : BreakerStats

pub data BreakerState : Type 0 where
  state_open state_half_open state_closed : BreakerState

unfoldable pub state_of : Breaker → BreakerState
state_of breaker =
    if breaker.opened
    then state_open
    else if breaker.half_open
    then state_half_open
    else state_closed

abbrev pub BreakersStatus : Type 0
BreakersStatus = List (ServiceName × BreakerState × BreakerStats)

unfoldable pub get_breakers_status : List (ServiceName × Breaker) → BreakersStatus
unfolding state_of
get_breakers_status = map (λ b. (b.0, state_of b.1, b.1.stats))

unfoldable pub is_open : BreakerState → Bool
is_open state_open = true
is_open state_half_open = false
is_open state_closed = false

unfoldable pub any_open : BreakersStatus → Bool
unfolding is_open
any_open [] = false
any_open ((service, state, stats) ∷ rest) = is_open state || any_open rest

-- `up`, and the status of each breaker.
pub record HealthIndicatorResult : Type 0 where
  pub is_up : Bool
  pub breakers : BreakersStatus

-- `checkCircuitBreakers`; an error is a HealthCheckError with its causes.
unfoldable pub check_circuit_breakers :
    List (ServiceName × Breaker) → Result HealthIndicatorResult HealthIndicatorResult
unfolding get_breakers_status any_open
check_circuit_breakers breakers =
    let status = get_breakers_status breakers in
    if any_open status
    then err (record { is_up = false; breakers = status })
    else ok (record { is_up = true; breakers = status })
