-- ===== src/Shared/InternalGuard.antt =====
-- packages/shared/src/guards/internal.guard.ts, which every service installs. `expected` is the
-- service's INTERNAL_SECRET.
use shop_microservices.Prelude.{
  String, ◌==◌, Bool, true, ◌||◌, not, Option, none, some, if◌then◌else◌,
}
use shop_microservices.Exec.{ok, err}
use shop_microservices.Http.{Headers, get_header, internal_secret_header, Answer, unauthorized}

-- `!secret || secret !== expected`
unfoldable pub is_wrong : Option String → String → Bool
is_wrong none expected = true
is_wrong (some secret) expected = secret == "" || not (secret == expected)

unfoldable pub can_activate : Bool → Bool → String → Headers → Answer (Unit {0})
unfolding is_wrong get_header
can_activate is_http is_public expected headers =
    if not is_http || is_public
    then ok tt
    else if is_wrong (get_header internal_secret_header headers) expected
    then err (unauthorized "Missing or invalid internal secret")
    else ok tt
