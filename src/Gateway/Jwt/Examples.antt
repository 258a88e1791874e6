-- ===== src/Gateway/Jwt/Examples.antt =====
-- The strategy with a cache that is an association list, and the tokens of two users.
use Prim.Native.String.{count}
use shop_microservices.Prelude.{
  ℕ, String, ◌==◌, ◌≡◌, refl, sym, ◌∙◌, ap, subst, Option, none, some, List, [], ◌∷◌, ◌⊎◌, inl, inr,
  Bool-cases, eq_iff, if◌then◌else◌, false,
}
use shop_microservices.Shared.{Role}
use shop_microservices.Http.{RequestUser}
use shop_microservices.Gateway.Jwt.{JwtPayload, UserCache, CacheReply, hit, miss}
use shop_microservices.Gateway.Jwt.Cached.{
  Event, request, logout, users, expected, Issuing, IsSound, AllIssued, no_event, issued_request,
  any_logout, users-expected,
}

-- A deleted entry hides the earlier ones under its key.
abbrev Entries : Type 0
Entries = List (String × Option RequestUser)

abbrev reply_of : Option RequestUser → CacheReply
reply_of none = miss
reply_of (some user) = hit user

look : String → Entries → CacheReply
look k [] = miss
look k ((key, entry) ∷ entries) = if key == k then reply_of entry else look k entries

look-set :
    (k k' : String) (u v : RequestUser) (entries : Entries)
    → look k' ((k, some u) ∷ entries) ≡ hit v
    → ((k' ≡ k) × (v ≡ u)) ⊎ (look k' entries ≡ hit v)
unfolding look
look-set k k' u v entries h = elim (Bool-cases (k == k')) [
  | inl same ↦ inl (sym ((eq_iff k k').0 same), cc (rw (look, same) at h))
  | inr other ↦ inr (rw (look, other) at h)
]

look-del :
    (k k' : String) (v : RequestUser) (entries : Entries)
    → look k' ((k, none) ∷ entries) ≡ hit v
    → look k' entries ≡ hit v
unfolding look
look-del k k' v entries h = elim (Bool-cases (k == k')) [
  | inl same ↦ absurd (cc (rw (look, same) at h))
  | inr other ↦ rw (look, other) at h
]

abbrev cache : UserCache
cache = record {
  Store = Entries;
  get = λ now s k. look k s;
  set = λ now s k user ttl. some ((k, some user) ∷ s);
  del = λ now s k. some ((k, none) ∷ s);
  get-set = λ now later ttl s s' k k' u v written cached.
      look-set k k' u v s (subst (λ x. look k' x ≡ hit v) (sym (cc written)) cached);
  get-del = λ now later s s' k k' v deleted cached.
      look-del k k' v s (subst (λ x. look k' x ≡ hit v) (sym (cc deleted)) cached);
}

abbrev token_of : String → Role → JwtPayload
token_of id role = record {
  sub = id;
  email = "someone@shop.test";
  roles = some (role ∷ []);
  iat = some 5;
  exp = some 605;
}

abbrev ada : JwtPayload
ada = token_of "0b6e3f52-8f0c-4a53-9d0e-5a1c7f6e2b11" Role.admin

abbrev bob : JwtPayload
bob = token_of "7c9d1a40-52be-4c1f-8a67-3e2f9b0d4c22" Role.user

abbrev Issued : JwtPayload → Type 0
Issued p = (p ≡ ada) ⊎ (p ≡ bob)

users_differ : (JwtPayload.sub ada == JwtPayload.sub bob) ≡ false
users_differ = refl

apart : JwtPayload.sub ada ≡ JwtPayload.sub bob → ⊥
apart same = cc (users_differ, (eq_iff (JwtPayload.sub ada) (JwtPayload.sub bob)).1 same)

has_uuid : (p : JwtPayload) → Issued p → count p.sub ≡ 36
has_uuid p (inl a) = ap (λ (x : JwtPayload). count x.sub) a
has_uuid p (inr b) = ap (λ (x : JwtPayload). count x.sub) b

is_dated : (p : JwtPayload) → Issued p → (iat : ℕ) × (p.iat ≡ some iat)
is_dated p (inl a) = (5, ap (λ (x : JwtPayload). x.iat) a)
is_dated p (inr b) = (5, ap (λ (x : JwtPayload). x.iat) b)

same_claims :
    (p q : JwtPayload)
    → Issued p
    → Issued q
    → p.sub ≡ q.sub
    → p.iat ≡ q.iat
    → (p.email ≡ q.email) × (p.roles ≡ q.roles)
same_claims p q (inl a) (inl b) subs times = (cc (a, b), cc (a, b))
same_claims p q (inr a) (inr b) subs times = (cc (a, b), cc (a, b))
same_claims p q (inl a) (inr b) subs times =
    absurd
      (apart (sym (ap (λ (x : JwtPayload). x.sub) a) ∙ subs ∙ ap (λ (x : JwtPayload). x.sub) b))
same_claims p q (inr a) (inl b) subs times =
    absurd
      (apart (sym (ap (λ (x : JwtPayload). x.sub) b) ∙ sym subs ∙ ap (λ (x : JwtPayload). x.sub) a))

issuing : Issuing Issued
issuing = record { has_uuid = has_uuid; is_dated = is_dated; same_claims = same_claims }

abbrev events : List Event
events =
    request 1000 ada
    ∷ request 1100 bob
    ∷ request 2000 ada
    ∷ logout 3000 (some bob)
    ∷ request 4000 bob
    ∷ []

issued : AllIssued cache Issued events
issued = issued_request (inl refl) (
    issued_request (inr refl)
      (issued_request (inl refl) (any_logout (issued_request (inr refl) no_event))))

empty-IsSound : IsSound cache Issued []
unfolding look
empty-IsSound now k u cached = absurd (cc cached)

users-expected_example : users cache events [] ≡ expected events
users-expected_example = users-expected cache Issued events [] issuing issued empty-IsSound
