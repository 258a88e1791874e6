-- ===== src/Gateway/Jwt/Cached.antt =====
-- The cache of the strategy against the tokens.
use Prim.Native.String.{count}
use text.Mathlib.TextLemmas.{append_cancel_left, append_inj}
use shop_microservices.Prelude.Decimal.Reading.{show_number_inj}
use shop_microservices.Prelude.{
  ap, ℕ, ◌*◌, String, ◌≡◌, refl, sym, ◌∙◌, Option, none, some, List, [], ◌∷◌, ◌⊎◌, inl, inr, ltb,
  Option-cases, Bool-cases,
}
use shop_microservices.Http.{RequestUser}
use shop_microservices.Gateway.Jwt.{
  show_claim, JwtPayload, UserCache, CacheReply, hit, miss, unavailable, cache_key, user_of,
  seconds_left, remember, validate, forget,
}

CacheReply-cases :
    (r : CacheReply) → ((u : RequestUser) × (r ≡ hit u)) ⊎ ((r ≡ miss) ⊎ (r ≡ unavailable))
CacheReply-cases (hit u) = inl (u, refl)
CacheReply-cases miss = inr (inl refl)
CacheReply-cases unavailable = inr (inr refl)

-- What happens to the cache, each at a time: a request with a verified token, and a logout.
pub data Event : Type 0 where
  request : ℕ → JwtPayload → Event
  logout : ℕ → Option JwtPayload → Event

module _ (C : UserCache) where
  -- The users that the strategy gives to the requests.
  pub users : List Event → C.Store → List RequestUser
  users [] s = []
  users (request now payload ∷ events) s =
      (validate C now payload s).0 ∷ users events (validate C now payload s).1
  users (logout now payload ∷ events) s = users events (forget C now payload s)

-- The users without a cache.
pub expected : List Event → List RequestUser
expected [] = []
expected (request now payload ∷ events) = user_of payload ∷ expected events
expected (logout now payload ∷ events) = expected events

-- What is relied on of auth-service and the JWT library: a token is signed for a user whose id is a
-- uuid and holds the second of its issue; of one user, the tokens of one second have the same email
-- and roles.
pub record Issuing (Issued : JwtPayload → Type 0) : Type 0 where
  pub has_uuid : (p : JwtPayload) → Issued p → count p.sub ≡ 36
  pub is_dated : (p : JwtPayload) → Issued p → (iat : ℕ) × (p.iat ≡ some iat)
  pub same_claims :
      (p q : JwtPayload)
      → Issued p
      → Issued q
      → p.sub ≡ q.sub
      → p.iat ≡ q.iat
      → (p.email ≡ q.email) × (p.roles ≡ q.roles)

-- The key tells users and times of issue apart.
cache_key_inj :
    (p q : JwtPayload) (n m : ℕ)
    → count p.sub ≡ count q.sub
    → p.iat ≡ some n
    → q.iat ≡ some m
    → cache_key p ≡ cache_key q
    → (p.sub ≡ q.sub) × (p.iat ≡ q.iat)
unfolding cache_key show_claim
cache_key_inj p q n m long at at' same =
    let rest = append_cancel_left "jwt:" _ _ same in
    let (subs, ends) = append_inj rest long in
    let claims = append_cancel_left ":" _ _ ends in
    let times = sym (ap show_claim at) ∙ claims ∙ ap show_claim at' in
    (subs, at ∙ ap some (show_number_inj n m times) ∙ sym at')

-- Two issued tokens with the same key name the same user.
key_determines :
    (Issued : JwtPayload → Type 0) (p q : JwtPayload)
    → Issuing Issued
    → Issued p
    → Issued q
    → cache_key p ≡ cache_key q
    → user_of p ≡ user_of q
unfolding user_of
key_determines Issued p q issuing issued issued' same =
    let (n, at) = issuing.is_dated p issued in
    let (m, at') = issuing.is_dated q issued' in
    let (subs, times) =
      cache_key_inj p q n m (issuing.has_uuid p issued ∙ sym (issuing.has_uuid q issued')) at at'
        same in
    let (emails, roles) = issuing.same_claims p q issued issued' subs times in
    cc (subs, emails, roles)

module _ (C : UserCache) (Issued : JwtPayload → Type 0) where
  -- What is cached, now or later, is the user of an issued token under its key.
  abbrev pub IsSound : C.Store → Type 0
  IsSound s =
      (now : ℕ) (k : String) (u : RequestUser)
      → C.get now s k ≡ hit u
      → (p : JwtPayload) × Issued p × (cache_key p ≡ k) × (user_of p ≡ u)

  -- The tokens of the requests were issued.
  pub data AllIssued : List Event → Type 0 where
    no_event : AllIssued []
    issued_request :
        {now : ℕ} {p : JwtPayload} {events : List Event}
        → Issued p
        → AllIssued events
        → AllIssued (request now p ∷ events)
    any_logout :
        {now : ℕ} {p : Option JwtPayload} {events : List Event}
        → AllIssued events
        → AllIssued (logout now p ∷ events)

  set-IsSound :
      (now ttl : ℕ) (p : JwtPayload) (s s' : C.Store)
      → Issued p
      → IsSound s
      → C.set now s (cache_key p) (user_of p) ttl ≡ some s'
      → IsSound s'
  set-IsSound now ttl p s s' issued sound written later k u cached =
      elim (C.get-set now later ttl s s' (cache_key p) k (user_of p) u written cached) [
        | inl (key, user) ↦ (p, issued, sym key, sym user)
        | inr old ↦ sound later k u old
      ]

  remember-IsSound :
      (now : ℕ) (p : JwtPayload) (s : C.Store) → Issued p → IsSound s → IsSound (remember C now p s)
  unfolding remember
  remember-IsSound now p s issued sound =
      let ttl = seconds_left now p.exp * 1000 in
      elim (Bool-cases (ltb 0 ttl)) [
        | inr over ↦ rw (remember, over) sound
        | inl valid ↦ elim (Option-cases (C.set now s (cache_key p) (user_of p) ttl)) [
          | inl down ↦ rw (remember, valid, down) sound
          | inr (s', written) ↦
              rw (remember, valid, written) (set-IsSound now ttl p s s' issued sound written)
        ]
      ]

  del-IsSound :
      (now : ℕ) (p : JwtPayload) (s : C.Store)
      → IsSound s
      → IsSound (elim (C.del now s (cache_key p)) [ none ↦ s | some s' ↦ s' ])
  del-IsSound now p s sound = elim (Option-cases (C.del now s (cache_key p))) [
    | inl down ↦ rw down sound
    | inr (s', deleted) ↦ rw deleted λ later k u cached.
        sound later k u (C.get-del now later s s' (cache_key p) k u deleted cached)
  ]

  forget-IsSound :
      (now : ℕ) (p : Option JwtPayload) (s : C.Store) → IsSound s → IsSound (forget C now p s)
  unfolding forget
  forget-IsSound now none s sound = sound
  forget-IsSound now (some p) s sound = elim (Option-cases p.iat) [
    | inl absent ↦ rw (forget, absent) sound
    | inr (iat, known) ↦ elim (Bool-cases (ltb 0 iat)) [
      | inr falsy ↦ rw (forget, known, falsy) sound
      | inl truthy ↦ rw (forget, known, truthy) (del-IsSound now p s sound)
    ]
  ]

  -- A request gets the user of its token, and the cache stays sound.
  abbrev Validated : ℕ → JwtPayload → C.Store → Type 0
  Validated now p s = ((validate C now p s).0 ≡ user_of p) × IsSound (validate C now p s).1

  validate-Validated :
      (now : ℕ) (p : JwtPayload) (s : C.Store)
      → Issuing Issued
      → Issued p
      → IsSound s
      → Validated now p s
  unfolding validate
  validate-Validated now p s issuing issued sound =
      elim (CacheReply-cases (C.get now s (cache_key p))) [
        | inl (u, cached) ↦
            let (q, issued', key, user) = sound now (cache_key p) u cached in
            rw (validate, cached)
              (sym user ∙ key_determines Issued q p issuing issued' issued key, sound)
        | inr (inl missed) ↦ rw (validate, missed) (refl, remember-IsSound now p s issued sound)
        | inr (inr down) ↦ rw (validate, down) (refl, remember-IsSound now p s issued sound)
      ]

  -- The cache never changes who a request is from: from a cache that is sound, such as an empty
  -- one, whatever tokens are presented and forgotten in whatever order, with a Redis that may be
  -- down at any call and drop any entry, each request gets the user that its own token names. It
  -- asks that the tokens were issued, for users with uuids and with the second of issue, and that the
  -- tokens that one user gets in one second have the same email and roles.
  pub users-expected :
      (events : List Event) (s : C.Store)
      → Issuing Issued
      → AllIssued events
      → IsSound s
      → users C events s ≡ expected events
  unfolding users expected
  users-expected [] s issuing issued sound = refl
  users-expected (request now p ∷ events) s issuing (issued_request issued rest) sound =
      let (user, sound') = validate-Validated now p s issuing issued sound in
      rw (user, users-expected events (validate C now p s).1 issuing rest sound')
  users-expected (logout now p ∷ events) s issuing (any_logout rest) sound =
      users-expected events (forget C now p s) issuing rest (forget-IsSound now p s sound)
