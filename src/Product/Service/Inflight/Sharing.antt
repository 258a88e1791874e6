-- ===== src/Product/Service/Inflight/Sharing.antt =====
-- The map holds exactly the fetches that run, so that concurrent reads of one key share one fetch.
use Prim.Native.Nat.{◌<◌}
use native.Mathlib.Decide.{ℕ_discrete}
use native.Mathlib.Omega.{arith}
use mathlib.Core.Logic.{ite}
use shop_microservices.Prelude.{
  ℕ, String, ◌==◌, ◌≡◌, ◌≢◌, ◌⊎◌, refl, sym, ◌∙◌, none, some, Option-cases, inl, inr, List, [], ◌∷◌,
  eq_iff, if◌then◌else◌,
}
use shop_microservices.Product.Service.Inflight.{
  InflightFetch, Inflight, get_promise, delete_key, set_promise, key_of, without, dedup, finish,
  Event, call, settled, start, run,
}

get_promise-delete_key :
    (k j : String) (es : List InflightFetch)
    → get_promise j (delete_key k es) ≡ (if k == j then none else get_promise j es)
unfolding get_promise delete_key
get_promise-delete_key k j [] = ground arith
get_promise-delete_key k j (e ∷ es) =
    ground (arith, get_promise-delete_key k j es, eq_iff k j, eq_iff e.key k, eq_iff e.key j)

get_promise-set_promise :
    (k j : String) (p : ℕ) (es : List InflightFetch)
    → get_promise j (set_promise k p es) ≡ (if k == j then some p else get_promise j es)
unfolding get_promise set_promise
get_promise-set_promise k j p es = ground (arith, get_promise-delete_key k j es)

key_of-without :
    (p q : ℕ) (fs : List InflightFetch)
    → key_of q (without p fs) ≡ ite (ℕ_discrete p q) none (key_of q fs)
unfolding key_of without
key_of-without p q [] = ground arith
key_of-without p q (f ∷ fs) = ground (arith, key_of-without p q fs)

-- The map holds exactly the fetches that run, and their promises are older than the next one.
pub record IsExact (s : Inflight) : Type 0 where
  pub known : (k : String) (p : ℕ) → get_promise k s.entries ≡ some p → key_of p s.running ≡ some k
  pub listed : (k : String) (p : ℕ) → key_of p s.running ≡ some k → get_promise k s.entries ≡ some p
  pub older : (k : String) (p : ℕ) → key_of p s.running ≡ some k → p < s.next

dedup-IsExact : (key : String) (s : Inflight) → IsExact s → IsExact (dedup key s).1
unfolding dedup key_of
dedup-IsExact key s x = elim (Option-cases (get_promise key s.entries)) [
  | inr (p, found) ↦ rw (dedup, found) x
  | inl free ↦
      rw (dedup, free)
        record {
          known = λ k p h. ground (
            arith,
            get_promise-set_promise key k s.next s.entries,
            eq_iff key k,
            x.known k p,
            x.older k p,
          );
          listed = λ k p h. ground (
            arith,
            get_promise-set_promise key k s.next s.entries,
            eq_iff key k,
            x.listed k p,
            x.older k p,
          );
          older = λ k p h. ground (arith, x.older k p);
        }
]

finish-IsExact : (p : ℕ) (s : Inflight) → IsExact s → IsExact (finish p s)
unfolding finish
finish-IsExact p s x = elim (Option-cases (key_of p s.running)) [
  | inl over ↦ rw (finish, over) x
  | inr (key, runs) ↦
      rw (finish, runs)
        record {
          known = λ k q h. ground (
            arith,
            get_promise-delete_key key k s.entries,
            key_of-without p q s.running,
            eq_iff key k,
            x.known k q,
            x.listed key p runs,
          );
          listed = λ k q h. ground (
            arith,
            get_promise-delete_key key k s.entries,
            key_of-without p q s.running,
            eq_iff key k,
            x.listed k q,
            x.listed key p runs,
          );
          older = λ k q h. ground (arith, key_of-without p q s.running, x.older k q);
        }
]

run-IsExact : (es : List Event) (s : Inflight) → IsExact s → IsExact (run es s)
unfolding run
run-IsExact [] s x = x
run-IsExact (call key ∷ es) s x = run-IsExact es (dedup key s).1 (dedup-IsExact key s x)
run-IsExact (settled p ∷ es) s x = run-IsExact es (finish p s) (finish-IsExact p s x)

start-IsExact : IsExact start
unfolding get_promise key_of
start-IsExact = record { known = λ k p h. cc; listed = λ k p h. cc; older = λ k p h. cc }

-- No fetch of this key runs.
abbrev pub Idle : String → Inflight → Type 0
Idle key s = (p : ℕ) → key_of p s.running ≢ some key

-- This is the one fetch of the key that runs.
abbrev pub Only : String → ℕ → Inflight → Type 0
Only key p s = (key_of p s.running ≡ some key) × ((q : ℕ) → key_of q s.running ≡ some key → q ≡ p)

key_of-Only :
    (key : String) (p : ℕ) (s : Inflight) → IsExact s → key_of p s.running ≡ some key → Only key p s
key_of-Only key p s x runs =
    (runs, λ q other. cc (sym (x.listed key q other) ∙ x.listed key p runs))

-- The fetch that runs is shared, and where none runs one is started.
abbrev pub Shares : String → Inflight → ℕ → Inflight → Type 0
Shares key s p s' =
    (key_of p s.running ≡ some key) × (s' ≡ s)
    ⊎ Idle key s × (p ≡ s.next) × (s'.running ≡ record { key = key; promise = p } ∷ s.running)

dedup-Shares :
    (key : String) (s : Inflight) → IsExact s → Shares key s (dedup key s).0 (dedup key s).1
unfolding dedup
dedup-Shares key s x = elim (Option-cases (get_promise key s.entries)) [
  | inr (p, found) ↦ rw (dedup, found) (inl (x.known key p found, refl))
  | inl free ↦ rw (dedup, free) (inr (λ p runs. cc (sym free ∙ x.listed key p runs), refl, refl))
]

dedup-runs :
    (key : String) (s : Inflight)
    → IsExact s
    → key_of (dedup key s).0 (dedup key s).1.running ≡ some key
unfolding dedup key_of
dedup-runs key s x = elim (Option-cases (get_promise key s.entries)) [
  | inr (p, found) ↦ rw (dedup, found) (x.known key p found)
  | inl free ↦ rw (dedup, free) (ground arith)
]

finish-Idle :
    (key : String) (p : ℕ) (s : Inflight)
    → IsExact s
    → key_of p s.running ≡ some key
    → Idle key (finish p s) × (get_promise key (finish p s).entries ≡ none)
unfolding finish
finish-Idle key p s x runs =
    rw (finish, runs)
      (
        λ q other. ground (arith, key_of-without p q s.running, (key_of-Only key p s x runs).1 q),
        ground (arith, get_promise-delete_key key key s.entries, eq_iff key key),
      )

-- However calls and settlements have been interleaved, a call of `dedup` joins the fetch of its
-- key that runs, changing nothing, or starts one with a new promise if none runs. After the call
-- exactly one fetch of the key runs, the one whose promise the call has, and when it settles, with
-- a result or an error, no fetch of the key runs and the key is free again.
pub dedup-Shares_always :
    (es : List Event) (key : String)
    → let s = run es start in
      let out = dedup key s in
      Shares key s out.0 out.1
      × Only key out.0 out.1
      × Idle key (finish out.0 out.1)
      × (get_promise key (finish out.0 out.1).entries ≡ none)
dedup-Shares_always es key =
    let s = run es start in
    let x = run-IsExact es start start-IsExact in
    let x' = dedup-IsExact key s x in
    let runs = dedup-runs key s x in
    let (idle, free) = finish-Idle key (dedup key s).0 (dedup key s).1 x' runs in
    (dedup-Shares key s x, key_of-Only key (dedup key s).0 (dedup key s).1 x' runs, idle, free)
