-- ===== src/Product/Service/Inflight.antt =====
-- `dedup` of products.service.ts: the map `inflight` from a key to the promise of the fetch that runs
-- for it, and the order in which calls come in and fetches finish. A promise is its number. The fetch
-- itself is what `find_by_id` of the parent does on a miss.
pub mod Sharing
use native.Mathlib.Decide.{ℕ_discrete}
use mathlib.Core.Logic.{ite}
use shop_microservices.Prelude.{
  ℕ, suc, String, ◌==◌, none, some, Option, List, [], ◌∷◌, if◌then◌else◌,
}

-- An entry of the map, and a fetch that has not settled.
pub record InflightFetch : Type 0 where
  pub key : String
  pub promise : ℕ

pub record Inflight : Type 0 where
  pub entries : List InflightFetch
  pub running : List InflightFetch
  pub next : ℕ

unfoldable pub get_promise : String → List InflightFetch → Option ℕ
get_promise key [] = none
get_promise key (e ∷ es) =
    let rest = get_promise key es in if e.key == key then some e.promise else rest

unfoldable pub delete_key : String → List InflightFetch → List InflightFetch
delete_key key [] = []
delete_key key (e ∷ es) = let rest = delete_key key es in if e.key == key then rest else e ∷ rest

unfoldable pub set_promise : String → ℕ → List InflightFetch → List InflightFetch
unfolding delete_key
set_promise key promise es = record { key = key; promise = promise } ∷ delete_key key es

-- The key that a promise is being fetched for.
unfoldable pub key_of : ℕ → List InflightFetch → Option String
key_of p [] = none
key_of p (f ∷ fs) = ite (ℕ_discrete f.promise p) (some f.key) (key_of p fs)

unfoldable pub without : ℕ → List InflightFetch → List InflightFetch
without p [] = []
without p (f ∷ fs) = ite (ℕ_discrete f.promise p) (without p fs) (f ∷ without p fs)

-- A call that finds no promise runs `fn`, and puts its promise into the map.
unfoldable pub dedup : String → Inflight → ℕ × Inflight
unfolding get_promise set_promise
dedup key s = elim (get_promise key s.entries) [
  | some existing ↦ (existing, s)
  | none ↦ (
    s.next,
    record {
      entries = set_promise key s.next s.entries;
      running = record { key = key; promise = s.next } ∷ s.running;
      next = suc s.next;
    },
  )
]

-- `fn().finally(() => this.inflight.delete(key))`: the fetch is over, with a result or an
-- error, and the callback has run.
unfoldable pub finish : ℕ → Inflight → Inflight
unfolding key_of without delete_key
finish p s = elim (key_of p s.running) [
  | none ↦ s
  | some key ↦ record s { entries = delete_key key s.entries; running = without p s.running }
]

pub data Event : Type 0 where
  call : String → Event
  settled : ℕ → Event

abbrev pub start : Inflight
start = record { entries = []; running = []; next = 0 }

unfoldable pub run : List Event → Inflight → Inflight
unfolding dedup finish
run [] s = s
run (call key ∷ es) s = run es (dedup key s).1
run (settled p ∷ es) s = run es (finish p s)
