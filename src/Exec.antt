-- ===== src/Exec.antt =====
-- Asynchronous methods that read and write a database and may throw. What was written before a
-- throw stays written until the transaction around it is rolled back, so the state comes back
-- beside the error too.
use shop_microservices.Prelude.{◌≡◌, refl, ◌⊎◌, inl, inr, Option, none, some}

pub data Result (E A : Type 0) : Type 0 where
  ok : A → Result E A
  err : E → Result E A

abbrev pub Exec : Type 0 → Type 0 → Type 0 → Type 0
Exec E S A = S → Result E A × S

module _ {E S A : Type 0} where
  abbrev pub pure : A → Exec E S A
  pure a s = (ok a, s)

  abbrev pub throw : E → Exec E S A
  throw e s = (err e, s)

  abbrev pub gets : (S → A) → Exec E S A
  gets f s = (ok (f s), s)

  abbrev pub lift : Result E A → Exec E S A
  lift r s = (r, s)

  -- `if (!value) throw e`
  abbrev pub or_throw : Option A → E → Exec E S A
  or_throw none e s = (err e, s)
  or_throw (some a) e s = (ok a, s)

  -- `try { body } catch (e) { handler(e) }`
  abbrev pub handle_error : (E → Exec E S A) → Result E A × S → Result E A × S
  handle_error handler (ok a, s) = (ok a, s)
  handle_error handler (err e, s) = handler e s

  abbrev pub try_catch : Exec E S A → (E → Exec E S A) → Exec E S A
  try_catch body handler s = handle_error handler (body s)

module _ {E S : Type 0} where
  abbrev pub modify : (S → S) → Exec E S (Unit {0})
  modify f s = (ok tt, f s)

module _ {E S A B : Type 0} where
  abbrev pub continue : Result E A → (A → Exec E S B) → Exec E S B
  continue (ok a) f s = f a s
  continue (err e) f s = (err e, s)

  infixl 10 ◌>>=◌ ◌>>◌
  abbrev pub ◌>>=◌ : Exec E S A → (A → Exec E S B) → Exec E S B
  ◌>>=◌ m f s = continue (m s).0 f (m s).1

  abbrev pub ◌>>◌ : Exec E S A → Exec E S B → Exec E S B
  m >> n = m >>= λ _. n

-- What a transaction leaves: the new state of a callback that returned, the old one of one that
-- threw.
module _ {E S A : Type 0} where
  abbrev pub settled : S → Result E A × S → Result E A × S
  settled s (ok a, s') = (ok a, s')
  settled s (err e, _) = (err e, s)

pub Result-cases :
    {E A : Type 0} (r : Result E A) → ((a : A) × (r ≡ ok a)) ⊎ ((e : E) × (r ≡ err e))
Result-cases (ok a) = inl (a, refl)
Result-cases (err e) = inr (e, refl)

-- `dataSource.transaction(callback)` of TypeORM: commits when the callback resolves, rolls back
-- when it rejects, and hands on the outcome.
pub record DataSource (E S : Type 0) : Type 1 where
  pub transaction : (A : Type 0) → Exec E S A → Exec E S A
  pub transaction_lem :
      (A : Type 0) (callback : Exec E S A) (s : S)
      → transaction A callback s ≡ settled s (callback s)

-- A transaction that runs beside state which no database rolls back, such as a cache.
module _ {E S C A : Type 0} where
  abbrev pub settled_beside : S → Result E A × (S × C) → Result E A × (S × C)
  settled_beside s (ok a, (s', c')) = (ok a, (s', c'))
  settled_beside s (err e, (_, c')) = (err e, (s, c'))

pub record DataSourceBeside (E S C : Type 0) : Type 1 where
  pub transaction : (A : Type 0) → Exec E (S × C) A → Exec E (S × C) A
  pub transaction_lem :
      (A : Type 0) (callback : Exec E (S × C) A) (s : S) (c : C)
      → transaction A callback (s, c) ≡ settled_beside s (callback (s, c))
