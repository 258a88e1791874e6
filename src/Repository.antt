-- ===== src/Repository.antt =====
-- What the services rely on of a TypeORM `Repository<Row>`: a table with a primary key. TypeORM and
-- PostgreSQL are not part of this repository, so a table is a parameter with the documented
-- behaviour of the calls as laws.
pub mod Memory
use shop_microservices.Prelude.{
  ℕ, ◌≤◌, ◌-◌, String, ◌==◌, ◌≡◌, ◌≢◌, Bool, true, false, Option, none, some, List, All, Distinct,
  contains, length, map, if◌then◌else◌,
}
use mathlib.Core.Option

abbrev pub Patch : Type 0 → Type 0
Patch Row = Row → Row

pub record Repository (Row : Type 0) (key : Row → String) : Type 1 where
  pub Table : Type 0
  -- `findOne({ where: { id } })`
  pub find_one : Table → String → Option Row
  -- `createQueryBuilder().where(p).getOne()`
  pub find_where : Table → (Row → Bool) → Option Row
  -- `find({ where: p, order: rank, take: limit })`
  pub find_many : Table → (Row → Bool) → (Row → ℕ) → ℕ → List Row
  -- `findAndCount({ where: p, order: createdAt, skip, take })`
  pub find_and_count : Table → (Row → Bool) → ℕ → ℕ → List Row × ℕ
  -- `save(row)` of a row that holds its primary key
  pub save : Table → Row → Table
  -- `update(id, columns)`
  pub update : Table → String → Patch Row → Table
  -- The uuid of the next inserted row.
  pub generate : Table → String
  pub key-find_one : (t : Table) (k : String) (r : Row) → find_one t k ≡ some r → key r ≡ k
  pub find_where_sound :
      (t : Table) (p : Row → Bool) (r : Row)
      → find_where t p ≡ some r
      → (p r ≡ true) × (find_one t (key r) ≡ some r)
  pub find_where_complete :
      (t : Table) (p : Row → Bool) (k : String) (r : Row)
      → find_where t p ≡ none
      → find_one t k ≡ some r
      → p r ≡ false
  pub find_many_sound :
      (t : Table) (p : Row → Bool) (rank : Row → ℕ) (limit : ℕ)
      → All (λ r. (p r ≡ true) × (find_one t (key r) ≡ some r)) (find_many t p rank limit)
  pub length-find_many :
      (t : Table) (p : Row → Bool) (rank : Row → ℕ) (limit : ℕ)
      → length (find_many t p rank limit) ≤ limit
  pub find_many_distinct :
      (t : Table) (p : Row → Bool) (rank : Row → ℕ) (limit : ℕ)
      → Distinct (map key (find_many t p rank limit))
  -- A matching row is left out only where the limit is reached.
  pub find_many_complete :
      (t : Table) (p : Row → Bool) (rank : Row → ℕ) (limit : ℕ) (k : String) (r : Row)
      → find_one t k ≡ some r
      → p r ≡ true
      → contains k (map key (find_many t p rank limit)) ≡ false
      → length (find_many t p rank limit) ≡ limit
  pub find_and_count_sound :
      (t : Table) (p : Row → Bool) (skip take : ℕ)
      → All (λ r. (p r ≡ true) × (find_one t (key r) ≡ some r)) (find_and_count t p skip take).0
  pub length-find_and_count :
      (t : Table) (p : Row → Bool) (skip take : ℕ)
      → (length (find_and_count t p skip take).0 ≤ take)
        × (length (find_and_count t p skip take).0 ≤ (find_and_count t p skip take).1 - skip)
  pub find_one-save :
      (t : Table) (r : Row) (k : String)
      → find_one (save t r) k ≡ (if key r == k then some r else find_one t k)
  pub find_one-update :
      (t : Table) (i : String) (f : Patch Row)
      → ((r : Row) → key (f r) ≡ key r)
      → (k : String)
      → find_one (update t i f) k ≡ (if i == k then Option.map f (find_one t k) else find_one t k)
  pub find_one-generate : (t : Table) → find_one t (generate t) ≡ none
  pub generate-ne-empty : (t : Table) → (generate t == "") ≡ false

-- A unique column or pair of columns: `clash a b` says that the two rows agree there. An insert that
-- would violate it is refused (error 23505).
pub record Unique {Row : Type 0} {key : Row → String} (R : Repository Row key)
    (clash : Row → Row → Bool) : Type 0 where
  pub insert : Repository.Table R → Row → Option (Repository.Table R)
  pub insert_some : (t t' : R.Table) (r : Row) → insert t r ≡ some t' → t' ≡ R.save t r
  pub insert_none :
      (t : R.Table) (r : Row)
      → insert t r ≡ none
      → (r' : Row) × (R.find_one t (key r') ≡ some r') × (clash r r' ≡ true)
  pub insert_clash :
      (t : R.Table) (r r' : Row)
      → R.find_one t (key r') ≡ some r'
      → clash r r' ≡ true
      → insert t r ≡ none
