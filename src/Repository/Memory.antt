-- ===== src/Repository/Memory.antt =====
-- A table held in memory, which meets the laws of `Repository`: the parameter's instance in tests.
pub mod Rows
pub mod Laws
use shop_microservices.Prelude.{String, Bool, List, ◌∷◌}
use shop_microservices.Repository.{Repository, Unique}
use Rows
use Laws

module _ (Row : Type 0) (key : Row → String) where
  abbrev pub memory : Repository Row key
  memory = record {
    Table = List Row;
    find_one = Rows.find_one Row key;
    find_where = Rows.find_where Row key;
    find_many = Rows.find_many Row key;
    find_and_count = Rows.find_and_count Row key;
    find_and_count_sound = Laws.find_and_count_sound_lem Row key;
    length-find_and_count = Laws.length-find_and_count_lem Row key;
    save = λ t r. r ∷ t;
    update = Rows.update Row key;
    generate = Rows.generate Row key;
    key-find_one = Rows.key-find_one_lem Row key;
    find_where_sound = Laws.find_where_sound_lem Row key;
    find_where_complete = Laws.find_where_complete_lem Row key;
    find_many_sound = Laws.find_many_sound_lem Row key;
    length-find_many = Laws.length-find_many_lem Row key;
    find_many_distinct = Laws.find_many_distinct_lem Row key;
    find_many_complete = Laws.find_many_complete_lem Row key;
    find_one-save = Laws.find_one-save_lem Row key;
    find_one-update = Rows.find_one-update_lem Row key;
    find_one-generate = Laws.find_one-generate_lem Row key;
    generate-ne-empty = Laws.generate-ne-empty_lem Row key;
  }

  abbrev pub memory_unique : (clash : Row → Row → Bool) → Unique memory clash
  memory_unique clash = record {
    insert = Laws.insert Row key clash;
    insert_some = Laws.insert_some_lem Row key clash;
    insert_none = Laws.insert_none_lem Row key clash;
    insert_clash = Laws.insert_clash_lem Row key clash;
  }
