-- ===== src/Prelude/Collections.antt =====
-- Rust's ordered collections: `BTreeSet` and `BTreeMap` as lists in the order of their keys, which
-- is the order in which a loop over them runs. The laws below do not depend on that order.
mod Sets
mod Maps
pub use Sets.{
  Ord, eq_test_refl, contains-place, contains-set_insert, contains-set_union, contains-to_set,
  length-set_insert, to_set-distinct, set_insert-distinct, length-set_insert_new, set_union-append,
  All-of_contains, contains-of_All,
}
unfoldable pub use Sets.{contains, place, set_insert, set_union, to_set, distinct}
pub use Maps.{
  BTreeMap, HasEntry, map_keys, map_values, contains_key-get, get-contains_key,
  contains_key-false-get, contains-keys, get-map_insert, contains_key-map_insert, length-map_insert,
  get-HasEntry, HasEntry-get, All-HasEntry,
}
unfoldable pub use Maps.{map_get, contains_key, map_replace, map_place, map_insert}
