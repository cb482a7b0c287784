-- ===== src/Collections.antt =====
-- The standard library's maps, as far as the program uses them: `BTreeMap` in SortedMap and
-- `HashMap` in HashMap.
pub mod SortedMap
pub mod HashMap
