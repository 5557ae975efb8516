-- ===== src/Base/Map.antt =====
-- `HashMap<String, V>` as an association list in an arbitrary order, and `BTreeSet<(String, ItemId)>`
-- as a list in ascending order.
pub mod Assoc
pub mod PairSet
