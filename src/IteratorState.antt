-- ===== src/IteratorState.antt =====
-- instanceiterator/iterator_state.go: what the iterator knows of each service instance.
-- The order of Go's iteration over the map `states` changes no result; here it is that of the
-- list. `canaryLimit` is not negative: `canaries` of configurator.go refuses a negative number.
pub mod Data
pub mod Queries
pub mod Updates
pub mod Tally
pub mod Entry
