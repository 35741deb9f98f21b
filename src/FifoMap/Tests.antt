-- ===== src/FifoMap/Tests.antt =====
-- The theorems on FiFoMap at concrete maps.
use pp_cpp_common.Common.{==_iff, ℕ, ◌==◌, ◌≡◌}
use pp_cpp_common.FifoMap.{Eq, FifoMap, empty_map, set}
use pp_cpp_common.FifoMap.Entries.{set_entry}
use pp_cpp_common.FifoMap.Refinement.{IsIndexed, empty_map-IsIndexed, entries-set, set-IsIndexed}

instance nat_eq : Eq ℕ
nat_eq = record { beq = ◌==◌; beq_iff = ==_iff }

abbrev one : FifoMap ℕ ℕ
one = set empty_map 5 50

abbrev two : FifoMap ℕ ℕ
two = set one 6 60

one-IsIndexed : IsIndexed one
one-IsIndexed = set-IsIndexed empty_map 5 50 empty_map-IsIndexed

two-IsIndexed : IsIndexed two
two-IsIndexed = set-IsIndexed one 6 60 one-IsIndexed

entries-set_example : (set two 5 7).entries ≡ set_entry 5 7 two.entries
entries-set_example = entries-set two 5 7 two-IsIndexed
