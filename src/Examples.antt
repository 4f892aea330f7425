-- ===== src/Examples.antt =====
-- Concrete groups, heaps and thread tables on which the theorems apply.
mod Groups
mod Pair
mod PairHeaps
mod Cycle
mod Shared
mod Stops
mod Heaps
mod Tables
mod Pages
mod LargePages
