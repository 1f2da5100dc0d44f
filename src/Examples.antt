-- ===== src/Examples.antt =====
-- Runs of the models on concrete inputs, and the theorems applied to some.
mod Encodings
mod ParallelMoves
mod Ion
mod Checker
mod Output
mod IndexSets
mod Trees
mod Spill
mod Bundles
mod Orders
mod Inputs
