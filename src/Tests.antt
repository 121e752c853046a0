-- ===== src/Tests.antt =====
-- Runs of the definitions at concrete inputs, and the theorems at inputs that meet their
-- hypotheses.
mod Order
mod Leaf
mod Page
mod Tree
mod Whole
mod Store
mod Small
mod Blocks
