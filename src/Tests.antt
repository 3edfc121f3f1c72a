-- ===== src/Tests.antt =====
-- Concrete runs of the modelled code, and the theorems at concrete inputs.
mod Crash
mod Pool
mod Table
mod Iteration
mod Nodes
mod Trees
mod Words
mod Modes
