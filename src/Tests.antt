-- ===== src/Tests.antt =====
-- Runs of the model on small inputs, and the theorems at concrete inputs.
mod Puzzles
mod Sample
mod Ops
mod Engines
mod Ranges
mod Worlds
mod Signals
mod Files
mod Servers
