-- ===== src/Tests.antt =====
-- Runs of the model at concrete inputs, and the theorems at inputs that meet their hypotheses.
mod Status
mod Sparse
mod Checkpoint
mod Nlp
mod Gpu
mod Limits
mod Pool
mod Conflict
mod Iis
mod Engine
mod Mps
mod Options
