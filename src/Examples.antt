-- ===== src/Examples.antt =====
-- Runs of the program at concrete inputs, and the theorems at inputs that meet their hypotheses.
pub mod ContentInputs
mod SaveInputs
mod AllocInputs
mod UpdateInputs
pub mod CrashInputs
mod Everything
mod State
mod Runs
mod CacheInputs
mod LogInputs
mod QueueInputs
mod FileInputs
