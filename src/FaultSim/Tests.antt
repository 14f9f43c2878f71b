-- ===== src/FaultSim/Tests.antt =====
-- The theorems on reliability_eval/Fault_sim.cpp, applied to concrete arrays and codewords, and runs
-- of the decoders.
pub mod Decoders
pub mod Runs
pub mod Loading
