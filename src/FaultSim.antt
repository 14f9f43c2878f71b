-- ===== src/FaultSim.antt =====
-- reliability_eval/Fault_sim.cpp: the Monte Carlo simulator of DRAM faults under rank-level ECC.
pub mod Config
pub mod Field
pub mod Polynomials
pub mod Symbols
pub mod Amd
pub mod Rs
pub mod Grid
pub mod Inject
pub mod Transfer
pub mod Run
mod Tests
