-- ===== src/McSim.antt =====
-- perf_simulation/McSim: the timing simulator. Modelled are the trackers of row activations in the
-- memory controller.
pub mod Graphene
pub mod Hydra
pub mod Abacus
pub mod BlockHammer
pub mod Hash
pub mod Controller
pub mod Tlb
mod Tests
