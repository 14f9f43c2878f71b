-- ===== src/McSim/Controller.antt =====
-- Parts of the memory controller, perf_simulation/McSim/PTSMemoryController.cc, beside the trackers.
pub mod Bliss
pub mod Hammer
pub mod Prac
pub mod Admit
pub mod Address
pub mod Dispatch
