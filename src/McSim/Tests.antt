-- ===== src/McSim/Tests.antt =====
-- The theorems on the simulator McSim, at concrete inputs.
mod Trackers
mod Control
