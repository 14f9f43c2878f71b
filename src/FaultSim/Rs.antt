-- ===== src/FaultSim/Rs.antt =====
-- The Reed-Solomon decoders `error_correction_OOC` and `error_correction_QPC` of
-- reliability_eval/Fault_sim.cpp. The two functions have one text but for their constants and one
-- test, which the record `Code` holds.
pub mod Code
pub mod Syndromes
pub mod Berlekamp
pub mod Chien
pub mod Forney
pub mod Decode
