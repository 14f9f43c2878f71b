-- ===== src/Lib.antt =====
-- Verification library of RowArmor.
--
-- FaultSim models reliability_eval/Fault_sim.cpp, the Monte Carlo simulator of DRAM faults, whole but
-- for the on-die code, which the program never calls.
--   FaultSim/Config    the constants and enumerations
--   FaultSim/Field     getAbit, generate_primitive_poly, index_of; gf_row is primitive_poly[0], which
--                      the decoders take as an argument `row`, with the laws of IsPowerTable
--   FaultSim/Polynomials  conversion_to_int_format and the loop that reads the polynomials
--   FaultSim/Symbols   the symbols of a codeword and the syndromes
--   FaultSim/Amd       error_correction_AMDCHIPKILL
--   FaultSim/Rs        error_correction_OOC and error_correction_QPC, one after another the syndromes,
--                      the iteration of Berlekamp and Massey, the search for roots and the error
--                      values; in what the two differ stands in the record Code
--   FaultSim/Grid      Chip_array, a list of rows of cells
--   FaultSim/Inject    the functions error_injection_*; the values of rand() are an input list, and
--                      `none` is answered where it is too short
--   FaultSim/Transfer  the copies between the array and a codeword, and SDC_check
--   FaultSim/Run       main: one iteration by kind of code, and the counters over all iterations
-- A run draws the faults (Inject), loads each transfer block into a codeword, decodes it (Amd or Rs),
-- stores it back, checks the array and combines the results of the blocks.
--
-- Pthread/Mutex models perf_simulation/Pthread/PthreadMutex.cpp: init, lock, trylock, unlock and the
-- queues of spinning threads. A mutex is named by a number for its address, the state holds a table of
-- the mutexes and one of the queues, and `none` is a failed ASSERTX.
--
-- Pthread/Barrier and Pthread/Cond model perf_simulation/Pthread/PthreadBarrier.cpp and
-- perf_simulation/Pthread/PthreadCond.cpp in the same way.
--
-- McSim models parts of perf_simulation/McSim, the timing simulator: what the memory controller,
-- PTSMemoryController.cc, does against row hammering, and the replacement in PTSTLB.cc.
--   McSim/Graphene     classes Graphene and RRS, which count in the same table
--   McSim/Hydra        class Hydra: counters of groups, of rows, and the cache of these
--   McSim/Abacus       class ABACuS: one counter and one vector of bank bits for each entry
--   McSim/BlockHammer  classes RowBlockerCBF (Cbf), RowBlockerHB (History), AttackThrottler
--                      (Throttler) and BlockHammer, for one bank
--   McSim/Hash         PTSHash.cc: class H3, the hash functions of the filters
--   McSim/Tlb          class TLBL1: its entries
--   McSim/Controller   classes Bliss and RowHammerGen (Hammer), the counters of PRAC and RAA (Prac),
--                      the loop over the requests in pre_processing (Admit), the bank of an address
--                      (Address), and what an activation does in process_event (Dispatch)
-- An activation of a row calls the tracker of the chosen defence (Dispatch), which answers whether
-- neighbours are to be refreshed or rows swapped; the trackers are reset at the refresh windows. A
-- std::map is a function into Option or a sorted list, a deque or vector a list. What is computed with
-- floating-point numbers, the delay and the quota of BlockHammer, is a parameter. The loop of
-- pre_processing runs on fuel, one round for each request and one more where it ends at all.
--
-- Numbers are those of the machine, with the wrap-around written out where a shift or a counter can
-- reach it; `int` values that can be -1 are integers. A local that the code reads without having
-- written it is a parameter (`junk`). The loop of Berlekamp and Massey runs on fuel 2 * tt; the other
-- loops have the bounds of the source.
--
-- Not modelled: error_correction_oecc and the reading of its matrix, the output files, the
-- destruction of a mutex, which only reports, the other Pthread components, of McSim the caches, the
-- directory, the crossbar, the cores, and the scheduling, timing and predictors of the memory
-- controller, the trace compression, which is another project's, and the scripts.
pub mod Base
pub mod FaultSim
pub mod Pthread
pub mod McSim
