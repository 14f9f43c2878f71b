-- ===== src/FaultSim/Config.antt =====
-- The `#define`s and the enumerations at the top of reliability_eval/Fault_sim.cpp.
use row_armor.Base.{ℕ, Bool, ltb}

abbrev pub channel_width : ℕ
channel_width = 40

abbrev pub chip_num : ℕ
chip_num = 10

abbrev pub ooc_chip_num : ℕ
ooc_chip_num = 20

abbrev pub chip_width : ℕ
chip_width = 4

abbrev pub oecc_cw_len : ℕ
oecc_cw_len = 64

abbrev pub ooc_oecc_cw_len : ℕ
ooc_oecc_cw_len = 32

abbrev pub oecc_data_len : ℕ
oecc_data_len = 64

abbrev pub oecc_redun_len : ℕ
oecc_redun_len = 4

abbrev pub symbol_size : ℕ
symbol_size = 8

abbrev pub amdchipkill_cw_len : ℕ
amdchipkill_cw_len = 80

abbrev pub qpc_cw_len : ℕ
qpc_cw_len = 320

abbrev pub ooc_cw_len : ℕ
ooc_cw_len = 640

abbrev pub amdchipkill_cw_symbol_num : ℕ
amdchipkill_cw_symbol_num = 10

-- Length of a codeword of the code over GF(2^8) that is not shortened.
abbrev pub nn : ℕ
nn = 255

pub data OeccType : Type 0 where
  oecc_off oecc_on : OeccType

pub data FaultType : Type 0 where
  sbe pin_1 sce dbe tbe sce_sbe sce_dbe sce_sce rank : FaultType

pub data ReccType : Type 0 where
  recc_off amdchipkill qpc ooc : ReccType

pub data ResultType : Type 0 where
  ne ce due sdc : ResultType

-- The value of an enumerator of `RESULT_TYPE`.
abbrev pub result_value : ResultType → ℕ
result_value ne = 0
result_value ce = 1
result_value due = 2
result_value sdc = 3

-- `(a > b) ? a : b` on two enumerators.
abbrev pub result_max : ResultType → ResultType → ResultType
result_max a b = elim (ltb (result_value b) (result_value a)) [ Bool.true ↦ a | Bool.false ↦ b ]
