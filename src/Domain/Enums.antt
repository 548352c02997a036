-- ===== src/Domain/Enums.antt =====
-- config/constants.py: the enumerations that domain/enums/__init__.py passes on.
use aio_ss_usb_test_agent.Prelude.{Bool, true, false}
use aio_ss_usb_test_agent.Prelude.Dict.{Eq, discrete_eq}

pub data ProcessState : Type 0 where
  idle pass stop fail test unknown : ProcessState

pub data TestPhase : Type 0 where
  idle contact copy stop compare delete in_progress unknown : TestPhase

unfoldable pub ProcessState-discrete : Discrete ProcessState
ProcessState-discrete = hlevel

instance abbrev pub process_state_eq : Eq ProcessState
process_state_eq = discrete_eq ProcessState-discrete

pub data TestCapacity : Type 0 where
  gb_1 gb_4 gb_32 gb_64 gb_128 gb_256 gb_512 tb_1 : TestCapacity

pub data TestMethod : Type 0 where
  zero_hr read cycle : TestMethod

pub data TestPreset : Type 0 where
  full hot : TestPreset

pub data TestFile : Type 0 where
  mp3 photo : TestFile

pub data VendorId : Type 0 where
  ss other : VendorId

unfoldable pub is_hot_test : TestPreset → Bool
is_hot_test TestPreset.hot = true
is_hot_test TestPreset.full = false
