-- ===== src/Domain/State.antt =====
-- domain/state_machine.py: the states and the events of a test slot.
use aio_ss_usb_test_agent.Prelude.Dict.{Eq, discrete_eq}

pub data SlotState : Type 0 where
  idle connecting ready preparing configuring running waiting paused stopping : SlotState
  completed failed error : SlotState

pub data SlotEvent : Type 0 where
  connect connected disconnected connection_failed : SlotEvent
  start_test configure configured run pause resume stop stopped : SlotEvent
  complete fail error : SlotEvent
  batch_complete batch_next all_batches_done : SlotEvent
  reset retry : SlotEvent

unfoldable pub SlotState-discrete : Discrete SlotState
SlotState-discrete = hlevel

unfoldable pub SlotEvent-discrete : Discrete SlotEvent
SlotEvent-discrete = hlevel

instance abbrev pub slot_state_eq : Eq SlotState
slot_state_eq = discrete_eq SlotState-discrete

instance abbrev pub slot_event_eq : Eq SlotEvent
slot_event_eq = discrete_eq SlotEvent-discrete
