-- ===== src/Domain/Manager/Examples.antt =====
-- The theorems on `SlotStateMachineManager` at managers of four slots.
use aio_ss_usb_test_agent.Prelude.{◌≡◌, refl, true, some}
use aio_ss_usb_test_agent.Prelude.Dict.{get, put}
use aio_ss_usb_test_agent.Domain.State.{SlotState}
use aio_ss_usb_test_agent.Domain.Machine.{new_machine}
use aio_ss_usb_test_agent.Domain.Manager.{SlotStateMachineManager, new_manager, get_slot}

abbrev four_slots : SlotStateMachineManager
four_slots = new_manager 4 true 0

slot_2 : get_slot four_slots 2 ≡ some (new_machine 2 SlotState.idle true 0)
unfolding new_manager get_slot get put
slot_2 = refl
