-- ===== src/Agent/Polling.antt =====
-- services/mfc_ui_monitor.py: the polls of `MFCUIMonitor`, with the agent's callbacks. What the
-- callbacks await is put into a queue without waiting, so no other task runs within a poll.
pub mod Tidy
pub mod Ends
mod Examples
use aio_ss_usb_test_agent.Prelude.{ℕ, Option, none, some, List, [], ◌∷◌}
use aio_ss_usb_test_agent.Prelude.Dict.{Dict, get, put, nat_eq}
use aio_ss_usb_test_agent.Domain.Enums.{ProcessState}
use aio_ss_usb_test_agent.Domain.Context.{Time}
use aio_ss_usb_test_agent.Services.UiState.{
  MfcUiState, ChangedField, Description, detect_changes, check_test_completion,
  check_user_intervention,
}
use aio_ss_usb_test_agent.Agent.{
  Agent, queue, on_mfc_ui_polled, on_mfc_ui_changed, on_mfc_test_completed, on_user_intervention,
}

complete_if_any : ℕ → Option ProcessState → Time → Agent → Agent
complete_if_any slot_idx none now a = a
complete_if_any slot_idx (some final_state) now a = on_mfc_test_completed slot_idx final_state now a

intervene_all : ℕ → List Description → Agent → Agent
intervene_all slot_idx [] a = a
intervene_all slot_idx (d ∷ ds) a = intervene_all slot_idx ds (on_user_intervention slot_idx d a)

-- The callbacks of a poll that shows a change.
report_changes : ℕ → Option MfcUiState → MfcUiState → List ChangedField → Time → Agent → Agent
unfolding complete_if_any intervene_all
report_changes slot_idx previous current [] now a = a
report_changes slot_idx previous current (f ∷ fs) now a =
    intervene_all slot_idx (check_user_intervention previous current (f ∷ fs)) (
      complete_if_any slot_idx (check_test_completion previous current) now
        (on_mfc_ui_changed slot_idx (some current) a))

-- `_poll_slot`, given what `_read_ui_state` reads; nothing is read of a slot without a connected
-- window. The previous state is looked up after the callback of the poll.
unfoldable pub poll_slot : ℕ → Option MfcUiState → Time → Agent → Agent
unfolding report_changes
poll_slot slot_idx none now a = a
poll_slot slot_idx (some current) now a =
    let polled = on_mfc_ui_polled current a in
    let previous = get polled.previous_states slot_idx in
    let reported =
      report_changes slot_idx previous current (detect_changes previous current) now polled in
    record reported { previous_states = put reported.previous_states slot_idx current }

poll_each : List ℕ → (ℕ → Option MfcUiState) → Time → Agent → Agent
poll_each [] windows now a = a
poll_each (i ∷ is) windows now a = poll_each is windows now (poll_slot i (windows i) now a)

abbrev keys : Dict ℕ (Unit {0}) → List ℕ
keys [] = []
keys ((i, _) ∷ d) = i ∷ keys d

-- `_poll_all_slots`: the slots that are monitored at the start of the round, in the set's order.
unfoldable pub poll_all_slots : (ℕ → Option MfcUiState) → Time → Agent → Agent
unfolding poll_each
poll_all_slots windows now a = poll_each (keys a.monitored_slots) windows now a

unfoldable pub get_last_state : ℕ → Agent → Option MfcUiState
get_last_state slot_idx a = get a.previous_states slot_idx
