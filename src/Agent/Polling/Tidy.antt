-- ===== src/Agent/Polling/Tidy.antt =====
-- That polls keep the agent tidy.
use aio_ss_usb_test_agent.Prelude.{
  ℕ, Option, none, some, List, [], ◌∷◌, Option-cases, Bool-cases, inl, inr,
}
use aio_ss_usb_test_agent.Prelude.Dict.{Dict, nat_eq, beq}
use aio_ss_usb_test_agent.Domain.Enums.{ProcessState, process_state_eq}
use aio_ss_usb_test_agent.Domain.Context.{Time}
use aio_ss_usb_test_agent.Domain.Manager.{get_slot}
use aio_ss_usb_test_agent.Services.UiState.{
  MfcUiState, ChangedField, Description, check_test_completion, check_user_intervention,
}
use aio_ss_usb_test_agent.Agent.{Agent, on_mfc_ui_polled, on_mfc_ui_changed, on_user_intervention}
use aio_ss_usb_test_agent.Agent.Monitoring.{IsTidy, queue-IsTidy, on_mfc_test_completed-IsTidy}
use aio_ss_usb_test_agent.Agent.Polling.{
  complete_if_any, intervene_all, report_changes, poll_slot, poll_each, keys, poll_all_slots,
}

store-IsTidy :
    (a : Agent) (d : Dict ℕ MfcUiState) → IsTidy a → IsTidy (record a { previous_states = d })
store-IsTidy a d tidy = record {
  own_index = tidy.own_index;
  wired = tidy.wired;
  unmonitored = tidy.unmonitored;
}

polled-IsTidy : (c : MfcUiState) (a : Agent) → IsTidy a → IsTidy (on_mfc_ui_polled c a)
unfolding on_mfc_ui_polled
polled-IsTidy c a tidy = elim (Option-cases (get_slot a.slots c.slot_idx)) [
  | inl e ↦ rw (e, on_mfc_ui_polled) tidy
  | inr (m, e) ↦ rw (e, on_mfc_ui_polled) (queue-IsTidy _ a tidy)
]

changed-IsTidy :
    (i : ℕ) (c : MfcUiState) (a : Agent) → IsTidy a → IsTidy (on_mfc_ui_changed i (some c) a)
unfolding on_mfc_ui_changed
changed-IsTidy i c a tidy = elim (Bool-cases (beq c.process_state ProcessState.fail)) [
  | inl e ↦ rw (e, on_mfc_ui_changed) (queue-IsTidy _ a tidy)
  | inr e ↦ rw (e, on_mfc_ui_changed) tidy
]

intervene_all-IsTidy :
    (i : ℕ) (ds : List Description) (a : Agent) → IsTidy a → IsTidy (intervene_all i ds a)
unfolding intervene_all on_user_intervention
intervene_all-IsTidy i [] a tidy = tidy
intervene_all-IsTidy i (d ∷ ds) a tidy =
    intervene_all-IsTidy i ds (on_user_intervention i d a) (queue-IsTidy _ a tidy)

complete_if_any-IsTidy :
    (i : ℕ) (o : Option ProcessState) (now : Time) (a : Agent)
    → IsTidy a
    → IsTidy (complete_if_any i o now a)
unfolding complete_if_any
complete_if_any-IsTidy i none now a tidy = tidy
complete_if_any-IsTidy i (some f) now a tidy = on_mfc_test_completed-IsTidy i f now a tidy

report_changes-IsTidy :
    (i : ℕ) (p : Option MfcUiState) (c : MfcUiState) (changed : List ChangedField) (now : Time)
    (a : Agent)
    → IsTidy a
    → IsTidy (report_changes i p c changed now a)
unfolding report_changes
report_changes-IsTidy i p c [] now a tidy = tidy
report_changes-IsTidy i p c (f ∷ fs) now a tidy =
    intervene_all-IsTidy i (check_user_intervention p c (f ∷ fs)) _ (
      complete_if_any-IsTidy i (check_test_completion p c) now (on_mfc_ui_changed i (some c) a)
        (changed-IsTidy i c a tidy))

poll_slot-IsTidy :
    (i : ℕ) (window : Option MfcUiState) (now : Time) (a : Agent)
    → IsTidy a
    → IsTidy (poll_slot i window now a)
unfolding poll_slot
poll_slot-IsTidy i none now a tidy = tidy
poll_slot-IsTidy i (some c) now a tidy =
    store-IsTidy _ _
      (report_changes-IsTidy i _ c _ now (on_mfc_ui_polled c a) (polled-IsTidy c a tidy))

poll_each-IsTidy :
    (is : List ℕ) (windows : ℕ → Option MfcUiState) (now : Time) (a : Agent)
    → IsTidy a
    → IsTidy (poll_each is windows now a)
unfolding poll_each
poll_each-IsTidy [] windows now a tidy = tidy
poll_each-IsTidy (i ∷ is) windows now a tidy =
    poll_each-IsTidy is windows now (poll_slot i (windows i) now a)
      (poll_slot-IsTidy i (windows i) now a tidy)

-- A round of polls over all monitored slots keeps the agent tidy, whatever the windows show: each
-- slot that the round brings to an end is watched by neither monitor afterwards.
pub poll_all_slots-IsTidy :
    (windows : ℕ → Option MfcUiState) (now : Time) (a : Agent)
    → IsTidy a
    → IsTidy (poll_all_slots windows now a)
unfolding poll_all_slots
poll_all_slots-IsTidy windows now a tidy =
    poll_each-IsTidy (keys a.monitored_slots) windows now a tidy
