-- ===== src/Agent/Polling/Ends.antt =====
-- What a poll makes of the slots.
use aio_ss_usb_test_agent.Prelude.{
  ℕ, ◌≤◌, ◌<◌, ◌⊎◌, true, not, Option, none, some, List, [], ◌∷◌, ◌≡◌, ◌≢◌, refl, arith, ◌∙◌, ap,
  sym,
}
use aio_ss_usb_test_agent.Prelude.Dict.{get, beq, nat_eq}
use aio_ss_usb_test_agent.Domain.Enums.{
  ProcessState, TestPhase, process_state_eq, ProcessState-discrete,
}
use aio_ss_usb_test_agent.Domain.State.{SlotState, SlotState-discrete}
use aio_ss_usb_test_agent.Domain.Context.{Time}
use aio_ss_usb_test_agent.Domain.Machine.{SlotStateMachine}
use aio_ss_usb_test_agent.Domain.Manager.{SlotStateMachineManager, get_slot}
use aio_ss_usb_test_agent.Services.UiState.{
  MfcUiState, ChangedField, Description, detect_changes, check_test_completion,
  check_user_intervention, concluded, if_changed,
}
use aio_ss_usb_test_agent.Agent.{
  Agent, is_batch_mode, on_mfc_ui_polled, on_mfc_ui_changed, on_user_intervention,
}
use aio_ss_usb_test_agent.Agent.Completion.{completed_state, on_mfc_test_completed-Leaves}
use aio_ss_usb_test_agent.Agent.Polling.{complete_if_any, intervene_all, report_changes, poll_slot}

slots-on_mfc_ui_polled :
    (c : MfcUiState) (a : Agent)
    → ((on_mfc_ui_polled c a).slots ≡ a.slots)
      × ((on_mfc_ui_polled c a).previous_states ≡ a.previous_states)
unfolding on_mfc_ui_polled
slots-on_mfc_ui_polled c a = ground arith

slots-on_mfc_ui_changed :
    (i : ℕ) (c : MfcUiState) (a : Agent) → (on_mfc_ui_changed i (some c) a).slots ≡ a.slots
unfolding on_mfc_ui_changed
slots-on_mfc_ui_changed i c a = ground arith

slots-intervene_all :
    (i : ℕ) (ds : List Description) (a : Agent) → (intervene_all i ds a).slots ≡ a.slots
unfolding intervene_all on_user_intervention
slots-intervene_all i [] a = refl
slots-intervene_all i (d ∷ ds) a = slots-intervene_all i ds (on_user_intervention i d a)

-- The state of a slot after a poll, given what the poll concludes.
abbrev concluded_state : SlotStateMachine → Option ProcessState → SlotState
concluded_state m none = m.state
concluded_state m (some f) = completed_state m.state f (is_batch_mode m.context)

-- The slots of an agent where slot i has come to the state, and every other slot is as it was.
abbrev pub Reached : ℕ → SlotState → SlotStateMachineManager → SlotStateMachineManager → Type 0
Reached i t g g' =
    (m' : SlotStateMachine) × (get_slot g' i ≡ some m')
    × (m'.state ≡ t)
    × ((j : ℕ) → j ≢ i → get_slot g' j ≡ get_slot g j)

-- The same along equations.
Reached-eq :
    (i : ℕ) (t u : SlotState) (f g h k : SlotStateMachineManager)
    → t ≡ u
    → f ≡ g
    → h ≡ k
    → Reached i t f h
    → Reached i u g k
Reached-eq i t u f g h k e d c (m, slot, state, others) =
    (m, rw (← c) slot, state ∙ e, λ j ne. rw (← c, ← d) (others j ne))

complete_if_any-Reached :
    (i : ℕ) (m : SlotStateMachine) (o : Option ProcessState) (now : Time) (a : Agent)
    → get_slot a.slots i ≡ some m
    → Reached i (concluded_state m o) a.slots (complete_if_any i o now a).slots
unfolding complete_if_any
complete_if_any-Reached i m none now a h = (m, h, refl, λ j ne. refl)
complete_if_any-Reached i m (some f) now a h =
    let (m', t, l) = on_mfc_test_completed-Leaves i m now a f h in (m', l.slot, t, l.others)

report_changes-Reached :
    (i : ℕ) (m : SlotStateMachine) (p : Option MfcUiState) (c : MfcUiState)
    (changed : List ChangedField) (now : Time) (a : Agent)
    → get_slot a.slots i ≡ some m
    → Reached i
        (concluded_state m (if_changed changed (check_test_completion p c)))
        a.slots
        (report_changes i p c changed now a).slots
unfolding report_changes
report_changes-Reached i m p c [] now a h = (m, h, refl, λ j ne. refl)
report_changes-Reached i m p c (f ∷ fs) now a h =
    let b = on_mfc_ui_changed i (some c) a in
    let same = slots-on_mfc_ui_changed i c a in
    let same' : get_slot b.slots i ≡ get_slot a.slots i = ap (λ g. get_slot g i) same in
    let done = complete_if_any i (check_test_completion p c) now b in
    Reached-eq i _ _ b.slots a.slots done.slots _ refl same
      (sym (slots-intervene_all i (check_user_intervention p c (f ∷ fs)) done))
      (complete_if_any-Reached i m (check_test_completion p c) now b (same' ∙ h))

concluded-Reached :
    (i : ℕ) (m : SlotStateMachine) (c : MfcUiState) (now : Time) (a : Agent)
    → get_slot a.slots i ≡ some m
    → Reached i
        (concluded_state m (concluded (get a.previous_states i) c))
        a.slots
        (poll_slot i (some c) now a).slots
unfolding poll_slot concluded
concluded-Reached i m c now a h =
    let b = on_mfc_ui_polled c a in
    let (same, previous) = slots-on_mfc_ui_polled c a in
    let same' : get_slot b.slots i ≡ get_slot a.slots i = ap (λ g. get_slot g i) same in
    let p = get b.previous_states i in
    Reached-eq i _ _ b.slots a.slots _ _
      (ap (λ d. concluded_state m (concluded (get d i) c)) previous) same refl
      (report_changes-Reached i m p c (detect_changes p c) now b (same' ∙ h))

-- The window begins to show Fail.
abbrev pub FailBegins : MfcUiState → MfcUiState → Type 0
FailBegins p c = (c.process_state ≡ ProcessState.fail) × (p.process_state ≢ ProcessState.fail)

-- The window goes from Pass or Test to Idle, in the phase Idle, with all of its loops done.
abbrev pub LoopsEnd : MfcUiState → MfcUiState → Type 0
LoopsEnd p c =
    (c.process_state ≡ ProcessState.idle)
    × ((p.process_state ≡ ProcessState.pass) ⊎ (p.process_state ≡ ProcessState.test))
    × (c.test_phase ≡ TestPhase.idle)
    × (0 < c.total_loop)
    × (c.current_loop ≡ c.total_loop)

-- The state of a slot after a poll, given the previous poll, if any, and this one.
abbrev pub Judged : SlotStateMachine → Option MfcUiState → MfcUiState → SlotState → Type 0
Judged m none c t = t ≡ m.state
Judged m (some p) c t =
    ((m.state ≡ SlotState.running) × FailBegins p c × (t ≡ SlotState.failed))
    ⊎ ((m.state ≡ SlotState.running)
        × (m.context.total_batch ≤ 1)
        × LoopsEnd p c
        × (t ≡ SlotState.completed))
    ⊎ ((t ≡ m.state)
        × ((m.state ≢ SlotState.running)
            ⊎ (¬ FailBegins p c × ((1 < m.context.total_batch) ⊎ ¬ LoopsEnd p c))))

changes-process_state :
    (p c : MfcUiState) (o : Option ProcessState)
    → p.process_state ≢ c.process_state
    → if_changed (detect_changes (some p) c) o ≡ o
unfolding detect_changes
changes-process_state p c o h =
    let differs : not (beq p.process_state c.process_state) ≡ true = ground (arith, h) in
    rw differs refl

same-process_state :
    (p c : MfcUiState) → p.process_state ≡ c.process_state → check_test_completion (some p) c ≡ none
unfolding check_test_completion
same-process_state p c h = ground (arith, h)

if_changed-none : (changed : List ChangedField) → if_changed changed none ≡ none
if_changed-none [] = refl
if_changed-none (f ∷ fs) = refl

-- Every end that is found shows as a change.
concluded_lem : (p c : MfcUiState) → concluded (some p) c ≡ check_test_completion (some p) c
unfolding concluded
concluded_lem p c = elim (ProcessState-discrete p.process_state c.process_state) [
  | yes e ↦ rw (same-process_state p c e) (if_changed-none (detect_changes (some p) c))
  | no n ↦ changes-process_state p c (check_test_completion (some p) c) n
]

checked-Judged :
    (m : SlotStateMachine) (p c : MfcUiState)
    → Judged m (some p) c (concluded_state m (check_test_completion (some p) c))
unfolding check_test_completion ProcessState-discrete SlotState-discrete
checked-Judged m p c = ground arith

concluded-Judged :
    (m : SlotStateMachine) (p : Option MfcUiState) (c : MfcUiState)
    → Judged m p c (concluded_state m (concluded p c))
unfolding concluded check_test_completion
concluded-Judged m none c = refl
concluded-Judged m (some p) c = rw (concluded_lem p c) (checked-Judged m p c)

-- A poll of a slot makes of it what two polls in a row show: a RUNNING slot goes to FAILED when the
-- window begins to show Fail, and to COMPLETED, if it has at most one batch, when the window goes from
-- Pass or Test to Idle, in the phase Idle and with all of its loops done. In every other case, the first
-- poll of a slot among them, the slot keeps its state. Other slots are untouched.
pub poll_slot-Reached :
    (i : ℕ) (m : SlotStateMachine) (c : MfcUiState) (now : Time) (a : Agent)
    → get_slot a.slots i ≡ some m
    → (t : SlotState) × Judged m (get a.previous_states i) c t
      × Reached i t a.slots (poll_slot i (some c) now a).slots
poll_slot-Reached i m c now a h = (
  concluded_state m (concluded (get a.previous_states i) c),
  concluded-Judged m (get a.previous_states i) c,
  concluded-Reached i m c now a h,
)
