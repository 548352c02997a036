-- ===== src/Agent/Completion.antt =====
-- What the callbacks on a slot's window do to the slot, and what they tell the backend.
use aio_ss_usb_test_agent.Prelude.{
  pos, ℕ, zero, suc, ◌<◌, ◌≤◌, ◌-◌, ◌*◌, ◌+◌, ◌≡◌, refl, ◌≢◌, ◌↔◌, Bool, true, false, if◌then◌else◌,
  Option, none, some, List, [], ◌∷◌, ◌++◌, arith, sym, ◌∙◌, append-nil, ==_iff, String,
}
use aio_ss_usb_test_agent.Prelude.Dict.{put, get-put, nat_eq}
use aio_ss_usb_test_agent.Domain.Enums.{
  ProcessState, TestPhase, process_state_eq, ProcessState-discrete,
}
use aio_ss_usb_test_agent.Domain.State.{SlotState, SlotEvent, slot_state_eq, SlotState-discrete}
use aio_ss_usb_test_agent.Domain.Context.{Time, SlotContext}
use aio_ss_usb_test_agent.Domain.Transitions.{edge}
use aio_ss_usb_test_agent.Domain.Machine.{SlotStateMachine, move_to, notices, Notice}
use aio_ss_usb_test_agent.Domain.Machine.Moves.{trigger_invalid, trigger_moved}
use aio_ss_usb_test_agent.Domain.Manager.{get_slot}
use aio_ss_usb_test_agent.Services.UiState.{MfcUiState}
use aio_ss_usb_test_agent.Agent.{
  Agent, calculated_loop, Message, Status, determine_status, is_batch_mode, on_mfc_test_completed,
  in_batch_mode, move_if_running, tell_completed, trigger_logged, queue, call_back,
  on_slot_state_change,
}

-- A poll's status is "completed" exactly when the window shows neither Fail nor Stop, there are
-- loops to do, all of them are done, and the phase is idle.
pub determine_status-completed :
    (s : MfcUiState)
    → (determine_status s ≡ Status.completed) ↔ (
        (s.process_state ≢ ProcessState.fail)
        × (s.process_state ≢ ProcessState.stop)
        × (0 < s.total_loop)
        × (s.current_loop ≡ s.total_loop)
        × (s.test_phase ≡ TestPhase.idle))
unfolding determine_status ProcessState-discrete
determine_status-completed s = ground arith

module _ (i : ℕ) (m : SlotStateMachine) (now : Time) (a : Agent) where
  -- A Stop of the window on a RUNNING slot is told as "stopped", and the slot stays RUNNING: the
  -- table has no STOPPED out of RUNNING.
  pub stop_ignored :
      get_slot a.slots i ≡ some m
      → m.state ≡ SlotState.running
      → on_mfc_test_completed i ProcessState.stop now a
        ≡ queue (Message.status_update i Status.stopped none (some ProcessState.stop)) a
  unfolding on_mfc_test_completed move_if_running tell_completed trigger_logged edge
      SlotState-discrete ProcessState-discrete
  stop_ignored h r = ground (arith, trigger_invalid SlotEvent.stopped [] none now m)

pub slots-on_slot_state_change :
    (i : ℕ) (t : SlotState) (a : Agent)
    → ((on_slot_state_change i t a).slots ≡ a.slots)
      × ((on_slot_state_change i t a).queued ≡ a.queued)
unfolding on_slot_state_change
slots-on_slot_state_change i t a = ground arith

pub slots-call_back :
    (ns : List Notice) (a : Agent)
    → ((call_back ns a).slots ≡ a.slots) × ((call_back ns a).queued ≡ a.queued)
unfolding call_back
slots-call_back [] a = (refl, refl)
slots-call_back (n ∷ ns) a =
    let step = slots-on_slot_state_change n.slot_idx n.new_state a in
    let rest = slots-call_back ns (on_slot_state_change n.slot_idx n.new_state a) in
    (rest.0 ∙ step.0, rest.1 ∙ step.1)

-- The state in which a completion leaves a slot.
abbrev pub completed_state : SlotState → ProcessState → Bool → SlotState
completed_state SlotState.running ProcessState.fail batch_mode = SlotState.failed
completed_state SlotState.running ProcessState.pass batch_mode =
    if batch_mode then SlotState.running else SlotState.completed
completed_state s _ batch_mode = s

-- What a completion tells the backend.
abbrev pub told : ℕ → ProcessState → Bool → List Message
told i ProcessState.fail batch_mode =
    Message.status_update i Status.failed (some "Test failed") (some ProcessState.fail) ∷ []
told i ProcessState.stop batch_mode =
    Message.status_update i Status.stopped none (some ProcessState.stop) ∷ []
told i f batch_mode = if batch_mode then [] else Message.test_completed i true f ∷ []

module _ (i : ℕ) (a : Agent) where
  -- The machine of slot i is `m'`, and the backend was told what the list says.
  pub record Leaves (m' : SlotStateMachine) (told_now : List Message) (a' : Agent) : Type 0 where
    pub slot : get_slot a'.slots i ≡ some m'
    pub others : (j : ℕ) → j ≢ i → get_slot a'.slots j ≡ get_slot a.slots j
    pub queued : a'.queued ≡ a.queued ++ told_now

module _ (i : ℕ) (m : SlotStateMachine) (now : Time) (a : Agent) where
  moved_slot :
      (e : SlotEvent) (msg : Option String) (t : SlotState)
      → edge m.state e ≡ some t
      → Leaves i a (move_to t e [] msg now m) [] (trigger_logged i m e msg now a)
  unfolding trigger_logged get_slot
  moved_slot e msg t h =
      let m' = move_to t e [] msg now m in
      let b : Agent = record a {
        slots = record (a.slots) { machines = put (a.slots).machines i m' };
      } in
      let kept = slots-call_back (notices t m) b in
      rw (trigger_moved e [] msg now m t h) (record {
        slot = rw kept.0 (ground (arith, get-put (a.slots).machines i i m'));
        others = λ j ne. rw kept.0 (ground (arith, get-put (a.slots).machines i j m', ==_iff i j));
        queued = kept.1 ∙ sym (append-nil _);
      })

  stays : get_slot a.slots i ≡ some m → Leaves i a m [] a
  stays h = record { slot = h; others = λ j ne. refl; queued = sym (append-nil _) }

  unmoved :
      (f : ProcessState) (b : Bool)
      → get_slot a.slots i ≡ some m
      → completed_state m.state f b ≡ m.state
      → move_if_running i f b now a ≡ a
  unfolding move_if_running trigger_logged edge SlotState-discrete
  unmoved f b h r = ground (arith, trigger_invalid SlotEvent.stopped [] none now m)

  -- What the events of a completion make of the slot.
  abbrev Moved : ProcessState → Bool → Type 0
  Moved f b =
      (m' : SlotStateMachine) × (m'.state ≡ completed_state m.state f b)
      × Leaves i a m' [] (move_if_running i f b now a)

  same_slot :
      (f : ProcessState) (b : Bool)
      → get_slot a.slots i ≡ some m
      → completed_state m.state f b ≡ m.state
      → Moved f b
  same_slot f b h r = (m, sym r, rw (unmoved f b h r) (stays h))

  move_by :
      (f : ProcessState) (b : Bool) (e : SlotEvent) (msg : Option String)
      → edge m.state e ≡ some (completed_state m.state f b)
      → move_if_running i f b now a ≡ trigger_logged i m e msg now a
      → Moved f b
  unfolding move_to
  move_by f b e msg h same = (
    move_to (completed_state m.state f b) e [] msg now m,
    refl,
    rw same (moved_slot e msg (completed_state m.state f b) h),
  )

  running-Moved :
      (f : ProcessState) (b : Bool)
      → get_slot a.slots i ≡ some m
      → m.state ≡ SlotState.running
      → Moved f b
  unfolding move_if_running edge SlotState-discrete
  running-Moved ProcessState.fail b h r =
      move_by ProcessState.fail b SlotEvent.fail (some "Test failed (detected via UI)")
        (ground (arith, r)) (ground (arith, r))
  running-Moved ProcessState.pass false h r =
      move_by ProcessState.pass false SlotEvent.complete none (ground (arith, r))
        (ground (arith, r))
  running-Moved ProcessState.pass true h r = same_slot ProcessState.pass true h (ground (arith, r))
  running-Moved ProcessState.stop b h r = same_slot ProcessState.stop b h (ground (arith, r))
  running-Moved ProcessState.idle b h r = same_slot ProcessState.idle b h (ground (arith, r))
  running-Moved ProcessState.test b h r = same_slot ProcessState.test b h (ground (arith, r))
  running-Moved ProcessState.unknown b h r = same_slot ProcessState.unknown b h (ground (arith, r))

  completion-Moved : (f : ProcessState) (b : Bool) → get_slot a.slots i ≡ some m → Moved f b
  completion-Moved f b h = elim (SlotState-discrete m.state SlotState.running) [
    | yes r ↦ running-Moved f b h r
    | no n ↦ same_slot f b h (ground arith)
  ]

tell_completed-Leaves :
    (i : ℕ) (m : SlotStateMachine) (a a' : Agent) (f : ProcessState) (b : Bool)
    → Leaves i a m [] a'
    → Leaves i a m (told i f b) (tell_completed i f b a')
unfolding tell_completed
tell_completed-Leaves i m a a' f b l = record {
  slot = ground (arith, l.slot);
  others = λ j ne. ground (arith, l.others j ne);
  queued = ground (arith, l.queued, append-nil a.queued);
}

pub completion_steps :
    (i : ℕ) (now : Time) (a : Agent) (f : ProcessState) (b : Bool)
    → in_batch_mode i a ≡ b
    → on_mfc_test_completed i f now a ≡ tell_completed i f b (move_if_running i f b now a)
unfolding on_mfc_test_completed move_if_running tell_completed ProcessState-discrete
completion_steps i now a f b h = ground arith

-- What the window shows at the end of a test, for a slot that the agent has: a RUNNING slot goes to
-- FAILED by Fail, and to COMPLETED by Pass outside batch mode; in every other case it keeps its
-- state. Other slots are untouched, and the backend is told of it once, except in
-- batch mode of what is neither Fail nor Stop.
pub on_mfc_test_completed-Leaves :
    (i : ℕ) (m : SlotStateMachine) (now : Time) (a : Agent) (f : ProcessState)
    → get_slot a.slots i ≡ some m
    → let b = is_batch_mode m.context in
      (m' : SlotStateMachine) × (m'.state ≡ completed_state m.state f b)
      × Leaves i a m' (told i f b) (on_mfc_test_completed i f now a)
unfolding in_batch_mode
on_mfc_test_completed-Leaves i m now a f h =
    let b = is_batch_mode m.context in
    let (m', moved_to, l) = completion-Moved i m now a f b h in
    (
      m',
      moved_to,
      rw (completion_steps i now a f b (rw (h, in_batch_mode) refl))
          (tell_completed-Leaves i m' a (move_if_running i f b now a) f b l),
    )

one_batch : (b s : ℕ) → 0 < b → b * s ≡ (b - 1) * s + s
one_batch zero s h = absurd (omega arith)
one_batch (suc b) s h = grind arith

-- In batch mode, with a batch under way and no more loops shown than a batch has, the loops that a
-- poll tells are those of the batches before and those shown, and not more than those of the
-- batches up to the present one.
pub calculated_loop_bound :
    (c : SlotContext) (loop : ℕ)
    → 0 < c.current_batch
    → loop ≤ c.loop_step
    → (calculated_loop c loop ≡ pos ((c.current_batch - 1) * c.loop_step + loop))
      × ((c.current_batch - 1) * c.loop_step + loop ≤ c.current_batch * c.loop_step)
calculated_loop_bound c loop h k =
    let same = one_batch c.current_batch c.loop_step h in
    (ground (arith, same), ground (arith, same))
