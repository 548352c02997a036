-- ===== src/Agent/Task/Spared.antt =====
-- A slot that is not RUNNING, while a task awaits: the monitors leave it as it is.
use aio_ss_usb_test_agent.Prelude.{
  ℕ, ◌≡◌, ◌≢◌, refl, Bool, true, false, Option, some, String, List, [], ◌∷◌, arith, Option-cases,
  Bool-cases, inl, inr, ==_iff,
}
use aio_ss_usb_test_agent.Prelude.Dict.{beq, nat_eq}
use aio_ss_usb_test_agent.Domain.Enums.{ProcessState}
use aio_ss_usb_test_agent.Domain.State.{SlotState, SlotEvent, slot_state_eq}
use aio_ss_usb_test_agent.Domain.Context.{Field, Time}
use aio_ss_usb_test_agent.Domain.Machine.{
  SlotStateMachine, Outcome, invalid, moved, trigger, force_state,
}
use aio_ss_usb_test_agent.Domain.Manager.{get_slot}
use aio_ss_usb_test_agent.Agent.{
  Agent, settle_slot, on_mfc_ui_polled, move_if_running, move_completed, tell_completed,
  trigger_logged, in_batch_mode, remove_monitored_slot,
}
use aio_ss_usb_test_agent.Agent.Completion.{completion_steps}
use aio_ss_usb_test_agent.Agent.Task.{
  Event, happen, happen_all, after_disconnect, trigger_meanwhile, terminate_slot, fail_terminated,
}
use aio_ss_usb_test_agent.Agent.Task.Slots.{
  get_slot-settle_slot, get_slot-set_slot, settle_slot_invalid,
}

-- What is no trigger of slot i by another task.
abbrev pub Spares : ℕ → Event → Type 0
Spares i (Event.triggered j e fs msg now) = j ≢ i
Spares i _ = Unit {0}

abbrev pub SparesAll : ℕ → List Event → Type 0
SparesAll i [] = Unit {0}
SparesAll i (e ∷ es) = Spares i e × SparesAll i es

module _ (i : ℕ) (m : SlotStateMachine) where
  abbrev Kept : Agent → Type 0
  Kept a = get_slot a.slots i ≡ some m

  settle-Kept : (j : ℕ) (o : Outcome) (a : Agent) → j ≢ i → Kept a → Kept (settle_slot j o a)
  settle-Kept j (invalid s e k) a ne h = rw (settle_slot_invalid j s e k a) h
  settle-Kept j (moved n ns) a ne h =
      rw (get_slot-settle_slot i j n ns a) (ground (arith, h, ne, ==_iff j i))

  trigger-Kept :
      (j : ℕ) (n : SlotStateMachine) (e : SlotEvent) (msg : Option String) (now : Time) (a : Agent)
      → j ≢ i
      → Kept a
      → Kept (trigger_logged j n e msg now a)
  unfolding trigger_logged
  trigger-Kept j n e msg now a ne h = settle-Kept j (trigger e [] msg now n) a ne h

  move-Kept :
      (j : ℕ) (n : SlotStateMachine) (f : ProcessState) (b : Bool) (now : Time) (a : Agent)
      → j ≢ i
      → Kept a
      → Kept (move_completed j n f b now a)
  unfolding move_completed
  move-Kept j n ProcessState.fail b now a ne h = trigger-Kept j n _ _ now a ne h
  move-Kept j n ProcessState.stop b now a ne h = trigger-Kept j n _ _ now a ne h
  move-Kept j n ProcessState.pass true now a ne h = h
  move-Kept j n ProcessState.pass false now a ne h = trigger-Kept j n _ _ now a ne h
  move-Kept j n _ b now a ne h = h

  tell-Kept :
      (j : ℕ) (f : ProcessState) (b : Bool) (a : Agent) → Kept a → Kept (tell_completed j f b a)
  unfolding tell_completed
  tell-Kept j f b a h = ground (arith, h)

  polled-Kept : (s : _) (a : Agent) → Kept a → Kept (on_mfc_ui_polled s a)
  unfolding on_mfc_ui_polled
  polled-Kept s a h = ground (arith, h)

  module _ (rest : m.state ≢ SlotState.running) where
    -- A RUNNING slot is another one.
    apart :
        (j : ℕ) (n : SlotStateMachine) (a : Agent)
        → Kept a
        → get_slot a.slots j ≡ some n
        → beq n.state SlotState.running ≡ true
        → j ≢ i
    apart j n a h e r same =
        let e' = rw same at e in
        rest (ground (arith, slot_state_eq.beq_iff n.state SlotState.running, h, e', r))

    completed-Kept :
        (j : ℕ) (f : ProcessState) (b : Bool) (now : Time) (a : Agent)
        → Kept a
        → Kept (move_if_running j f b now a)
    unfolding move_if_running
    completed-Kept j f b now a h = elim (Option-cases (get_slot a.slots j)) [
      | inl e ↦ rw (e, move_if_running) h
      | inr (n, e) ↦ elim (Bool-cases (beq n.state SlotState.running)) [
        | inl r ↦ rw (e, move_if_running, r) (move-Kept j n f b now a (apart j n a h e r) h)
        | inr r ↦ rw (e, move_if_running, r) h
      ]
    ]

    fail_terminated-Kept :
        (j : ℕ) (n : SlotStateMachine) (text : String) (now : Time) (o : Outcome) (a : Agent)
        → j ≢ i
        → Kept a
        → Kept (fail_terminated j n text now o a)
    unfolding fail_terminated
    fail_terminated-Kept j n text now (invalid s e k) a ne h =
        rw (get_slot-set_slot i j (force_state SlotState.error now n) a)
          (ground (arith, h, ne, ==_iff j i))
    fail_terminated-Kept j n text now (moved n' ns) a ne h = settle-Kept j (moved n' ns) a ne h

    terminate-Kept :
        (j : ℕ) (text : String) (now : Time) (a : Agent)
        → Kept a
        → Kept (terminate_slot j (get_slot a.slots j) text now a)
    unfolding terminate_slot
    terminate-Kept j text now a h = elim (Option-cases (get_slot a.slots j)) [
      | inl e ↦ rw (e, terminate_slot) h
      | inr (n, e) ↦ elim (Bool-cases (beq n.state SlotState.running)) [
        | inl r ↦
            rw (e, terminate_slot, r) (fail_terminated-Kept j n text now _ a (apart j n a h e r) h)
        | inr r ↦ rw (e, terminate_slot, r) h
      ]
    ]

    pub after_disconnect-Kept :
        (event : _) (text : String) (now : Time) (a : Agent)
        → Kept a
        → Kept (after_disconnect event text now a)
    unfolding after_disconnect remove_monitored_slot
    after_disconnect-Kept event text now a h = terminate-Kept event.slot_idx text now a h

    trigger_meanwhile-Kept :
        (j : ℕ) (e : SlotEvent) (fs : List Field) (msg : Option String) (now : Time) (a : Agent)
        → j ≢ i
        → Kept a
        → Kept (trigger_meanwhile j e fs msg now a)
    unfolding trigger_meanwhile
    trigger_meanwhile-Kept j e fs msg now a ne h = elim (Option-cases (get_slot a.slots j)) [
      | inl gone ↦ rw (gone, trigger_meanwhile) h
      | inr (n, there) ↦ rw (there, trigger_meanwhile) (settle-Kept j _ a ne h)
    ]

    happen-Kept : (e : Event) (a : Agent) → Spares i e → Kept a → Kept (happen e a)
    unfolding happen
    happen-Kept (Event.polled s) a _ h = polled-Kept s a h
    happen-Kept (Event.completed j f now) a _ h =
        let b = in_batch_mode j a in
        rw (completion_steps j now a f b refl) (tell-Kept j f b _ (completed-Kept j f b now a h))
    happen-Kept (Event.terminated event text now) a _ h = after_disconnect-Kept event text now a h
    happen-Kept (Event.triggered j e fs msg now) a ne h =
        trigger_meanwhile-Kept j e fs msg now a ne h
    happen-Kept (Event.pid_known j pid) a _ h = h
    happen-Kept (Event.pid_forgotten j) a _ h = h

    -- A slot that is not RUNNING stays as it is, whatever the monitors see of it, be it the end of
    -- its process, and whatever happens to other slots.
    pub happen_all-spared :
        (es : List Event) (a : Agent) → SparesAll i es → Kept a → Kept (happen_all es a)
    unfolding happen_all
    happen_all-spared [] a _ h = h
    happen_all-spared (e ∷ es) a (s, ss) h =
        happen_all-spared es (happen e a) ss (happen-Kept e a s h)
