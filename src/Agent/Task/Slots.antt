-- ===== src/Agent/Task/Slots.antt =====
-- The slots that the agent has, while a task awaits.
use aio_ss_usb_test_agent.Prelude.{
  ℕ, ◌≡◌, refl, ◌∙◌, ap, if◌then◌else◌, Bool, true, false, Option, none, some, is_some, String,
  List, [], ◌∷◌, arith, Option-cases, Bool-cases, inl, inr,
}
use aio_ss_usb_test_agent.Prelude.Dict.{get-put, beq, nat_eq}
use aio_ss_usb_test_agent.Domain.Enums.{ProcessState}
use aio_ss_usb_test_agent.Domain.State.{SlotState, SlotEvent, slot_state_eq}
use aio_ss_usb_test_agent.Domain.Context.{Field, Time}
use aio_ss_usb_test_agent.Domain.Machine.{
  SlotStateMachine, Outcome, Notice, invalid, moved, trigger, force_state,
}
use aio_ss_usb_test_agent.Domain.Manager.{get_slot}
use aio_ss_usb_test_agent.Agent.{
  Agent, settle_slot, on_mfc_ui_polled, on_mfc_test_completed, move_if_running, move_completed,
  tell_completed, trigger_logged, in_batch_mode, remove_monitored_slot,
}
use aio_ss_usb_test_agent.Agent.Completion.{completion_steps, slots-call_back}
use aio_ss_usb_test_agent.Agent.Task.{
  Event, happen, happen_all, set_slot, after_disconnect, trigger_meanwhile, terminate_slot,
  fail_terminated,
}

-- Whether the agent has a slot.
abbrev pub has : ℕ → Agent → Bool
has i a = is_some (get_slot a.slots i)

pub get_slot-set_slot :
    (i j : ℕ) (m : SlotStateMachine) (a : Agent)
    → get_slot (set_slot j m a).slots i ≡ (if beq j i then some m else get_slot a.slots i)
unfolding get_slot
get_slot-set_slot i j m a = get-put (a.slots).machines j i m

pub get_slot-settle_slot :
    (i j : ℕ) (m : SlotStateMachine) (ns : List Notice) (a : Agent)
    → get_slot (settle_slot j (moved m ns) a).slots i
      ≡ (if beq j i then some m else get_slot a.slots i)
unfolding settle_slot
get_slot-settle_slot i j m ns a =
    ap (λ s. get_slot s i) (slots-call_back ns (set_slot j m a)).0 ∙ get_slot-set_slot i j m a

pub settle_slot_invalid :
    (j : ℕ) (s : SlotState) (e : SlotEvent) (k : ℕ) (a : Agent)
    → settle_slot j (invalid s e k) a ≡ a
unfolding settle_slot
settle_slot_invalid j s e k a = refl

module _ (i : ℕ) where
  has-set_slot :
      (j : ℕ) (m : SlotStateMachine) (a : Agent) → has i a ≡ true → has i (set_slot j m a) ≡ true
  has-set_slot j m a h = rw (get_slot-set_slot i j m a) (ground (arith, h))

  has-settle_slot :
      (j : ℕ) (o : Outcome) (a : Agent) → has i a ≡ true → has i (settle_slot j o a) ≡ true
  has-settle_slot j (moved m ns) a h = rw (get_slot-settle_slot i j m ns a) (ground (arith, h))
  has-settle_slot j (invalid s e k) a h = rw (settle_slot_invalid j s e k a) h

  has-polled : (s : _) (a : Agent) → has i a ≡ true → has i (on_mfc_ui_polled s a) ≡ true
  unfolding on_mfc_ui_polled
  has-polled s a h = ground arith

  has-tell :
      (j : ℕ) (f : ProcessState) (b : Bool) (a : Agent)
      → has i a ≡ true
      → has i (tell_completed j f b a) ≡ true
  unfolding tell_completed
  has-tell j f b a h = ground arith

  has-trigger_logged :
      (j : ℕ) (m : SlotStateMachine) (e : SlotEvent) (msg : Option String) (now : Time) (a : Agent)
      → has i a ≡ true
      → has i (trigger_logged j m e msg now a) ≡ true
  unfolding trigger_logged
  has-trigger_logged j m e msg now a h = has-settle_slot j (trigger e [] msg now m) a h

  has-move :
      (j : ℕ) (m : SlotStateMachine) (f : ProcessState) (b : Bool) (now : Time) (a : Agent)
      → has i a ≡ true
      → has i (move_completed j m f b now a) ≡ true
  unfolding move_completed
  has-move j m ProcessState.fail b now a h = has-trigger_logged j m _ _ now a h
  has-move j m ProcessState.stop b now a h = has-trigger_logged j m _ _ now a h
  has-move j m ProcessState.pass true now a h = h
  has-move j m ProcessState.pass false now a h = has-trigger_logged j m _ _ now a h
  has-move j m _ b now a h = h

  has-move_if_running :
      (j : ℕ) (f : ProcessState) (b : Bool) (now : Time) (a : Agent)
      → has i a ≡ true
      → has i (move_if_running j f b now a) ≡ true
  unfolding move_if_running
  has-move_if_running j f b now a h = elim (Option-cases (get_slot a.slots j)) [
    | inl e ↦ rw (e, move_if_running) h
    | inr (m, e) ↦ elim (Bool-cases (beq m.state SlotState.running)) [
      | inl r ↦ rw (e, move_if_running, r) (has-move j m f b now a h)
      | inr r ↦ rw (e, move_if_running, r) h
    ]
  ]

  has-completed :
      (j : ℕ) (f : ProcessState) (now : Time) (a : Agent)
      → has i a ≡ true
      → has i (on_mfc_test_completed j f now a) ≡ true
  has-completed j f now a h =
      let b = in_batch_mode j a in
      rw (completion_steps j now a f b refl) (has-tell j f b _ (has-move_if_running j f b now a h))

  has-fail_terminated :
      (j : ℕ) (m : SlotStateMachine) (text : String) (now : Time) (o : Outcome) (a : Agent)
      → has i a ≡ true
      → has i (fail_terminated j m text now o a) ≡ true
  unfolding fail_terminated
  has-fail_terminated j m text now (invalid s e k) a h =
      has-set_slot j (force_state SlotState.error now m) a h
  has-fail_terminated j m text now (moved m' ns) a h = has-settle_slot j (moved m' ns) a h

  has-terminate_slot :
      (j : ℕ) (o : Option SlotStateMachine) (text : String) (now : Time) (a : Agent)
      → has i a ≡ true
      → has i (terminate_slot j o text now a) ≡ true
  unfolding terminate_slot
  has-terminate_slot j none text now a h = h
  has-terminate_slot j (some m) text now a h = elim (Bool-cases (beq m.state SlotState.running)) [
    | inl r ↦ rw r (has-fail_terminated j m text now _ a h)
    | inr r ↦ rw r h
  ]

  pub has-after_disconnect :
      (event : _) (text : String) (now : Time) (a : Agent)
      → has i a ≡ true
      → has i (after_disconnect event text now a) ≡ true
  unfolding after_disconnect remove_monitored_slot
  has-after_disconnect event text now a h = has-terminate_slot event.slot_idx _ text now a h

  has-trigger_meanwhile :
      (j : ℕ) (e : SlotEvent) (fs : List Field) (msg : Option String) (now : Time) (a : Agent)
      → has i a ≡ true
      → has i (trigger_meanwhile j e fs msg now a) ≡ true
  unfolding trigger_meanwhile
  has-trigger_meanwhile j e fs msg now a h = elim (Option-cases (get_slot a.slots j)) [
    | inl none_there ↦ rw (none_there, trigger_meanwhile) h
    | inr (m, there) ↦ rw (there, trigger_meanwhile) (has-settle_slot j _ a h)
  ]

  has-happen : (e : Event) (a : Agent) → has i a ≡ true → has i (happen e a) ≡ true
  unfolding happen
  has-happen (Event.polled s) a h = has-polled s a h
  has-happen (Event.completed j f now) a h = has-completed j f now a h
  has-happen (Event.terminated event text now) a h = has-after_disconnect event text now a h
  has-happen (Event.triggered j e fs msg now) a h = has-trigger_meanwhile j e fs msg now a h
  has-happen (Event.pid_known j pid) a h = h
  has-happen (Event.pid_forgotten j) a h = h

  -- Whatever happens, no slot goes.
  pub has-happen_all :
      (es : List Event) (a : Agent) → has i a ≡ true → has i (happen_all es a) ≡ true
  unfolding happen_all
  has-happen_all [] a h = h
  has-happen_all (e ∷ es) a h = has-happen_all es (happen e a) (has-happen e a h)
