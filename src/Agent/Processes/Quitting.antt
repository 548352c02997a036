-- ===== src/Agent/Processes/Quitting.antt =====
-- Slots whose processes have ended.
use aio_ss_usb_test_agent.Prelude.{
  ℕ, ◌≡◌, ◌≢◌, true, Option, none, some, is_some, String, List, [], ◌∷◌, arith, Bool-cases, inl,
  inr, ==_iff, ◌⊎◌,
}
use aio_ss_usb_test_agent.Prelude.Dict.{Dict, get, beq, nat_eq}
use aio_ss_usb_test_agent.Domain.State.{SlotState, slot_state_eq}
use aio_ss_usb_test_agent.Domain.Context.{Time}
use aio_ss_usb_test_agent.Domain.Machine.{SlotStateMachine}
use aio_ss_usb_test_agent.Domain.Manager.{get_slot}
use aio_ss_usb_test_agent.Agent.{Agent, ProcessTerminationReason}
use aio_ss_usb_test_agent.Agent.Task.{Event, on_process_terminated}
use aio_ss_usb_test_agent.Agent.Task.Slots.{has, has-happen_all, has-after_disconnect}
use aio_ss_usb_test_agent.Agent.Task.Ended.{on_process_terminated-IsQuit}
use aio_ss_usb_test_agent.Agent.Task.Spared.{SparesAll, happen_all-spared, after_disconnect-Kept}
use aio_ss_usb_test_agent.Agent.Processes.{
  Probe, Terminated, append_if_ended, reason_of, terminated_slots, forget, report_terminated,
  report_each, check_processes,
}

-- Slot i is there, and not RUNNING.
abbrev pub AtRest : ℕ → Agent → Type 0
AtRest i a = (m : SlotStateMachine) × (get_slot a.slots i ≡ some m) × (m.state ≢ SlotState.running)

-- The callback brings the slot of the process to rest.
own_rest :
    (text : ProcessTerminationReason → String) (now : Time) (t : Terminated) (es : List Event)
    (a : Agent)
    → has t.slot_idx a ≡ true
    → AtRest t.slot_idx (report_terminated text now t es a)
unfolding report_terminated
own_rest text now t es a h =
    let (m, there, rest, _) =
      on_process_terminated-IsQuit _ (text t.reason) now es (forget t.slot_idx a) h in
    (m, there, rest)

module _ (text : ProcessTerminationReason → String) (now : Time) (i : ℕ) where
  -- The callback for a slot's process leaves every slot at rest that was at rest.
  rest_stays :
      (t : Terminated) (es : List Event) (a : Agent)
      → SparesAll i es
      → AtRest i a
      → AtRest i (report_terminated text now t es a)
  unfolding report_terminated on_process_terminated
  rest_stays t es a sp (m, there, rest) = (
    m,
    after_disconnect-Kept i m rest _ (text t.reason) now _
        (happen_all-spared i m rest es _ sp there),
    rest,
  )

  has-report :
      (t : Terminated) (es : List Event) (a : Agent)
      → has i a ≡ true
      → has i (report_terminated text now t es a) ≡ true
  unfolding report_terminated on_process_terminated
  has-report t es a h = has-after_disconnect i _ _ now _ (has-happen_all i es _ h)

  -- Slot i is among those whose processes have ended.
  abbrev Among : List Terminated → Type 0
  Among [] = ⊥
  Among (t ∷ ts) = (t.slot_idx ≡ i) ⊎ Among ts

  ended_too :
      (probe : ℕ → Probe) (q pid : ℕ)
      → q ≡ pid
      → is_some (reason_of (probe pid)) ≡ true
      → is_some (reason_of (probe q)) ≡ true
  ended_too probe q pid same e = rw same e

  own_rest_at :
      (t : Terminated) (es : List Event) (a : Agent)
      → t.slot_idx ≡ i
      → has i a ≡ true
      → AtRest i (report_terminated text now t es a)
  own_rest_at t es a same h = rw (← same) (own_rest text now t es a (rw (← same) at h))

  more :
      (j q : ℕ) (o : Option ProcessTerminationReason) (ts : List Terminated)
      → Among ts
      → Among (append_if_ended j q o ts)
  more j q none ts x = x
  more j q (some r) ts x = inr x

  hit :
      (j q : ℕ) (o : Option ProcessTerminationReason) (ts : List Terminated)
      → is_some o ≡ true
      → j ≡ i
      → Among (append_if_ended j q o ts)
  hit j q none ts h e = ground arith
  hit j q (some r) ts h e = inl e

  module _ (meanwhile : ℕ → List Event) (sp : (j : ℕ) → SparesAll i (meanwhile j)) where
    AtRest-report_each :
        (ts : List Terminated) (a : Agent)
        → AtRest i a
        → AtRest i (report_each text now meanwhile ts a)
    unfolding report_each
    AtRest-report_each [] a r = r
    AtRest-report_each (t ∷ ts) a r =
        AtRest-report_each ts _ (rest_stays t (meanwhile t.slot_idx) a (sp t.slot_idx) r)

    Among-AtRest :
        (ts : List Terminated) (a : Agent)
        → Among ts
        → has i a ≡ true
        → AtRest i (report_each text now meanwhile ts a)
    unfolding report_each
    Among-AtRest [] a x h = absurd x
    Among-AtRest (t ∷ ts) a (inl same) h =
        AtRest-report_each ts _ (own_rest_at t (meanwhile t.slot_idx) a same h)
    Among-AtRest (t ∷ ts) a (inr later) h =
        Among-AtRest ts _ later (has-report t (meanwhile t.slot_idx) a h)

    listed :
        (probe : ℕ → Probe) (d : Dict ℕ ℕ) (pid : ℕ)
        → get d i ≡ some pid
        → is_some (reason_of (probe pid)) ≡ true
        → Among (terminated_slots probe d)
    unfolding terminated_slots get
    listed probe [] pid g e = ground arith
    listed probe ((j, q) ∷ d) pid g e = elim (Bool-cases (beq j i)) [
      | inl same ↦
          hit j q (reason_of (probe q)) _ (ended_too probe q pid (ground (arith, g, same)) e)
            ((==_iff j i).0 same)
      | inr other ↦
          more j q (reason_of (probe q)) _ (listed probe d pid (ground (arith, g, other)) e)
    ]

    -- After a check of the processes, a slot whose process was found to have ended is not RUNNING,
    -- whatever is found of other processes and whatever the monitors see while the callbacks await,
    -- if no other task triggers the slot's machine.
    pub check_processes-AtRest :
        (probe : ℕ → Probe) (a : Agent) (pid : ℕ)
        → get a.watched_pids i ≡ some pid
        → has i a ≡ true
        → is_some (reason_of (probe pid)) ≡ true
        → AtRest i (check_processes probe text now meanwhile a)
    unfolding check_processes
    check_processes-AtRest probe a pid g h e =
        Among-AtRest (terminated_slots probe a.watched_pids) a (listed probe a.watched_pids pid g e)
          h
