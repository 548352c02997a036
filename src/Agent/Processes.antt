-- ===== src/Agent/Processes.antt =====
-- services/process_monitor.py: a check of the watched processes, with the agent's callback. What psutil
-- answers is an argument.
pub mod Quitting
mod Examples
use aio_ss_usb_test_agent.Prelude.{ℕ, Bool, false, Option, none, some, String, List, [], ◌∷◌}
use aio_ss_usb_test_agent.Prelude.Dict.{Dict, get, put, pop, nat_eq}
use aio_ss_usb_test_agent.Domain.Context.{Time}
use aio_ss_usb_test_agent.Agent.{Agent, ProcessTerminationEvent, ProcessTerminationReason}
use aio_ss_usb_test_agent.Agent.Task.{Event, on_process_terminated}

-- What psutil says of a process: `pid_exists` is False; its status is that of a zombie, or another;
-- AccessDenied; NoSuchProcess; any other exception.
pub data Probe : Type 0 where
  missing zombie alive access_denied no_such_process fails : Probe

abbrev pub reason_of : Probe → Option ProcessTerminationReason
reason_of Probe.missing = some ProcessTerminationReason.user_terminated
reason_of Probe.zombie = some ProcessTerminationReason.process_crashed
reason_of Probe.no_such_process = some ProcessTerminationReason.user_terminated
reason_of Probe.alive = none
reason_of Probe.access_denied = none
reason_of Probe.fails = none

pub record Terminated : Type 0 where
  pub slot_idx : ℕ
  pub pid : ℕ
  pub reason : ProcessTerminationReason

abbrev pub append_if_ended :
    ℕ → ℕ → Option ProcessTerminationReason → List Terminated → List Terminated
append_if_ended slot_idx pid none ts = ts
append_if_ended slot_idx pid (some r) ts =
    record { slot_idx = slot_idx; pid = pid; reason = r } ∷ ts

unfoldable pub terminated_slots : (ℕ → Probe) → Dict ℕ ℕ → List Terminated
terminated_slots probe [] = []
terminated_slots probe ((slot_idx, pid) ∷ d) =
    append_if_ended slot_idx pid (reason_of (probe pid)) (terminated_slots probe d)

unfoldable pub get_watched_slots : Agent → Dict ℕ ℕ
get_watched_slots a = a.watched_pids

unfoldable pub update_slot_running_state : ℕ → Bool → Agent → Agent
update_slot_running_state slot_idx is_running a = record a {
  slot_running = put a.slot_running slot_idx is_running;
}

abbrev flag_or_false : Option Bool → Bool
flag_or_false none = false
flag_or_false (some b) = b

abbrev pub forget : ℕ → Agent → Agent
forget slot_idx a = record a {
  watched_pids = pop a.watched_pids slot_idx;
  slot_running = pop a.slot_running slot_idx;
}

-- One turn of the second loop: `text` is the error message for a reason.
unfoldable pub report_terminated :
    (ProcessTerminationReason → String) → Time → Terminated → List Event → Agent → Agent
report_terminated text now t meanwhile a =
    let event : ProcessTerminationEvent = record {
      slot_idx = t.slot_idx;
      pid = t.pid;
      reason = t.reason;
      was_running = flag_or_false (get a.slot_running t.slot_idx);
      timestamp = now;
    } in
    on_process_terminated event (text t.reason) meanwhile now (forget t.slot_idx a)

-- `meanwhile` is what happens while the callback of each slot awaits.
unfoldable pub report_each :
    (ProcessTerminationReason → String) → Time → (ℕ → List Event) → List Terminated → Agent → Agent
report_each text now meanwhile [] a = a
report_each text now meanwhile (t ∷ ts) a =
    report_each text now meanwhile ts (report_terminated text now t (meanwhile t.slot_idx) a)

unfoldable pub check_processes :
    (ℕ → Probe) → (ProcessTerminationReason → String) → Time → (ℕ → List Event) → Agent → Agent
check_processes probe text now meanwhile a =
    report_each text now meanwhile (terminated_slots probe a.watched_pids) a
