-- ===== src/Infrastructure/ProcessManager.antt =====
-- infrastructure/process_manager.py: `SlotProcessManager`, and the launch of the program. What psutil
-- and Windows answer to a call is an argument; a slot's `exe_path` is always the manager's, and left
-- out.
pub mod Launching
mod Examples
use aio_ss_usb_test_agent.Prelude.{
  ℕ, zero, suc, leb, ◌==◌, if◌then◌else◌, Bool, true, false, not, ◌&&◌, ◌||◌, Option, none, some,
  is_some, or_else, List, [], ◌∷◌,
}
use aio_ss_usb_test_agent.Prelude.Dict.{Dict, get, put, nat_eq}
use aio_ss_usb_test_agent.Domain.Context.{Time}

pub record SlotProcess : Type 0 where
  pub slot_idx : ℕ
  pub pid : Option ℕ
  pub is_active : Bool
  pub started_at : Option Time

-- SlotProcess(slot_idx=...)
abbrev pub no_process : ℕ → SlotProcess
no_process slot_idx = record {
  slot_idx = slot_idx;
  pid = none;
  is_active = false;
  started_at = none;
}

-- What is stored for a process that has been launched or assigned.
abbrev pub active_process : ℕ → ℕ → Time → SlotProcess
active_process slot_idx pid now = record {
  slot_idx = slot_idx;
  pid = some pid;
  is_active = true;
  started_at = some now;
}

abbrev pub Slots : Type 0
Slots = Dict ℕ SlotProcess

unfoldable pub new_slots : ℕ → Slots
new_slots zero = []
new_slots (suc n) = put (new_slots n) n (no_process n)

-- A process of psutil's list: whether it can be read, and whether its name contains that of the
-- program, whatever the case.
pub record Process : Type 0 where
  pub process_pid : ℕ
  pub is_readable : Bool
  pub is_program : Bool

abbrev pub is_in : ℕ → List ℕ → Bool
is_in p [] = false
is_in p (q ∷ ps) = p == q || is_in p ps

-- The processes of the program that are there before the launch.
unfoldable pub existing_pids : List Process → List ℕ
existing_pids [] = []
existing_pids (p ∷ ps) =
    let rest = existing_pids ps in
    if p.is_readable && p.is_program then p.process_pid ∷ rest else rest

-- The first process of the program that is in a list and not among the pids.
unfoldable pub find_other : List ℕ → List Process → Option ℕ
find_other pids [] = none
find_other pids (p ∷ ps) =
    let rest = find_other pids ps in
    if p.is_readable && (p.is_program && not (is_in p.process_pid pids))
    then some p.process_pid
    else rest

-- One list for each turn of the loop before the timeout.
unfoldable pub find_new : List ℕ → List (List Process) → Option ℕ
unfolding find_other
find_new pids [] = none
find_new pids (ps ∷ polls) = let rest = find_new pids polls in or_else (find_other pids ps) rest

-- What the system answers to a launch: whether the file is there, the processes before it, the result
-- of ShellExecuteW, and the processes afterwards.
pub record Launch : Type 0 where
  pub file_exists : Bool
  pub before : List Process
  pub result : ℕ
  pub polls : List (List Process)
  pub launched_at : Time

unfoldable pub launch_exe_get_pid : Launch → Option ℕ
unfolding existing_pids find_new
launch_exe_get_pid l =
    if not l.file_exists
    then none
    else if leb l.result 32
    then none
    else find_new (existing_pids l.before) l.polls

abbrev pub get_slot : Slots → ℕ → Option SlotProcess
get_slot s slot_idx = get s slot_idx

-- The pid of a slot that is true in a test: neither None nor 0.
abbrev pub truthy : Option ℕ → Option ℕ
truthy none = none
truthy (some zero) = none
truthy (some (suc n)) = some (suc n)

abbrev pub pid_if_any : Option SlotProcess → Option ℕ
pid_if_any none = none
pid_if_any (some p) = p.pid

unfoldable pub get_pid : Slots → ℕ → Option ℕ
get_pid s slot_idx = pid_if_any (get s slot_idx)

abbrev pub exists_if_any : (ℕ → Bool) → Option ℕ → Bool
exists_if_any pid_exists none = false
exists_if_any pid_exists (some p) = pid_exists p

-- An exception of psutil counts as false.
unfoldable pub is_active : (ℕ → Bool) → Slots → ℕ → Bool
unfolding get_pid
is_active pid_exists s slot_idx = exists_if_any pid_exists (truthy (get_pid s slot_idx))

abbrev pub append_pid : Option ℕ → Bool → List ℕ → List ℕ
append_pid none b ps = ps
append_pid (some p) b ps = if b then p ∷ ps else ps

-- The pids of the slots of a part of the dictionary, by the index that each slot holds.
unfoldable pub active_pids : (ℕ → Bool) → Slots → Slots → List ℕ
unfolding is_active
active_pids pid_exists s [] = []
active_pids pid_exists s ((i, p) ∷ rest) =
    append_pid (truthy p.pid) (is_active pid_exists s p.slot_idx) (active_pids pid_exists s rest)

unfoldable pub get_all_active_pids : (ℕ → Bool) → Slots → List ℕ
unfolding active_pids
get_all_active_pids pid_exists s = active_pids pid_exists s s

-- How the termination of a process ends; a kill after the timeout is `terminated` too.
pub data Termination : Type 0 where
  terminated no_such_process failed : Termination

abbrev pub after_termination : ℕ → Slots → Termination → Slots × Bool
after_termination slot_idx s Termination.terminated = (put s slot_idx (no_process slot_idx), true)
after_termination slot_idx s Termination.no_such_process =
    (put s slot_idx (no_process slot_idx), true)
after_termination slot_idx s Termination.failed = (s, false)

abbrev pub terminate_pid : ℕ → Termination → Slots → Option ℕ → Slots × Bool
terminate_pid slot_idx t s none = (s, true)
terminate_pid slot_idx t s (some p) = after_termination slot_idx s t

unfoldable pub terminate_for_slot : ℕ → Termination → Slots → Slots × Bool
unfolding get_pid
terminate_for_slot slot_idx t s = terminate_pid slot_idx t s (truthy (get_pid s slot_idx))

-- for slot_idx in self._slots
unfoldable pub terminate_each : (ℕ → Termination) → List (ℕ × SlotProcess) → Slots → Slots
unfolding terminate_for_slot
terminate_each t [] s = s
terminate_each t ((i, p) ∷ rest) s = terminate_each t rest (terminate_for_slot i (t i) s).0

unfoldable pub terminate_all : (ℕ → Termination) → Slots → Slots
unfolding terminate_each
terminate_all t s = terminate_each t s s

abbrev pub store_launched : ℕ → Time → Slots → Option ℕ → Slots × Option ℕ
store_launched slot_idx now s none = (s, none)
store_launched slot_idx now s (some p) = (put s slot_idx (active_process slot_idx p now), some p)

-- A process of the slot that still runs is terminated first; whether that succeeds is not looked at.
unfoldable pub launch_for_slot : (ℕ → Bool) → ℕ → Termination → Launch → Slots → Slots × Option ℕ
unfolding is_active terminate_for_slot launch_exe_get_pid
launch_for_slot pid_exists slot_idx t l s =
    if is_some (get s slot_idx)
    then store_launched slot_idx l.launched_at
        (if is_active pid_exists s slot_idx then (terminate_for_slot slot_idx t s).0 else s)
        (truthy (launch_exe_get_pid l))
    else (s, none)

unfoldable pub clear_slot : ℕ → Slots → Slots
clear_slot slot_idx s = if is_some (get s slot_idx) then put s slot_idx (no_process slot_idx) else s

abbrev pub refreshed : (ℕ → Bool) → ℕ → SlotProcess → Option ℕ → SlotProcess
refreshed pid_exists i p none = p
refreshed pid_exists i p (some n) = if pid_exists n then p else no_process i

-- The keys stay, so the dictionary is walked while its values change.
unfoldable pub refresh_status : (ℕ → Bool) → Slots → Slots
refresh_status pid_exists [] = []
refresh_status pid_exists ((i, p) ∷ s) =
    (i, refreshed pid_exists i p (truthy p.pid)) ∷ refresh_status pid_exists s

unfoldable pub find_unassigned_process : (ℕ → Bool) → List Process → Slots → Option ℕ
unfolding get_all_active_pids find_other
find_unassigned_process pid_exists ps s = find_other (get_all_active_pids pid_exists s) ps

unfoldable pub assign_pid_to_slot : (ℕ → Bool) → ℕ → ℕ → Time → Slots → Slots × Bool
assign_pid_to_slot pid_exists slot_idx pid now s =
    if is_some (get s slot_idx) && pid_exists pid
    then (put s slot_idx (active_process slot_idx pid now), true)
    else (s, false)
