-- ===== src/Infrastructure/ProcessManager/Examples.antt =====
-- A launch that is seen in the second list, and a process that two slots have.
use aio_ss_usb_test_agent.Prelude.{ℕ, ◌≡◌, refl, true, some, [], ◌∷◌}
use aio_ss_usb_test_agent.Prelude.Dict.{get, put}
use aio_ss_usb_test_agent.Infrastructure.ProcessManager.{
  Process, Launch, Slots, new_slots, assign_pid_to_slot, launch_exe_get_pid, get_all_active_pids,
  is_active, get_pid, existing_pids, find_new, find_other,
}

abbrev program : ℕ → Process
program p = record { process_pid = p; is_readable = true; is_program = true }

abbrev launch : Launch
launch = record {
  file_exists = true;
  before = program 7 ∷ [];
  result = 42;
  polls = (program 7 ∷ []) ∷ (program 7 ∷ program 8 ∷ []) ∷ [];
  launched_at = 100;
}

new_pid : launch_exe_get_pid launch ≡ some 8
unfolding launch_exe_get_pid existing_pids find_new find_other
new_pid = refl

-- The same process can be given to two slots.
abbrev shared : Slots
shared =
    (assign_pid_to_slot (λ p. true) 1 7 60
      (assign_pid_to_slot (λ p. true) 0 7 50 (new_slots 2)).0).0

shared_pid : get_all_active_pids (λ p. true) shared ≡ 7 ∷ 7 ∷ []
unfolding get_all_active_pids assign_pid_to_slot new_slots is_active get_pid get put
shared_pid = refl
