-- ===== src/Agent/Lifecycle/Examples.antt =====
-- main.py: runs of an agent from its start to its end.
use aio_ss_usb_test_agent.Prelude.{Bool, true, false, none, List, [], ◌∷◌, ◌≡◌, refl}
use aio_ss_usb_test_agent.Agent.Lifecycle.{
  Part, Call, Lifecycle, Faults, Turn, launch, make, main_turns, main_loop, release, drop, stop,
  prepare, body, cleanup, caught, start, Part-discrete,
}
use aio_ss_usb_test_agent.Agent.Lifecycle.Cleanup.{Released}
use aio_ss_usb_test_agent.Agent.Lifecycle.Ending.{Stopped, start-Released}

abbrev new_agent : Lifecycle
new_agent = record { is_running = false; shutdown_event = none; held = λ p. false; calls = [] }

abbrev unwatched : Part → Bool
unwatched Part.process_monitor = true
unwatched p = false

-- The process monitor does not start.
abbrev faults : Faults
faults = record {
  making = λ p. false;
  starting = unwatched;
  stopping = λ p. false;
  task_failed = false;
}

abbrev no_faults : Faults
no_faults = record {
  making = λ p. false;
  starting = λ p. false;
  stopping = λ p. false;
  task_failed = false;
}

abbrev turns : List Turn
turns = Turn.quiet ∷ Turn.stop_called ∷ Turn.quiet ∷ Turn.failing ∷ []

stopped_in_order :
    (start no_faults turns new_agent).0.calls
    ≡ Call.started Part.worker_pool
      ∷ Call.started Part.memory_monitor
      ∷ Call.started Part.process_monitor
      ∷ Call.started Part.mfc_ui_monitor
      ∷ Call.stopped Part.ws_client
      ∷ Call.stopped Part.worker_pool
      ∷ Call.stopped Part.memory_monitor
      ∷ Call.stopped Part.process_monitor
      ∷ Call.stopped Part.mfc_ui_monitor
      ∷ Call.stopped Part.mfc_controller
      ∷ Call.stopped Part.slot_manager
      ∷ Call.stopped Part.ws_client
      ∷ []
unfolding start prepare body cleanup launch make main_turns main_loop release drop stop
    Part-discrete
stopped_in_order = refl

start-Released_example :
    ((start faults turns new_agent).1 ≡ caught (body faults turns (prepare faults new_agent).0).1)
    × Released (start faults turns new_agent).0
    × Stopped (prepare faults new_agent).0.held (start faults turns new_agent).0
unfolding prepare make launch Part-discrete
start-Released_example = start-Released faults turns new_agent refl (λ p. refl)
