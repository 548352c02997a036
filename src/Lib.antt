-- ===== src/Lib.antt =====
-- A verification library for the USB test agent.
--
-- The agent drives a Windows test program (USB Test.exe) on several slots for a backend. A message
-- of the backend makes the agent (main.py) take a slot through the states of its machine
-- (domain/state_machine.py), start the program by the controller (controller/) and wait for what
-- its window shows; a test of many loops is cut into batches, which an executor
-- (services/batch_executor.py) runs one after another, while monitors (services/) watch the
-- windows and the processes and report to the agent.
--
-- Prelude            lists, Boolean tests and Python's `dict`
-- Domain/Enums       config/constants.py, the enumerations
-- Domain/State, Context, Transitions, Machine
--                    domain/state_machine.py: the states and events, SlotContext, the table of
--                    transitions, and SlotStateMachine. `trigger` is `trigger`, with the exception
--                    InvalidTransitionError as the outcome `invalid` and the calls of the callback
--                    as notices; `move_to` is its part after the test for a transition.
--                    Its theorems stand in Machine/Moves, History, Contexts and Restart
-- Domain/Manager     domain/state_machine.py, SlotStateMachineManager
-- Domain/Values      config/constants.py, utils/enum_converter.py: the texts of the enumerations, their
--                    converters, and the capacity for a drive
-- Domain/Texts       config/constants.py: from_text of ProcessState and TestPhase, and
--                    MFCUIMonitor._parse_progress_text, on lists of code points; case, letters, digits
--                    and blanks are those of ASCII
-- Domain/Config      domain/models/test_config.py: TestConfig; to_dict and from_dict in Config/Codec,
--                    validate in Config/Validation
-- Services/World     services/batch_executor.py: the executor's state, the tasks beside it, and its
--                    steps as a state monad with exceptions
-- Services/Waiting   BatchExecutor._wait_for_pass
-- Services/Batch     BatchExecutor.execute and _run_precondition
-- Domain/TestState   domain/models/test_state.py: TestState
-- Core/Container     core/container.py: Container, with the factories as arguments
-- Core/Memory        core/memory.py: MemoryManager
-- Services/MemoryMonitor
--                    services/memory_monitor.py: MemoryMonitor, with its histories in
--                    MemoryMonitor/Windows and its alerts in MemoryMonitor/Alerts
-- Services/StateMonitor
--                    services/state_monitor.py: StateMonitor, over the state store
-- Interface/WebSocket
--                    interface/websocket/client.py: WebSocketClient; the loops are cut at their awaits,
--                    and `Step` in WebSocket/Steps is what the socket, the backend and the rest of
--                    the agent may do between them
-- Infrastructure/ProcessManager
--                    infrastructure/process_manager.py: SlotProcessManager, and the launch of the
--                    program
-- Controller/Windows controller/window_manager.py: SlotWindowManager and WindowManager
-- Controller/Selecting, Starting, Slots
--                    controller/controller.py: which item of a control is selected, the order of the
--                    actions in a window, and MFCController
-- Infrastructure/StateStore
--                    infrastructure/state_store.py: InMemoryStateStore
-- Services/UiState   services/mfc_ui_monitor.py: MFCUIState, and what MFCUIMonitor reads off two of them;
--                    in UiState/Reading, _read_ui_state, and _read_process_state_from_ui of
--                    services/batch_executor.py
-- Services/WorkerPool
--                    services/worker_pool.py: WorkerPool; `Step` is a call of it or a turn of one of
--                    its tasks, and `run_steps` takes them in any order
-- Services/Executors services/batch_executor.py: BatchExecutorManager
-- Agent              main.py: the callbacks of Agent on changes of the slots and on what the window
--                    monitor sees, with the slots that the two monitors watch
--                    (services/process_monitor.py, services/mfc_ui_monitor.py) and the messages that
--                    are queued for the backend; what a message says is a record, without its
--                    spelling in JSON. The callbacks run without an await up to the queue
-- Agent/Polling      MFCUIMonitor._poll_all_slots, with the agent's callbacks
-- Agent/Task         what the tasks of a slot's worker share: a state monad with exceptions, and
--                    `Event`, what may happen in the agent while one awaits; _on_process_terminated
-- Agent/Processes    services/process_monitor.py: ProcessMonitor._check_processes, with the agent's
--                    callback
-- Agent/Commands     main.py: _handle_start_test and _handle_stop_test, which give a task to the slot's
--                    worker; in Commands/Starting, Stopping and Batches the tasks
--                    _execute_start_test, _execute_stop_test and _run_batch_test, in
--                    Commands/Configuring the TestConfig of a message
-- Agent/Lifecycle    main.py: start, stop, _main_loop and _cleanup; a part of the agent is only held or
--                    not, and which calls of the parts raise is an argument
--
-- Concurrency. The agent is one asyncio loop: other tasks run only where the executor awaits. At each
-- await a `Pause` says which calls of the slot's machine and which cancellations other tasks make. The
-- controller's answers and what the window shows are part of the script too. The tasks that start
-- and stop a test are modelled the same way on the whole agent, where a `Pause` is a list of
-- `Event`s: callbacks of the monitors, triggers by other tasks, and processes that come and go.
--
-- Callbacks and systems. Where a service calls a callback, the callback is the function that says
-- whether a call returns or raises. What psutil, Windows, pywinauto, the socket and the clock answer
-- to a call is an argument of the definition that makes it.
--
-- Identity. `SlotContext` objects are shared: the machine's context carries a number that changes
-- when the machine takes a new object, and the executor keeps the object that it took with its
-- number.
--
-- Data. A message that starts a test is a record of its keys, present or missing, whose values have the
-- types of the protocol; what Python makes of values of other types is not modelled. The dictionaries
-- of TestConfig.from_dict are JSON values with natural numbers; a value of another type than its
-- field's ends from_dict by an exception of its own. Sizes of drives are in thousandths of a
-- gigabyte. An asyncio.PriorityQueue is the list of its items in the order in which it gives them.
--
-- Bounds. Times are natural numbers of milliseconds; loops and batches are natural numbers. The wait
-- runs along the list of polls, and an execution along a list of rounds, one for each batch: either
-- is `stuck` if its list ends before it does, so a script is long enough if each list of polls goes
-- on to the time limit. The main loop runs along its turns and is cancelled after the last, as
-- a process that ends by an interrupt is. The loop over batches makes as many turns as there are batches. math.ceil of
-- a float quotient is the exact rounding up, which agrees for counts below 2 ^ 53.
--
-- Not modelled: logging and settings; the finder of windows, the clocks, the scanner of drives and the
-- search of controls, which hand on to Windows and pywinauto; ControlWrapper, which nothing uses;
-- services/test_executor.py and core/exceptions.py; the handling of signals and the sending of the
-- agent's queued messages. The executor and the agent's tasks take the controller's
-- answers from a script, not from Controller/Slots.
pub mod Prelude
pub mod Domain
pub mod Services
pub mod Agent
pub mod Infrastructure
pub mod Interface
pub mod Controller
pub mod Core
