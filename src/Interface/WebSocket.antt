-- ===== src/Interface/WebSocket.antt =====
-- interface/websocket/client.py: `WebSocketClient`, without the loops, which are steps of its child
-- Steps. What the socket does with a call is an argument; a payload that the backend or the agent
-- makes is known by a number. The log, the agent's name and the times in messages are left out.
pub mod Steps
pub mod Reconnecting
mod Examples
use text.Mathlib.Text.{find?}
use Prim.Native.String.{◌++◌ as str_append}
use aio_ss_usb_test_agent.Prelude.{
  ℕ, ◌+◌, ◌*◌, min, ltb, if◌then◌else◌, Bool, true, false, not, ◌&&◌, Option, none, some, is_some,
  String, str_eq, List, [], ◌∷◌, ◌++◌,
}
use aio_ss_usb_test_agent.Prelude.Dict.{Dict, get, put}
use aio_ss_usb_test_agent.Core.Memory.{string_eq}

pub data AgentState : Type 0 where
  disconnected connecting connected registered reconnecting : AgentState

pub data BackendMessageType : Type 0 where
  register_ack run_test stop_test get_status heartbeat_ack config_update get_drives :
      BackendMessageType

abbrev pub backend_text : BackendMessageType → String
backend_text BackendMessageType.register_ack = "backend:register_ack"
backend_text BackendMessageType.run_test = "backend:run_test"
backend_text BackendMessageType.stop_test = "backend:stop_test"
backend_text BackendMessageType.get_status = "backend:get_status"
backend_text BackendMessageType.heartbeat_ack = "backend:heartbeat_ack"
backend_text BackendMessageType.config_update = "backend:config_update"
backend_text BackendMessageType.get_drives = "backend:get_drives"

-- A message of the agent: its type, and what it carries.
pub data AgentMessage : Type 0 where
  register : ℕ → AgentMessage
  state_update : ℕ → ℕ → AgentMessage
  test_completed : ℕ → Option ℕ → AgentMessage
  test_failed : ℕ → Option ℕ → AgentMessage
  heartbeat : AgentMessage
  drive_list : List ℕ → AgentMessage

-- Where `run` is: before its call, at the test of the loop, in an await, or returned.
pub data RunPoint : Type 0 where
  not_begun at_head in_connect in_register in_wait returned : RunPoint
  in_sleep : ℕ → RunPoint

-- `outbox` is what the socket has taken.
pub record WebSocketClient : Type 0 where
  pub max_slots : ℕ
  pub has_ws : Bool
  pub state : AgentState
  pub reconnect_count : ℕ
  pub should_run : Bool
  pub has_on_message : Bool
  pub message_handlers : Dict String ℕ
  pub outbox : List AgentMessage
  pub run_point : RunPoint

unfoldable pub new_client : ℕ → Bool → WebSocketClient
new_client max_slots has_on_message = record {
  max_slots = max_slots;
  has_ws = false;
  state = AgentState.disconnected;
  reconnect_count = 0;
  should_run = false;
  has_on_message = has_on_message;
  message_handlers = [];
  outbox = [];
  run_point = RunPoint.not_begun;
}

abbrev pub is_connected_state : AgentState → Bool
is_connected_state AgentState.connected = true
is_connected_state AgentState.registered = true
is_connected_state _ = false

abbrev pub is_connected : WebSocketClient → Bool
is_connected c = is_connected_state c.state

unfoldable pub register_handler : BackendMessageType → ℕ → WebSocketClient → WebSocketClient
register_handler t handler c = record c {
  message_handlers = put c.message_handlers (backend_text t) handler;
}

-- What the socket does with a message: takes it, is closed (ConnectionClosed), or raises otherwise.
pub data Sent : Type 0 where
  taken closed failed : Sent

abbrev pub send_on : Sent → AgentMessage → WebSocketClient → WebSocketClient × Bool
send_on Sent.taken message c = (record c { outbox = c.outbox ++ message ∷ [] }, true)
send_on Sent.closed message c = (record c { state = AgentState.disconnected }, false)
send_on Sent.failed message c = (c, false)

unfoldable pub send : AgentMessage → Sent → WebSocketClient → WebSocketClient × Bool
send message o c = if c.has_ws && is_connected c then send_on o message c else (c, false)

unfoldable pub send_state_update : ℕ → ℕ → Sent → WebSocketClient → WebSocketClient × Bool
unfolding send
send_state_update slot_idx state_data o c = send (AgentMessage.state_update slot_idx state_data) o c

unfoldable pub send_test_completed :
    ℕ → Bool → Option ℕ → Sent → WebSocketClient → WebSocketClient × Bool
unfolding send
send_test_completed slot_idx success result_data o c =
    if success
    then send (AgentMessage.test_completed slot_idx result_data) o c
    else send (AgentMessage.test_failed slot_idx result_data) o c

unfoldable pub send_drive_list : List ℕ → Sent → WebSocketClient → WebSocketClient × Bool
unfolding send
send_drive_list drives o c = send (AgentMessage.drive_list drives) o c

-- The address with the token.
unfoldable pub url_with_token : String → String → String
url_with_token ws_url api_key =
    if str_eq api_key ""
    then ws_url
    else str_append ws_url
        (str_append (if is_some (find? ws_url "?") then "&" else "?") (str_append "token=" api_key))

-- `connect` up to the await of the socket, when there is no connection.
abbrev pub begin_connect : WebSocketClient → WebSocketClient
begin_connect c = record c { state = AgentState.connecting; run_point = RunPoint.in_connect }

-- `connect` from the answer of the socket to the await of the first message.
abbrev pub opened : WebSocketClient → WebSocketClient
opened c = record c {
  has_ws = true;
  state = AgentState.connected;
  reconnect_count = 0;
  run_point = RunPoint.in_register;
}

-- `_register`, after which `connect` returns True whatever became of the message, and `run` waits for
-- its tasks.
unfoldable pub registration : Sent → WebSocketClient → WebSocketClient
unfolding send
registration o c = record (send (AgentMessage.register c.max_slots) o c).0 {
  run_point = RunPoint.in_wait;
}

-- WEBSOCKET_RECONNECT_DELAY * min(self._reconnect_count, 5)
abbrev pub reconnect_delay : ℕ → ℕ
reconnect_delay count = 5 * min count 5

-- `_handle_reconnect`, up to its sleep or its return. The 10 are WEBSOCKET_MAX_RECONNECT_ATTEMPTS.
abbrev pub handle_reconnect : WebSocketClient → WebSocketClient
handle_reconnect c =
    let count = c.reconnect_count + 1 in
    if ltb 10 count
    then record c {
      reconnect_count = count;
      state = AgentState.reconnecting;
      should_run = false;
      run_point = RunPoint.at_head;
    }
    else record c {
      reconnect_count = count;
      state = AgentState.reconnecting;
      run_point = RunPoint.in_sleep (reconnect_delay count);
    }

-- A timeout or another exception: `connect` returns False, and `run` reconnects.
unfoldable pub connect_failed : WebSocketClient → WebSocketClient
connect_failed c = handle_reconnect (record c { state = AgentState.disconnected })

abbrev pub begin_run : WebSocketClient → WebSocketClient
begin_run c = record c { should_run = true; run_point = RunPoint.at_head }

-- The head of the loop: with a connection, `run` goes on to wait for its tasks.
unfoldable pub loop_head : WebSocketClient → WebSocketClient
loop_head c =
    if c.should_run
    then (if is_connected c then record c { run_point = RunPoint.in_wait } else begin_connect c)
    else record c { run_point = RunPoint.returned }

-- One of the tasks has ended, and the other is cancelled.
unfoldable pub tasks_ended : WebSocketClient → WebSocketClient
tasks_ended c =
    if c.should_run
    then handle_reconnect (record c { state = AgentState.disconnected })
    else record c { run_point = RunPoint.at_head }

-- What follows a message: the call of a handler, and that of the callback.
pub data Called : Type 0 where
  handler_called : ℕ → Called
  callback_called : Called

abbrev pub call_of : Option ℕ → List Called
call_of none = []
call_of (some h) = Called.handler_called h ∷ []

abbrev pub handlers_of : Option String → WebSocketClient → List Called
handlers_of none c = []
handlers_of (some t) c = call_of (get c.message_handlers t)

-- The reaction of the client itself. The drives are those of the scan, or none after an exception.
unfoldable pub react : Option String → List ℕ → Sent → WebSocketClient → WebSocketClient
unfolding send_drive_list
react none drives o c = c
react (some t) drives o c =
    if str_eq t (backend_text BackendMessageType.register_ack)
    then record c { state = AgentState.registered }
    else if str_eq t (backend_text BackendMessageType.heartbeat_ack)
    then c
    else if str_eq t (backend_text BackendMessageType.get_drives)
    then (send_drive_list drives o c).0
    else c

-- `_handle_message`, where the exceptions of the handler and of the callback are caught.
unfoldable pub handle_message :
    Option String → List ℕ → Sent → WebSocketClient → WebSocketClient × List Called
unfolding react
handle_message t drives o c = (
  react t drives o c,
  handlers_of t c ++ (if c.has_on_message then Called.callback_called ∷ [] else []),
)

-- One turn of the heartbeat's loop, after its sleep.
unfoldable pub beat : Sent → WebSocketClient → WebSocketClient
unfolding send
beat o c = if is_connected c then (send AgentMessage.heartbeat o c).0 else c

unfoldable pub disconnect : WebSocketClient → WebSocketClient
disconnect c = record c { should_run = false; has_ws = false; state = AgentState.disconnected }
