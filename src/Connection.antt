-- ===== src/Connection.antt =====
-- src/native_connection.c: the connection to the engine.
pub mod Close
pub mod Reconnect
use star_bridge.Base.{
  ℕ, zero, suc, ◌+◌, ◌-◌, ◌*◌, ◌^◌, min, Bool, true, false, not, ◌&&◌, ◌||◌, Option, none, some,
  List, [], ◌∷◌, ◌++◌, ltb, leb, ◌==◌, if◌then◌else◌, Bytes, is_empty,
}
use star_bridge.Frame.Io.{Source, Sink}
use star_bridge.Frame.Read.{Deadline, blocking, FrameResult, frame_read}
use star_bridge.Frame.Write.{frame_write}

-- `TransportType`
pub data TransportType : Type 0 where
  no_transport stdio_framed uds : TransportType

-- `ConnectionState`
pub data ConnectionState : Type 0 where
  disconnected connecting connected handshaking ready unhealthy closed : ConnectionState

-- `NativeConnection`; `none` is the descriptor -1. The limits are 0 for 0 and below.
pub record NativeConnection : Type 0 where
  pub transport : TransportType
  pub read_fd : Option ℕ
  pub write_fd : Option ℕ
  pub socket_fd : Option ℕ
  pub child_pid : ℕ
  pub state : ConnectionState
  pub protocol_version : ℕ
  pub reconnect_attempts : ℕ
  pub reconnect_max : ℕ
  pub reconnect_delay_ms : ℕ

-- The calls of the system, in order.
pub data Call : Type 0 where
  shutdown_write : ℕ → Call
  close_fd : ℕ → Call
  connect : Call
  sleep_ms : ℕ → Call

-- `nc_init`
abbrev pub nc_init : NativeConnection
nc_init = record {
  transport = no_transport;
  read_fd = none;
  write_fd = none;
  socket_fd = none;
  child_pid = 0;
  state = disconnected;
  protocol_version = 0;
  reconnect_attempts = 0;
  reconnect_max = 3;
  reconnect_delay_ms = 1000;
}

-- `nc_set_stdio`
pub nc_set_stdio : ℕ → ℕ → ℕ → NativeConnection → NativeConnection
nc_set_stdio stdin_fd stdout_fd child_pid nc = record nc {
  transport = stdio_framed;
  write_fd = some stdin_fd;
  read_fd = some stdout_fd;
  socket_fd = none;
  child_pid = child_pid;
  state = connected;
}

-- `nc_set_uds`
unfoldable pub nc_set_uds : ℕ → ℕ → NativeConnection → NativeConnection
nc_set_uds sock_fd child_pid nc = record nc {
  transport = uds;
  read_fd = some sock_fd;
  write_fd = some sock_fd;
  socket_fd = some sock_fd;
  child_pid = child_pid;
  state = connected;
}

-- `nc_shutdown_write`
pub nc_shutdown_write : NativeConnection → List Call
nc_shutdown_write nc = elim nc.write_fd [ none ↦ [] | some fd ↦ shutdown_write fd ∷ [] ]

-- `a == b` on descriptors.
unfoldable pub same_fd : Option ℕ → Option ℕ → Bool
same_fd none none = true
same_fd (some a) (some b) = a == b
same_fd _ _ = false

-- The call of `close`, if the descriptor is open and the other condition holds.
unfoldable pub close_if : Option ℕ → Bool → List Call
close_if (some fd) true = close_fd fd ∷ []
close_if _ _ = []

-- `nc_close`: its calls and the connection afterwards.
unfoldable pub nc_close : NativeConnection → List Call × NativeConnection
nc_close nc = (
  close_if nc.read_fd (not (same_fd nc.read_fd nc.write_fd))
      ++ (close_if nc.write_fd true
          ++ close_if nc.socket_fd
              (not (same_fd nc.socket_fd nc.read_fd) && not (same_fd nc.socket_fd nc.write_fd))),
  record nc { read_fd = none; write_fd = none; socket_fd = none; state = disconnected },
)

-- `nc_set_state`
unfoldable pub nc_set_state : NativeConnection → ConnectionState → NativeConnection
nc_set_state nc new_state = record nc { state = new_state }

-- What `nc_read_frame_timeout` leaves.
pub data ReadOutcome : Type 0 where
  no_connection unknown_transport : ReadOutcome
  read_frame : FrameResult → Source → ReadOutcome

-- `nc_read_frame_timeout`; `uds_frame_read` is `frame_read`.
pub nc_read_frame_timeout : (ℕ → Bool) → NativeConnection → Deadline → Source → ReadOutcome
nc_read_frame_timeout malloc_ok nc deadline source =
    let result = frame_read malloc_ok deadline source in
    elim nc.read_fd [
      | none ↦ no_connection
      | some fd ↦ elim nc.transport [
        | no_transport ↦ unknown_transport
        | _ ↦ read_frame result.0 result.1
      ]
    ]

-- `nc_write_frame`; `uds_frame_write` is `frame_write`, and `none` as a result is a script that ends
-- first.
pub nc_write_frame : NativeConnection → Option Bytes → Sink → Option Bool × Sink
nc_write_frame nc none sink = (some false, sink)
nc_write_frame nc (some json) sink =
    let sent = frame_write nc.write_fd json sink in
    elim nc.write_fd [
      | none ↦ (some false, sink)
      | some fd ↦
          if is_empty json
          then (some false, sink)
          else elim nc.transport [ no_transport ↦ (some false, sink) | _ ↦ sent ]
    ]

-- The state of the loop of `nc_reconnect`: the connection, the delay and the calls so far.
pub record Attempts : Type 0 where
  pub nc : NativeConnection
  pub delay : ℕ
  pub calls : List Call

-- What the loop does after an attempt that failed; `none` is a delay that overflows an int.
unfoldable pub after_failure : Attempts → Option Attempts
after_failure a =
    let nc = record a.nc { reconnect_attempts = a.nc.reconnect_attempts + 1 } in
    let calls = a.calls ++ (connect ∷ []) in
    if ltb nc.reconnect_attempts nc.reconnect_max
    then (if ltb (a.delay * 2) (2 ^ 31)
        then some (record {
          nc = nc;
          delay = a.delay * 2;
          calls = calls ++ (sleep_ms (min a.delay 30000) ∷ []);
        })
        else none)
    else some (record a { nc = nc; calls = calls })

-- What the loop does after an attempt that gave a descriptor.
unfoldable pub after_success : ℕ → Attempts → Attempts
after_success fd a = record a {
  nc = record a.nc {
    read_fd = some fd;
    write_fd = some fd;
    socket_fd = some fd;
    state = connected;
    reconnect_attempts = 0;
  };
  calls = a.calls ++ (connect ∷ []);
}

-- The loop of `nc_reconnect`, with the number of attempts that are left. `attempt n` is what
-- `uds_connect` returns the n-th time, from 0 on: a descriptor or an error.
unfoldable pub try_connect : (ℕ → Option ℕ) → ℕ → Attempts → Option (Attempts × Bool)
try_connect attempt zero a = some (record a { nc = nc_set_state a.nc unhealthy }, false)
try_connect attempt (suc left) a = elim (attempt a.nc.reconnect_attempts) [
  | some fd ↦ some (after_success fd a, true)
  | none ↦ elim (after_failure a) [ none ↦ none | some a' ↦ try_connect attempt left a' ]
]

abbrev is_disconnected : ConnectionState → Bool
is_disconnected disconnected = true
is_disconnected _ = false

-- The connection that the loop starts with, after the old one is closed.
unfoldable pub prepared : NativeConnection → Attempts
prepared nc =
    let closed_first = nc_close nc in
    let (calls, old) = if is_disconnected nc.state then ([], nc) else closed_first in
    record {
      nc = record (nc_set_state old connecting) { reconnect_attempts = 0 };
      delay = nc.reconnect_delay_ms;
      calls = calls;
    }

abbrev pub is_uds : TransportType → Bool
is_uds uds = true
is_uds _ = false

-- `nc_reconnect`
unfoldable pub nc_reconnect : (ℕ → Option ℕ) → Bytes → NativeConnection → Option (Attempts × Bool)
nc_reconnect attempt socket_path nc =
    let idle : Attempts = record { nc = nc; delay = nc.reconnect_delay_ms; calls = [] } in
    let tried = try_connect attempt nc.reconnect_max (prepared nc) in
    if not (is_uds nc.transport) || nc.reconnect_max == 0 || is_empty socket_path
    then some (idle, false)
    else tried
