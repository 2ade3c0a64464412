-- ===== src/Room/State.antt =====
-- web/src/lib/board-socket-manager.ts: the state of a room, and the helpers that every operation uses.
use scylladb_grpc_microservi.Common.{
  ℕ, ◌+◌, ◌*◌, ◌^◌, String, Bool, true, false, Option, none, some, List, [], ◌∷◌, ◌++◌, ◌==◌, leb,
  if◌then◌else◌,
}

-- `opened` stands for "open".
pub data SocketState : Type 0 where
  connecting opened closed error : SocketState

-- `WebSocket.readyState`, `opened` for OPEN; `absent` where no socket has been made.
pub data ReadyState : Type 0 where
  absent connecting opened closing closed : ReadyState

pub record ConnectOptions : Type 0 where
  pub ws_url : String
  pub path : String

-- A frame, a text or the bytes of a buffer.
pub data Message : Type 0 where
  text : String → Message
  buffer : List ℕ → Message

-- `retry_timer` is the delay of a timer that is running. `retry` is the attempt, if any, whose promise
-- the timer's callback waits for.
pub record SocketEntry : Type 0 where
  pub ready : ReadyState
  pub opts : ConnectOptions
  pub ticket : String
  pub retries : ℕ
  pub retry_timer : Option ℕ
  pub retry : Option ℕ

-- `sent` holds what went to `ws.send`, with the socket that it went to, in order; `notified` the
-- states passed to `notifyState`.
pub record Room : Type 0 where
  pub token : Option ℕ
  pub socket : Option ℕ
  pub pending : Option ℕ
  pub aborted : ℕ → Bool
  pub entries : ℕ → SocketEntry
  pub queue : Option (List Message)
  pub sent : List (ℕ × Message)
  pub notified : List SocketState

abbrev pub update {ℓ} : {A : Type ℓ} → (ℕ → A) → ℕ → A → ℕ → A
update f i a j = if i == j then a else f j

abbrev pub no_entry : SocketEntry
no_entry = record {
  ready = ReadyState.absent;
  opts = record { ws_url = ""; path = "" };
  ticket = "";
  retries = 0;
  retry_timer = none;
  retry = none;
}

unfoldable pub new_room : Room
new_room = record {
  token = none;
  socket = none;
  pending = none;
  aborted = λ t. false;
  entries = λ t. no_entry;
  queue = none;
  sent = [];
  notified = [];
}

abbrev pub or_zero : Option ℕ → ℕ
or_zero none = 0
or_zero (some n) = n

-- `connectionTokens.get(roomId) === token`
abbrev pub token_is : Room → ℕ → Bool
token_is r t = elim r.token [ none ↦ false | some c ↦ c == t ]

abbrev pub is_open : ReadyState → Bool
is_open ReadyState.opened = true
is_open _ = false

abbrev pub is_connecting : ReadyState → Bool
is_connecting ReadyState.connecting = true
is_connecting _ = false

-- `existing?.ws.readyState`
abbrev pub socket_ready : Room → ReadyState
socket_ready r = elim r.socket [ none ↦ ReadyState.absent | some t ↦ (r.entries t).ready ]

unfoldable pub notify_state : SocketState → Room → Room
notify_state s r = record r { notified = r.notified ++ s ∷ [] }

abbrev pub set_entry : ℕ → SocketEntry → Room → Room
set_entry t e r = record r { entries = update r.entries t e }

-- `ws.close()`: a socket that is not closed begins to close.
abbrev pub close_ready : ReadyState → ReadyState
close_ready ReadyState.absent = ReadyState.absent
close_ready ReadyState.closed = ReadyState.closed
close_ready _ = ReadyState.closing

abbrev pub close_socket : ℕ → Room → Room
close_socket t r = set_entry t (record (r.entries t) { ready = close_ready (r.entries t).ready }) r

abbrev pub send_all : ℕ → List Message → List (ℕ × Message)
send_all t [] = []
send_all t (m ∷ ms) = (t, m) ∷ send_all t ms

abbrev pub queued : Option (List Message) → List Message
queued none = []
queued (some ms) = ms

unfoldable pub flush_queue : ℕ → Room → Room
flush_queue t r = record r { queue = none; sent = r.sent ++ send_all t (queued r.queue) }

-- `Math.min(500 * 2 ** retries, 30_000)`
unfoldable pub backoff : ℕ → ℕ
backoff retries = if leb (500 * 2 ^ retries) 30000 then 500 * 2 ^ retries else 30000

unfoldable pub schedule_reconnect : ℕ → Room → Room
schedule_reconnect t r =
    let e = r.entries t in
    if token_is r t
    then set_entry t (record e { retries = e.retries + 1; retry_timer = some (backoff e.retries) })
        r
    else r

-- A pending attempt that is not the current one is aborted and forgotten.
abbrev pub evict : ℕ → Room → Room
evict p r = record r { aborted = update r.aborted p true; pending = none }
