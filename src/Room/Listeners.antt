-- ===== src/Room/Listeners.antt =====
-- web/src/lib/board-socket-manager.ts: the sets of listeners of all rooms, `msgListeners` or
-- `stateListeners`. A listener is known by a number.
pub mod Laws
use scylladb_grpc_microservi.Common.{
  ℕ, String, Bool, true, false, not, ◌||◌, Option, none, some, List, [], ◌∷◌, ◌==◌, filter, any,
  if◌then◌else◌, Store, write, or_else,
}

-- `Set.prototype.add`: a listener that is there keeps its place.
unfoldable pub insert_listener : ℕ → List ℕ → List ℕ
insert_listener fn [] = fn ∷ []
insert_listener fn (g ∷ fns) = if g == fn then g ∷ fns else g ∷ insert_listener fn fns

abbrev pub listeners_of : Option (List ℕ) → List ℕ
listeners_of none = []
listeners_of (some fns) = fns

-- `addMessageListener` and `addStateListener`.
unfoldable pub add_listener : (room_id : String) → ℕ → Store (List ℕ) → Store (List ℕ)
add_listener room_id fn m = write room_id (insert_listener fn (listeners_of (m room_id))) m

-- The function that they return.
unfoldable pub remove_listener : (room_id : String) → ℕ → Store (List ℕ) → Store (List ℕ)
remove_listener room_id fn m = elim (m room_id) [
  | none ↦ m
  | some fns ↦ write room_id (filter (λ g. not (g == fn)) fns) m
]

-- The listeners that a message or a state of the room reaches, in order.
abbrev pub notified : (room_id : String) → Store (List ℕ) → List ℕ
notified room_id m = listeners_of (m room_id)

pub data ListenerCall : Type 0 where
  added : (room_id : String) → ℕ → ListenerCall
  removed : (room_id : String) → ℕ → ListenerCall

abbrev pub listen : ListenerCall → Store (List ℕ) → Store (List ℕ)
listen (added room_id fn) m = add_listener room_id fn m
listen (removed room_id fn) m = remove_listener room_id fn m

abbrev pub listen_all : List ListenerCall → Store (List ℕ) → Store (List ℕ)
listen_all [] m = m
listen_all (c ∷ cs) m = listen_all cs (listen c m)
