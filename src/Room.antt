-- ===== src/Room.antt =====
-- web/src/lib/board-socket-manager.ts. Every function takes a room id and reads and writes the six
-- maps at that id alone, so the model is the state of one room: each field is one map's value there,
-- `none` where the map has no such key.
-- An attempt to connect takes a token that no other attempt of the room has, and makes at most one
-- socket; so the token names the attempt, its promise and AbortController, its socket and its
-- `SocketEntry`. `entries` is the heap of these: an entry lives on after it has left the map.
pub mod State
pub mod Listeners
pub mod Connect
pub mod Events
pub mod Invariant
pub mod Runs
pub mod Delivery
pub mod Client
pub mod Retries
mod Tests
