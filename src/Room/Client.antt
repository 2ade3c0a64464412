-- ===== src/Room/Client.antt =====
-- web/src/lib/board-socket-manager.ts with a user of it: a component that keeps a room connected, sends
-- messages as it acts, and reads some of the messages that others send.
pub mod Laws
use mathlib.Core.List.{append_assoc, append-nil}
use scylladb_grpc_microservi.Common.{
  ℕ, String, Option, none, some, List, [], ◌∷◌, ◌++◌, All, ◌≡◌, ◌≢◌, refl, sym, ap, ◌∙◌,
  Option-cases, inl, inr,
}
use scylladb_grpc_microservi.Room.State.{Room, Message, ConnectOptions, new_room}
use scylladb_grpc_microservi.Room.Events.{send_room_message}
use scylladb_grpc_microservi.Room.Runs.{
  Event, connect, attempt_ends, socket_opens, socket_closes, socket_fails, timer_fires,
  retry_rejected, disconnect, send, step, IsEnabled, Run, start, next,
}
use scylladb_grpc_microservi.Room.Delivery.{
  frames, transcript, sends, opened_by, Run-transcript, attempt_opens, frames-opened_by,
}

-- What an action does to the component's state, the messages that it sends, in order, and what the
-- listener of another such component reads in a message.
pub record Client (S A X : Type 0) : Type 0 where
  pub act : A → S → S
  pub emits : A → S → List Message
  pub read : Message → Option X

pub record Live (S : Type 0) : Type 0 where
  pub state : S
  pub room : Room

pub data Action (A : Type 0) : Type 0 where
  own : A → Action A
  event : Event → Action A

unfoldable pub send_each : List Message → Room → Room
send_each [] r = r
send_each (m ∷ ms) r = send_each ms (send_room_message m r)

-- The component's own actions, the first one first. The actions of a run stand with the latest first.
abbrev pub owned : {A : Type 0} → List (Action A) → List A
owned [] = []
owned (own a ∷ acts) = owned acts ++ a ∷ []
owned (event e ∷ acts) = owned acts

module _ {S A X : Type 0} (c : Client S A X) where
  unfoldable pub perform : Action A → Live S → Live S
  perform (own a) l = record {
    state = c.act a l.state;
    room = send_each (c.emits a l.state) l.room;
  }
  perform (event e) l = record l { room = step e l.room }

  -- The room is not disconnected, and what else is sent is not read by the listeners.
  abbrev pub IsOther : Event → Type 0
  IsOther disconnect = ⊥
  IsOther (send m) = c.read m ≡ none
  IsOther _ = Unit

  abbrev pub IsPossible : Action A → Live S → Type 0
  IsPossible (own a) l = Unit
  IsPossible (event e) l = IsEnabled e l.room × IsOther e

  -- The actions lead from the state `s` and a new room to `l`.
  pub data LiveRun (s : S) : List (Action A) → Live S → Type 0 where
    begin : LiveRun s [] (record { state = s; room = new_room })
    after :
        {acts : List (Action A)} {l : Live S}
        → LiveRun s acts l
        → (a : Action A) → IsPossible a l
        → LiveRun s (a ∷ acts) (perform a l)

  -- What listeners read in messages, in order.
  abbrev pub read_all : List Message → List X
  read_all [] = []
  read_all (m ∷ ms) = elim (c.read m) [ none ↦ read_all ms | some x ↦ x ∷ read_all ms ]

  unfoldable pub state_after : S → List (Action A) → S
  state_after s [] = s
  state_after s (own a ∷ acts) = c.act a (state_after s acts)
  state_after s (event e ∷ acts) = state_after s acts

  -- What can be read of the messages that the actions send.
  unfoldable pub emitted : S → List (Action A) → List X
  unfolding state_after
  emitted s [] = []
  emitted s (own a ∷ acts) = emitted s acts ++ read_all (c.emits a (state_after s acts))
  emitted s (event e ∷ acts) = emitted s acts
