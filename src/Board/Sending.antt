-- ===== src/Board/Sending.antt =====
-- web/src/modules/whiteboard/components/whiteboard-canvas.tsx: the delayed sending of the user's edits
-- to the room. A document is its text, as the editor gives it; times are in milliseconds.
pub mod Laws
use scylladb_grpc_microservi.Common.{
  ℕ, ◌+◌, String, Option, none, some, List, [], ◌∷◌, ◌++◌, leb, if◌then◌else◌,
}

-- `debounce_timer` is the time at which the timer is due. `sent` are the documents given to the room.
pub record Sending : Type 0 where
  pub document : String
  pub debounce_timer : Option ℕ
  pub sent : List String

-- The listener of the store, after an edit that makes `document` the document: it stops the timer and
-- starts a new one.
unfoldable pub on_edit : (now : ℕ) → (document : String) → Sending → Sending
on_edit now document s = record s { document = document; debounce_timer = some (now + 200) }

-- `sendOp`, and the end of the timer.
unfoldable pub send_op : Sending → Sending
send_op s = record s { sent = s.sent ++ (s.document ∷ []); debounce_timer = none }

unfoldable pub fire : (now : ℕ) → Option ℕ → Sending → Sending
unfolding send_op
fire now none s = s
fire now (some due) s = if leb due now then send_op s else s

-- The time is `now`: a timer that is due has run.
unfoldable pub on_time : (now : ℕ) → Sending → Sending
unfolding fire
on_time now s = fire now s.debounce_timer s

-- The clean-up of the effect, when the page closes or the editor changes.
unfoldable pub clean_up : Sending → Sending
clean_up s = record s { debounce_timer = none }

-- Edits, each with the time since the one before, and its document.
abbrev pub edits : (now : ℕ) → List (ℕ × String) → Sending → Sending
edits now [] s = s
edits now ((gap, d) ∷ es) s = edits (now + gap) es (on_edit (now + gap) d (on_time (now + gap) s))
