-- ===== src/Board/Sending/Laws.antt =====
-- web/src/modules/whiteboard/components/whiteboard-canvas.tsx: bursts of edits.
use scylladb_grpc_microservi.Common.{
  ℕ, ◌+◌, ◌<◌, ◌≤◌, String, false, some, List, [], ◌∷◌, ◌++◌, leb, All, ◌≡◌, refl, ap, ◌∙◌, arith,
}
use scylladb_grpc_microservi.Board.Sending.{
  Sending, on_edit, send_op, fire, on_time, clean_up, edits,
}

abbrev pub last_document : String → List (ℕ × String) → String
last_document d [] = d
last_document d ((gap, e) ∷ es) = last_document e es

abbrev pub last_time : ℕ → List (ℕ × String) → ℕ
last_time now [] = now
last_time now ((gap, e) ∷ es) = last_time (now + gap) es

-- The edit comes less than 200 milliseconds after the one before.
abbrev pub IsQuick : ℕ × String → Type 0
IsQuick e = e.0 < 200

on_time-waiting :
    (now due : ℕ) (s : Sending) → s.debounce_timer ≡ some due → now < due → on_time now s ≡ s
unfolding on_time fire
on_time-waiting now due s e h = let early : leb due now ≡ false = ground arith in rw (e, early) refl

on_edit-again :
    (now gap : ℕ) (d e : String) (s : Sending)
    → gap < 200
    → on_edit (now + gap) e (on_time (now + gap) (on_edit now d s)) ≡ on_edit (now + gap) e s
unfolding on_edit
on_edit-again now gap d e s quick =
    ap (on_edit (now + gap) e)
      (on_time-waiting (now + gap) (now + 200) (on_edit now d s) refl (omega arith))

edits-burst :
    (now : ℕ) (d : String) (es : List (ℕ × String)) (s : Sending)
    → All IsQuick es
    → edits now es (on_edit now d s) ≡ on_edit (last_time now es) (last_document d es) s
edits-burst now d [] s quick = refl
edits-burst now d ((gap, e) ∷ es) s quick =
    ap (edits (now + gap) es) (on_edit-again now gap d e s quick.0)
    ∙ edits-burst (now + gap) e es s quick.1

on_time-due :
    (now later : ℕ) (d : String) (s : Sending)
    → now + 200 ≤ later
    → (on_time later (on_edit now d s)).sent ≡ s.sent ++ (d ∷ [])
unfolding on_edit on_time fire send_op
on_time-due now later d s h = ground arith

-- A burst of edits, each less than 200 milliseconds after the one before, is sent once, with the
-- document of the last edit, when 200 milliseconds have passed since that edit.
pub burst-sent_once :
    (now : ℕ) (d : String) (es : List (ℕ × String)) (s : Sending) (later : ℕ)
    → All IsQuick es
    → last_time now es + 200 ≤ later
    → (on_time later (edits now es (on_edit now d s))).sent ≡ s.sent ++ (last_document d es ∷ [])
burst-sent_once now d es s later quick h =
    ap (λ x. (on_time later x).sent) (edits-burst now d es s quick)
    ∙ on_time-due (last_time now es) later (last_document d es) s h

-- When the page closes before the timer is due, nothing more is sent: the edits of the last burst
-- stay on this page.
pub clean_up-unsent :
    (now : ℕ) (d : String) (es : List (ℕ × String)) (s : Sending) (later : ℕ)
    → All IsQuick es
    → (on_time later (clean_up (edits now es (on_edit now d s)))).sent ≡ s.sent
unfolding clean_up on_time fire on_edit
clean_up-unsent now d es s later quick =
    ap (λ x. (on_time later (clean_up x)).sent) (edits-burst now d es s quick)
