-- ===== src/Room/Listeners/Laws.antt =====
-- web/src/lib/board-socket-manager.ts: whom a message reaches.
use scylladb_grpc_microservi.Common.{
  ℕ, ◌+◌, String, Bool, true, false, not, ◌&&◌, List, [], ◌∷◌, ◌==◌, filter, if◌then◌else◌, Store,
  str_eq, ◌≡◌, refl, arith, eq_iff, inl, inr, Bool-cases, Option-cases,
}
use scylladb_grpc_microservi.Room.Listeners.{
  insert_listener, add_listener, remove_listener, notified, ListenerCall, added, removed, listen,
  listen_all,
}

-- How often the listener is called.
unfoldable pub calls_of : ℕ → List ℕ → ℕ
calls_of fn [] = 0
calls_of fn (g ∷ fns) = (if g == fn then 1 else 0) + calls_of fn fns

-- Whether the listener stands in the room's set after the calls: the last call that names it counts.
abbrev pub is_listening : (room_id : String) → ℕ → Bool → List ListenerCall → Bool
is_listening room_id fn b [] = b
is_listening room_id fn b (added r g ∷ cs) =
    is_listening room_id fn (if str_eq r room_id && g == fn then true else b) cs
is_listening room_id fn b (removed r g ∷ cs) =
    is_listening room_id fn (if str_eq r room_id && g == fn then false else b) cs

calls_of-insert_listener :
    (fn g : ℕ) (fns : List ℕ)
    → calls_of fn (insert_listener g fns)
      ≡ (if g == fn && calls_of fn fns == 0 then 1 else calls_of fn fns)
unfolding calls_of insert_listener
calls_of-insert_listener fn g [] = ground arith
calls_of-insert_listener fn g (k ∷ fns) = elim (Bool-cases (k == g)) [
  | inl e ↦ rw e (ground (arith, e))
  | inr e ↦ rw e (ground (arith, e, calls_of-insert_listener fn g fns))
]

calls_of-filter :
    (fn g : ℕ) (fns : List ℕ)
    → calls_of fn (filter (λ k. not (k == g)) fns) ≡ (if g == fn then 0 else calls_of fn fns)
unfolding calls_of
calls_of-filter fn g [] = ground arith
calls_of-filter fn g (k ∷ fns) = ground (arith, calls_of-filter fn g fns)

abbrev once : Bool → ℕ
once b = if b then 1 else 0

notified-add_listener :
    (r j : String) (g : ℕ) (m : Store (List ℕ))
    → notified j (add_listener r g m)
      ≡ (if str_eq r j then insert_listener g (notified j m) else notified j m)
unfolding add_listener
notified-add_listener r j g m = elim (Bool-cases (str_eq r j)) [
  | inl e ↦ rw (e, (eq_iff r j).0 e) refl
  | inr e ↦ rw e refl
]

notified-remove_listener :
    (r j : String) (g : ℕ) (m : Store (List ℕ))
    → notified j (remove_listener r g m)
      ≡ (if str_eq r j then filter (λ k. not (k == g)) (notified j m) else notified j m)
unfolding remove_listener
notified-remove_listener r j g m = elim (Option-cases (m r)) [
  | inl n ↦ elim (Bool-cases (str_eq r j)) [
    | inl e ↦ rw (remove_listener, n, e, ← (eq_iff r j).0 e, n) refl
    | inr e ↦ rw (remove_listener, n, e) refl
  ]
  | inr (fns, n) ↦ elim (Bool-cases (str_eq r j)) [
    | inl e ↦ rw (remove_listener, n, e, ← (eq_iff r j).0 e, n) refl
    | inr e ↦ rw (remove_listener, n, e) refl
  ]
]

step-listening :
    (c : ListenerCall) (room_id : String) (fn : ℕ) (b : Bool) (m : Store (List ℕ))
    → calls_of fn (notified room_id m) ≡ once b
    → calls_of fn (notified room_id (listen c m)) ≡ once (is_listening room_id fn b (c ∷ []))
step-listening (added r g) room_id fn b m h =
    let heard = notified-add_listener r room_id g m in
    let counted = calls_of-insert_listener fn g (notified room_id m) in
    elim (Bool-cases (str_eq r room_id)) [
      | inl e ↦ rw (heard, e, counted, h) (ground arith)
      | inr e ↦ rw (heard, e, h) refl
    ]
step-listening (removed r g) room_id fn b m h =
    let heard = notified-remove_listener r room_id g m in
    let counted = calls_of-filter fn g (notified room_id m) in
    elim (Bool-cases (str_eq r room_id)) [
      | inl e ↦ rw (heard, e, counted, h) (ground arith)
      | inr e ↦ rw (heard, e, h) refl
    ]

-- A listener hears of a room exactly once for each message, if the last call that names it and the
-- room has added it, and not at all if that call has removed it or there is none: whatever other
-- listeners and rooms do, and however often it was added.
pub listen_all-once :
    (cs : List ListenerCall) (room_id : String) (fn : ℕ) (b : Bool) (m : Store (List ℕ))
    → calls_of fn (notified room_id m) ≡ once b
    → calls_of fn (notified room_id (listen_all cs m)) ≡ once (is_listening room_id fn b cs)
listen_all-once [] room_id fn b m h = h
listen_all-once (added r g ∷ cs) room_id fn b m h =
    listen_all-once cs room_id fn _ (listen (added r g) m)
      (step-listening (added r g) room_id fn b m h)
listen_all-once (removed r g ∷ cs) room_id fn b m h =
    listen_all-once cs room_id fn _ (listen (removed r g) m)
      (step-listening (removed r g) room_id fn b m h)
