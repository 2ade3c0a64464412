-- ===== src/Notes/Presence/Laws.antt =====
-- web/src/modules/notes/components/note-view.tsx: who is shown as present, and how often cursors are
-- sent.
use scylladb_grpc_microservi.Common.{
  ℕ, ◌+◌, ◌*◌, ◌≤◌, String, Bool, true, false, ◌||◌, Option, none, some, List, [], ◌∷◌, is_blank,
  is_some, str_eq, opt_is, ltb, truthy, Dict, get, if◌then◌else◌, ◌≡◌, refl, ◌∙◌, arith, eq_iff,
  any, get-put, get-delete, Bool-cases, inl, inr,
}
use scylladb_grpc_microservi.Notes.Presence.{
  UserInfo, ListedUser, PresenceMessage, presence_list, presence, cursor, PresenceState, add_listed,
  list_users, on_presence, CursorSends, handle_mouse_move, user_info,
}

unfoldable pub on_messages : List PresenceMessage → PresenceState → PresenceState
on_messages [] s = s
on_messages (m ∷ ms) s = on_messages ms (on_presence m s)

-- Whether the user `u` is present after a message, if `b` tells whether he was before.
abbrev pub seen : String → PresenceMessage → Bool → Bool
seen u (presence_list users) b = any (λ v. opt_is v.user_id u) users
seen u (presence user joined) b = if str_eq user.user_id u then joined else b
seen u (cursor _ _ _) b = b

abbrev pub all_seen : String → List PresenceMessage → Bool → Bool
all_seen u [] b = b
all_seen u (m ∷ ms) b = all_seen u ms (seen u m b)

get-add_listed :
    (u : String) (id : Option String) (v : ListedUser) (d : Dict UserInfo)
    → is_blank u ≡ false
    → is_some (get u (add_listed (truthy id) v d)) ≡ opt_is id u || is_some (get u d)
get-add_listed u none v d h = refl
get-add_listed u (some id) v d h =
    ground (arith, eq_iff id "", eq_iff id u, eq_iff u "", get-put id u (user_info id v) d)

get-list_users :
    (u : String) (users : List ListedUser) (d : Dict UserInfo)
    → is_blank u ≡ false
    → is_some (get u (list_users users d))
      ≡ any (λ v. opt_is v.user_id u) users || is_some (get u d)
unfolding list_users
get-list_users u [] d h = refl
get-list_users u (v ∷ users) d h = ground (
  arith,
  get-list_users u users (add_listed (truthy v.user_id) v d) h,
  get-add_listed u v.user_id v d h,
)

or_false : (b : Bool) → b || false ≡ b
or_false true = refl
or_false false = refl

get-on_presence :
    (u : String) (m : PresenceMessage) (s : PresenceState)
    → is_blank u ≡ false
    → is_some (get u (on_presence m s).active_users) ≡ seen u m (is_some (get u s.active_users))
unfolding on_presence get
get-on_presence u (presence_list users) s h =
    get-list_users u users [] h ∙ or_false (any (λ v. opt_is v.user_id u) users)
get-on_presence u (presence user joined) s h = ground (
  arith,
  eq_iff user.user_id "",
  eq_iff user.user_id u,
  eq_iff u "",
  get-put user.user_id u user s.active_users,
  get-delete user.user_id u s.active_users,
)
get-on_presence u (cursor (some id) (some x) (some y)) s h = refl
get-on_presence u (cursor _ _ _) s h = refl

-- After any messages, a user (whose id is not empty) is shown as present exactly if the last message
-- that tells of him, a list or a notice of his own, has him present, or, without one, if he was
-- shown before.
pub on_messages-seen :
    (u : String) (ms : List PresenceMessage) (s : PresenceState)
    → is_blank u ≡ false
    → is_some (get u (on_messages ms s).active_users)
      ≡ all_seen u ms (is_some (get u s.active_users))
unfolding on_messages
on_messages-seen u [] s h = refl
on_messages-seen u (m ∷ ms) s h =
    rw⁻¹ (get-on_presence u m s h) (on_messages-seen u ms (on_presence m s) h)

-- Times, the latest first, of which each is at least 50 ms behind the one before.
abbrev pub IsSpaced : List ℕ → Type 0
IsSpaced [] = Unit
IsSpaced (t ∷ []) = Unit
IsSpaced (t ∷ u ∷ ts) = (u + 50 * 1000 ≤ t) × IsSpaced (u ∷ ts)

pub moves : String → List (ℕ × Bool) → CursorSends → CursorSends
moves id [] s = s
moves id ((now, mounted) ∷ es) s = moves id es (handle_mouse_move id mounted now s)

abbrev AreBefore : List ℕ → ℕ → Type 0
AreBefore [] l = Unit
AreBefore (t ∷ ts) l = t ≤ l

-- The last time of sending is no later than the recorded one.
abbrev IsThrottled : CursorSends → Type 0
IsThrottled s = IsSpaced s.sends × AreBefore s.sends s.last_send

IsSpaced-cons :
    (now l : ℕ) (ts : List ℕ)
    → IsSpaced ts
    → AreBefore ts l
    → l + 50 * 1000 ≤ now
    → IsSpaced (now ∷ ts)
IsSpaced-cons now l [] h b late = tt
IsSpaced-cons now l (t ∷ ts) h b late = (omega arith, h)

AreBefore-later : (ts : List ℕ) (l now : ℕ) → AreBefore ts l → l ≤ now → AreBefore ts now
AreBefore-later [] l now b late = tt
AreBefore-later (t ∷ ts) l now b late = omega arith

late_enough :
    (blank : Bool) (now l : ℕ) → blank || ltb now (l + 50 * 1000) ≡ false → l + 50 * 1000 ≤ now
late_enough blank now l h = ground arith

handle_mouse_move-IsThrottled :
    (id : String) (mounted : Bool) (now : ℕ) (s : CursorSends)
    → IsThrottled s
    → IsThrottled (handle_mouse_move id mounted now s)
unfolding handle_mouse_move
handle_mouse_move-IsThrottled id mounted now s (h, b) =
    elim (Bool-cases (is_blank id || ltb now (s.last_send + 50 * 1000))) [
      | inl early ↦ rw early (h, b)
      | inr e ↦
          let late = late_enough (is_blank id) now s.last_send e in
          elim (Bool-cases mounted) [
            | inl there ↦
                rw (e, there) (IsSpaced-cons now s.last_send s.sends h b late, omega arith)
            | inr gone ↦
                rw (e, gone) (h, AreBefore-later s.sends s.last_send now b (omega (arith, late)))
          ]
    ]

moves-IsThrottled :
    (id : String) (es : List (ℕ × Bool)) (s : CursorSends)
    → IsThrottled s
    → IsThrottled (moves id es s)
unfolding moves
moves-IsThrottled id [] s h = h
moves-IsThrottled id ((now, mounted) ∷ es) s h =
    moves-IsThrottled id es (handle_mouse_move id mounted now s)
      (handle_mouse_move-IsThrottled id mounted now s h)

-- Whatever the mouse does, two cursor messages in a row are at least 50 ms apart.
pub moves-IsSpaced :
    (id : String) (es : List (ℕ × Bool)) (last : ℕ)
    → IsSpaced (moves id es (record { last_send = last; sends = [] })).sends
moves-IsSpaced id es last =
    (moves-IsThrottled id es (record { last_send = last; sends = [] }) (tt, tt)).0
