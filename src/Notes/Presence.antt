-- ===== src/Notes/Presence.antt =====
-- web/src/modules/notes/components/note-view.tsx: who is in a note, and the cursors. A coordinate is
-- the text of a number, since it is only copied. Times are microseconds.
pub mod Laws
use scylladb_grpc_microservi.Common.{
  ℕ, ◌+◌, ◌*◌, String, Bool, true, false, ◌||◌, not, Option, none, some, List, [], ◌∷◌, ◌++◌,
  is_blank, str_eq, ltb, truthy, Dict, get, put, delete, if◌then◌else◌,
}

pub record UserInfo : Type 0 where
  pub user_id : String
  pub name : String
  pub color : String
  pub avatar : Option String

-- An element of a presence list; a field that is missing is `none`, and all are for a null element.
pub record ListedUser : Type 0 where
  pub user_id : Option String
  pub name : Option String
  pub color : Option String
  pub avatar : Option String

pub record CursorInfo : Type 0 where
  pub x : String
  pub y : String
  pub name : String
  pub color : String

-- A list that is no array is the empty one.
pub data PresenceMessage : Type 0 where
  presence_list : List ListedUser → PresenceMessage
  presence : (user : UserInfo) (joined : Bool) → PresenceMessage
  cursor : (user_id x y : Option String) → PresenceMessage

-- `rendered` is `activeUsersRef.current`: the users of the last render.
pub record PresenceState : Type 0 where
  pub active_users : Dict UserInfo
  pub rendered : Dict UserInfo
  pub cursors : Dict CursorInfo

abbrev pub or_default {ℓ} : {A : Type ℓ} → Option A → A → A
or_default none d = d
or_default (some a) d = a

abbrev pub user_info : String → ListedUser → UserInfo
user_info id u = record {
  user_id = id;
  name = or_default u.name "Unknown";
  color = or_default u.color "#6366f1";
  avatar = u.avatar;
}

abbrev pub add_listed : Option String → ListedUser → Dict UserInfo → Dict UserInfo
add_listed none u next = next
add_listed (some id) u next = put id (user_info id u) next

-- The loop over `msg.users`.
unfoldable pub list_users : List ListedUser → Dict UserInfo → Dict UserInfo
list_users [] next = next
list_users (u ∷ us) next = list_users us (add_listed (truthy u.user_id) u next)

abbrev pub cursor_info : String → String → String → Option UserInfo → CursorInfo
cursor_info id x y none = record { x = x; y = y; name = id; color = "#6366f1" }
cursor_info id x y (some u) = record { x = x; y = y; name = u.name; color = u.color }

unfoldable pub on_presence : PresenceMessage → PresenceState → PresenceState
on_presence (presence_list users) s = record s { active_users = list_users users [] }
on_presence (presence user joined) s =
    if is_blank user.user_id
    then s
    else if joined
    then record s { active_users = put user.user_id user s.active_users }
    else record s {
      active_users = delete user.user_id s.active_users;
      cursors = delete user.user_id s.cursors;
    }
on_presence (cursor (some id) (some x) (some y)) s = record s {
  cursors = put id (cursor_info id x y (get id s.rendered)) s.cursors;
}
on_presence (cursor _ _ _) s = s

unfoldable pub on_render : PresenceState → PresenceState
on_render s = record s { rendered = s.active_users }

-- `lastCursorSendRef`, and the times at which a cursor was sent, the latest first.
pub record CursorSends : Type 0 where
  pub last_send : ℕ
  pub sends : List ℕ

-- The handler of a mouse move; `mounted` tells whether the container is there.
unfoldable pub handle_mouse_move : String → Bool → ℕ → CursorSends → CursorSends
handle_mouse_move note_id mounted now s =
    if is_blank note_id || ltb now (s.last_send + 50 * 1000)
    then s
    else if mounted
    then record { last_send = now; sends = now ∷ s.sends }
    else record s { last_send = now }
