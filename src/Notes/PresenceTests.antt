-- ===== src/Notes/PresenceTests.antt =====
-- web/src/modules/notes/components/note-view.tsx: presence and cursors on concrete messages, and the
-- theorems applied to them.
use scylladb_grpc_microservi.Common.{
  true, false, none, some, List, [], ◌∷◌, ◌≡◌, refl, is_some, get, put, delete,
}
use scylladb_grpc_microservi.Notes.Color.{hash_color, hex_digits, hash_from, hex_digit}
use scylladb_grpc_microservi.Notes.Presence.{
  UserInfo, ListedUser, PresenceMessage, presence_list, presence, cursor, PresenceState, list_users,
  on_presence,
}
use scylladb_grpc_microservi.Notes.Presence.Laws.{on_messages, on_messages-seen}

abbrev ada : UserInfo
ada = record { user_id = "u1"; name = "Ada"; color = "#123456"; avatar = none }

abbrev listed_bob : ListedUser
listed_bob = record { user_id = some "u2"; name = none; color = none; avatar = none }

abbrev nobody : PresenceState
nobody = record { active_users = []; rendered = []; cursors = [] }

abbrev messages : List PresenceMessage
messages =
    presence_list (listed_bob ∷ [])
    ∷ presence ada true
    ∷ cursor (some "u1") (some "3") (some "4")
    ∷ presence ada false
    ∷ []

gone_without_cursor :
    (get "u1" (on_messages messages nobody).active_users ≡ none)
    × ((on_messages messages nobody).cursors ≡ [])
unfolding on_messages on_presence list_users get put delete
gone_without_cursor = (refl, refl)

on_messages-seen_example : is_some (get "u2" (on_messages messages nobody).active_users) ≡ true
unfolding get
on_messages-seen_example = on_messages-seen "u2" messages nobody refl

color_of_u1 : hash_color "u1" ≡ "#000e5c"
unfolding hash_color hash_from hex_digits hex_digit
color_of_u1 = refl
