-- ===== src/Poll/Calls.antt =====
-- web/src/components/editor/plugins/poll/poll-component.tsx and index.ts: a poll from its creation on,
-- through the calls of its handlers.
use scylladb_grpc_microservi.Common.{
  String, Bool, false, ◌||◌, Option, none, some, List, [], ◌∷◌, any, str_eq, if◌then◌else◌, ◌≡◌,
  ◌⊎◌,
}
use scylladb_grpc_microservi.Poll.{
  PollOption, handle_vote, handle_option_text, handle_add_option, handle_delete_option,
}
use scylladb_grpc_microservi.Poll.Texts.{PollProps}

-- The props of a poll that `beforeCreate` makes, with two random ids, and the plugin's own props.
abbrev pub blank_option : String → PollOption
blank_option id = record { id = id; text = ""; votes = [] }

abbrev pub new_poll : (first second : String) → PollProps
new_poll first second = record {
  question = "Your question here…";
  options = blank_option first ∷ blank_option second ∷ [];
}

abbrev pub default_poll : PollProps
default_poll = new_poll "default-opt-1" "default-opt-2"

-- `updateProps` with new options, or not called.
unfoldable pub update_options : Option (List PollOption) → PollProps → PollProps
update_options none p = p
update_options (some options) p = record p { options = options }

unfoldable pub handle_question : String → PollProps → PollProps
handle_question value p = record p { question = value }

-- A key pressed on an option; `on_itself` is false where the event comes from the input inside.
unfoldable pub handle_key_down :
    (on_itself : Bool)
    → (key : String) → Bool
    → String
    → PollOption
    → List PollOption
    → Option (List PollOption)
handle_key_down on_itself key is_authenticated user option options =
    if on_itself
    then if str_eq key "Enter" || str_eq key " "
      then handle_vote is_authenticated user option options
      else none
    else none

pub data PollCall : Type 0 where
  vote : (is_authenticated : Bool) → (user : String) → PollOption → PollCall
  key_down :
      (on_itself : Bool)
      → (key : String) → (is_authenticated : Bool) → (user : String) → PollOption
      → PollCall
  option_text : PollOption → String → PollCall
  add_option : (uuid : String) → PollCall
  delete_option : PollOption → PollCall
  question : String → PollCall

unfoldable pub call : PollCall → PollProps → PollProps
call (vote is_authenticated user option) p =
    update_options (handle_vote is_authenticated user option p.options) p
call (key_down on_itself key is_authenticated user option) p =
    update_options (handle_key_down on_itself key is_authenticated user option p.options) p
call (option_text option text) p =
    update_options (some (handle_option_text option text p.options)) p
call (add_option uuid) p = update_options (some (handle_add_option uuid p.options)) p
call (delete_option option) p = update_options (handle_delete_option option p.options) p
call (question value) p = handle_question value p

abbrev pub has_id : String → List PollOption → Bool
has_id id options = any (λ o. str_eq o.id id) options

abbrev pub Contains : PollOption → List PollOption → Type 0
Contains option [] = ⊥
Contains option (o ∷ options) = (o ≡ option) ⊎ Contains option options

-- A handler has an option of the poll, and a random id is new.
abbrev pub IsPossible : PollCall → PollProps → Type 0
IsPossible (vote _ _ option) p = Contains option p.options
IsPossible (key_down _ _ _ _ option) p = Contains option p.options
IsPossible (option_text option _) p = Contains option p.options
IsPossible (add_option uuid) p = has_id uuid p.options ≡ false
IsPossible (delete_option option) p = Contains option p.options
IsPossible (question _) p = Unit

unfoldable pub calls : List PollCall → PollProps → PollProps
calls [] p = p
calls (c ∷ cs) p = calls cs (call c p)

abbrev pub ArePossible : List PollCall → PollProps → Type 0
ArePossible [] p = Unit
ArePossible (c ∷ cs) p = IsPossible c p × ArePossible cs (call c p)
