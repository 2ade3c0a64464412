-- ===== src/Notes/Color.antt =====
-- web/src/modules/notes/components/note-view.tsx: `hashColor` and the identification that a note sends
-- when its room opens. The hash is kept modulo 2 ^ 32, of which the colour reads the lower 24 bits; a
-- text is taken as its code units, and is short enough for the sums to be exact numbers.
pub mod Laws
use Prim.Native.Char.{Char, code}
use Prim.Native.String.{◌++◌}
use scylladb_grpc_microservi.Common.{
  ℕ, zero, suc, ◌+◌, ◌-◌, ◌*◌, ◌/◌, ◌%◌, ◌^◌, String, Option, none, some, ◌==◌, if◌then◌else◌,
  or_else,
}

-- `str.charCodeAt(i) + ((hash << 5) - hash)`
abbrev pub hash_step : (hash char_code : ℕ) → ℕ
hash_step hash char_code = (char_code + ((hash * 2 ^ 5) % 2 ^ 32 + (2 ^ 32 - hash))) % 2 ^ 32

unfoldable pub hash_from : ℕ → String → ℕ
hash_from hash String.[] = hash
hash_from hash (String.◌∷◌ c s) = hash_from (hash_step hash (code c)) s

unfoldable pub hex_digit : ℕ → Char
hex_digit n =
    if n == 0
    then "0"
    else if n == 1
    then "1"
    else if n == 2
    then "2"
    else if n == 3
    then "3"
    else if n == 4
    then "4"
    else if n == 5
    then "5"
    else if n == 6
    then "6"
    else if n == 7
    then "7"
    else if n == 8
    then "8"
    else if n == 9
    then "9"
    else if n == 10
    then "a"
    else if n == 11
    then "b"
    else if n == 12
    then "c"
    else if n == 13
    then "d"
    else if n == 14
    then "e"
    else "f"

-- The last `k` hexadecimal digits: for a number below 16 ^ k its text, padded with zeros on the left.
unfoldable pub hex_digits : (k n : ℕ) → String
hex_digits zero n = ""
hex_digits (suc k) n = String.◌∷◌ (hex_digit ((n / 16 ^ k) % 16)) (hex_digits k n)

unfoldable pub hash_color : String → String
unfolding hash_from hex_digits hex_digit
hash_color str = String.◌∷◌ "#" (hex_digits 6 (hash_from 0 str % 2 ^ 24))

pub record NoteUser : Type 0 where
  pub user_id : String
  pub name : Option String
  pub email : Option String

pub record Identify : Type 0 where
  pub name : String
  pub color : String

abbrev pub or_user : Option String → String
or_user none = "User"
or_user (some s) = s

-- The message of a room that has opened; `none` where no message is sent, without a note.
unfoldable pub identify : (note_id : Option String) → Option NoteUser → Option Identify
unfolding hash_color
identify none u = none
identify (some id) none = some (record { name = "User"; color = "#6366f1" })
identify (some id) (some u) =
    some (record { name = or_user (or_else u.name u.email); color = hash_color u.user_id })
