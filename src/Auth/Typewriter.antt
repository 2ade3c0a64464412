-- ===== src/Auth/Typewriter.antt =====
-- web/src/modules/auth/components/auth.tsx: the text that `Typewriter` shows. A tick is one run of the
-- effect's timer; the wait before the text is deleted counts as one.
pub mod Laws
use Prim.Native.String.{◌++◌}
use scylladb_grpc_microservi.Common.{
  ℕ, zero, suc, ◌+◌, ◌-◌, ◌%◌, String, Bool, true, false, List, [], ◌∷◌, ltb, length, is_blank,
  if◌then◌else◌, text_length, text_take, text_drop,
}

pub record Typing : Type 0 where
  pub display_text : String
  pub current_index : ℕ
  pub is_deleting : Bool
  pub text_array_index : ℕ

-- `textArray[i] || ""`
unfoldable pub text_at : ℕ → List String → String
text_at i [] = ""
text_at zero (t ∷ ts) = t
text_at (suc i) (t ∷ ts) = text_at i ts

abbrev pub char_at : ℕ → String → String
char_at i s = text_take 1 (text_drop i s)

unfoldable pub type_on : Bool → (current_text : String) → Typing → Typing
type_on loop current_text s =
    if ltb s.current_index (text_length current_text)
    then record s {
      display_text = s.display_text ++ char_at s.current_index current_text;
      current_index = s.current_index + 1;
    }
    else if loop
    then record s { is_deleting = true }
    else s

unfoldable pub delete_on : (texts : ℕ) → Typing → Typing
delete_on texts s =
    if ltb 0 (text_length s.display_text)
    then record s { display_text = text_take (text_length s.display_text - 1) s.display_text }
    else record s {
      is_deleting = false;
      current_index = 0;
      text_array_index = (s.text_array_index + 1) % texts;
    }

unfoldable pub tick : Bool → List String → Typing → Typing
tick loop texts s =
    let current_text = text_at s.text_array_index texts in
    if is_blank current_text
    then s
    else if s.is_deleting
    then delete_on (length texts) s
    else type_on loop current_text s

abbrev pub ticks : Bool → List String → ℕ → Typing → Typing
ticks loop texts zero s = s
ticks loop texts (suc n) s = tick loop texts (ticks loop texts n s)

abbrev pub start : ℕ → Typing
start i = record { display_text = ""; current_index = 0; is_deleting = false; text_array_index = i }
