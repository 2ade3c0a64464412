-- ===== src/Poll/Texts/Laws.antt =====
-- web/src/components/editor/plugins/poll/index.ts: what a poll keeps on its way through HTML.
use Prim.Native.String.{◌++◌}
use scylladb_grpc_microservi.Common.{
  ℕ, suc, String, true, Option, some, List, [], ◌∷◌, map, ◌≡◌, refl, ap,
}
use scylladb_grpc_microservi.Workspace.Slug.{trim}
use scylladb_grpc_microservi.Sticky.Laws.{is_plain}
use scylladb_grpc_microservi.Poll.{PollOption}
use scylladb_grpc_microservi.Poll.Texts.{
  PollProps, option_title, poll_html, PollElement, item_of, serialize_html, parse_options,
  parse_html,
}

abbrev pub first_text : String × String → Option String
first_text i = some (i.0 ++ " ")

abbrev pub AllPlain : List (String × String) → Type 0
AllPlain [] = Unit
AllPlain (i ∷ is) = (is_plain i.0 ≡ true) × (is_plain i.1 ≡ true) × AllPlain is

-- The browser reads plain texts of a poll as they are written; the first child of an item is the text
-- with the space behind it.
abbrev pub ReadsPoll : (String → PollElement) → Type 0
ReadsPoll read_div =
    (question : String) (items : List (String × String))
    → is_plain question ≡ true
    → AllPlain items
    → read_div (poll_html question items) ≡ record {
      is_poll = true;
      question_text = some question;
      option_texts = map first_text items;
    }

module _ (show : ℕ → String) (uuid : ℕ → String) where
  -- The option that comes back: trimmed, under a new id, without votes.
  abbrev pub returned_options : ℕ → List PollOption → List PollOption
  returned_options i [] = []
  returned_options i (o ∷ os) =
      record { id = uuid i; text = trim (option_title o.text ++ " "); votes = [] }
      ∷ returned_options (suc i) os

  parse_options-returned :
      (i : ℕ) (os : List PollOption)
      → parse_options show uuid i (map first_text (map (item_of show uuid) os))
        ≡ returned_options i os
  unfolding parse_options
  parse_options-returned i [] = refl
  parse_options-returned i (o ∷ os) =
      ap
        (λ rest.
          record { id = uuid i; text = trim (option_title o.text ++ " "); votes = [] } ∷ rest)
        (parse_options-returned (suc i) os)

  -- A poll of plain texts comes back from its HTML, if the browser reads plain texts as they are
  -- written, with its question trimmed and as many options in the same order: each has its text
  -- trimmed, or the placeholder where it had none, and no votes.
  pub parse_html-serialize_html_poll :
      (read_div : String → PollElement)
      → ReadsPoll read_div
      → (p : PollProps) → is_plain p.question ≡ true
      → AllPlain (map (item_of show uuid) p.options)
      → parse_html show uuid (read_div (serialize_html show uuid p))
        ≡ some (record { question = trim p.question; options = returned_options 0 p.options })
  unfolding serialize_html parse_html
  parse_html-serialize_html_poll read_div reads p plain items =
      rw (reads p.question (map (item_of show uuid) p.options) plain items) (
        ap (λ os. some (record { question = trim p.question; options = os }))
          (parse_options-returned 0 p.options))
