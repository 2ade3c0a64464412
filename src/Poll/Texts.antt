-- ===== src/Poll/Texts.antt =====
-- web/src/components/editor/plugins/poll/index.ts: HTML and Markdown of a poll. The browser's reading
-- of HTML, the texts of numbers and the random ids are parameters.
pub mod Laws
use Prim.Native.String.{◌++◌}
use scylladb_grpc_microservi.Common.{
  ℕ, ◌+◌, suc, String, Bool, Option, none, some, List, [], ◌∷◌, map, length, ◌==◌, is_blank,
  if◌then◌else◌, join,
}
use scylladb_grpc_microservi.Workspace.Slug.{trim}
use scylladb_grpc_microservi.Poll.{PollOption}

pub record PollProps : Type 0 where
  pub question : String
  pub options : List PollOption

abbrev pub option_title : String → String
option_title text = if is_blank text then "Untitled option" else text

-- What an item of the list shows before its votes, and the votes.
abbrev pub vote_count : (ℕ → String) → ℕ → String
vote_count show n = "(" ++ (show n ++ (" " ++ ((if n == 1 then "vote" else "votes") ++ ")")))

abbrev pub item_html : (title count : String) → String
item_html title count =
    "<li class=\"yoopta-poll__option\">"
    ++ (title ++ (" <span class=\"yoopta-poll__votes\">" ++ (count ++ "</span></li>")))

abbrev pub poll_html : (question : String) → List (String × String) → String
poll_html question items =
    "<div class=\"yoopta-poll\"><h3 class=\"yoopta-poll__question\">"
    ++ (question
        ++ ("</h3><ul class=\"yoopta-poll__options\">"
            ++ (join "" (map (λ i. item_html i.0 i.1) items) ++ "</ul></div>")))

-- A `div` as the parser sees it: whether it has the class, the text of the question, and of each
-- option the text of its first child.
pub record PollElement : Type 0 where
  pub is_poll : Bool
  pub question_text : Option String
  pub option_texts : List (Option String)

abbrev pub trimmed : Option String → Option String
trimmed none = none
trimmed (some s) = some (trim s)

abbrev pub or_given : Option String → String → String
or_given none d = d
or_given (some s) d = s

module _ (show : ℕ → String) (uuid : ℕ → String) where
  abbrev pub item_of : PollOption → String × String
  item_of o = (option_title o.text, vote_count show (length o.votes))

  -- `html.serialize`
  unfoldable pub serialize_html : PollProps → String
  serialize_html p = poll_html p.question (map item_of p.options)

  -- `Option ${i + 1}` stands where an item has no child.
  unfoldable pub parse_options : ℕ → List (Option String) → List PollOption
  parse_options i [] = []
  parse_options i (t ∷ ts) =
      record { id = uuid i; text = or_given (trimmed t) ("Option " ++ show (i + 1)); votes = [] }
      ∷ parse_options (suc i) ts

  -- `html.deserialize.parse`
  unfoldable pub parse_html : PollElement → Option PollProps
  parse_html el =
      if el.is_poll
      then some (record {
        question = or_given (trimmed el.question_text) "";
        options = parse_options 0 el.option_texts;
      })
      else none

  -- `markdown.serialize`
  abbrev pub serialize_markdown : PollProps → String
  serialize_markdown p =
      "**Poll: "
      ++ (p.question
          ++ ("**\n\n"
              ++ (join "\n" (map (λ o. "- [ ] " ++ option_title o.text) p.options) ++ "\n")))
