-- ===== src/Runner/Transcript.antt =====
-- The text of a nested history: crates/agents-core/src/handoff/history.rs, with the default markers.
-- Positions count characters; the code's byte positions stand in the same order. The markers do not
-- overlap, so the slice between them is never out of range.
use Prim.Native.Char.{Char, code}
use Prim.Native.Nat.{◌/◌, ◌%◌}
use openai_agents_rust.Prelude.{
  ℕ, zero, suc, ◌+◌, ◌-◌, ◌*◌, String, Bool, true, false, not, ◌&&◌, Option, none, some, List, [],
  ◌∷◌, ◌++◌, map, filter_map, keep_if, nat_eq, leb, ltb, if◌then◌else◌, unwrap_or, ◌>>=◌,
}
use openai_agents_rust.Json.{Value, string, object, field, end, get, as_str}
use openai_agents_rust.Items.{InputItem}
use openai_agents_rust.ToolIdentity.{concat, is_empty, trim}
use openai_agents_rust.RunState.{usize_mod}
use openai_agents_rust.Tools.{SerdeJson}

abbrev pub default_conversation_history_start : String
default_conversation_history_start = "<CONVERSATION HISTORY>"

abbrev pub default_conversation_history_end : String
default_conversation_history_end = "</CONVERSATION HISTORY>"

abbrev pub digit : ℕ → String
digit zero = "0"
digit (suc zero) = "1"
digit (suc (suc zero)) = "2"
digit (suc (suc (suc zero))) = "3"
digit (suc (suc (suc (suc zero)))) = "4"
digit (suc (suc (suc (suc (suc zero))))) = "5"
digit (suc (suc (suc (suc (suc (suc zero)))))) = "6"
digit (suc (suc (suc (suc (suc (suc (suc zero))))))) = "7"
digit (suc (suc (suc (suc (suc (suc (suc (suc zero)))))))) = "8"
digit _ = "9"

-- The decimal text of a usize, which has at most 20 digits.
unfoldable pub decimal_from : ℕ → ℕ → String
decimal_from zero n = ""
decimal_from (suc fuel) n = elim (ltb n 10) [
  | true ↦ digit n
  | false ↦ concat (decimal_from fuel (n / 10)) (digit (n % 10))
]

abbrev pub decimal : ℕ → String
decimal = decimal_from 20

-- `str::starts_with`, `str::find`, `str::split_once` and the two halves of a slice
unfoldable pub starts_with : String → String → Bool
starts_with String.[] s = true
starts_with (String.◌∷◌ c p) String.[] = false
starts_with (String.◌∷◌ c p) (String.◌∷◌ d s) = nat_eq (code c) (code d) && starts_with p s

abbrev pub map_suc : Option ℕ → Option ℕ
map_suc none = none
map_suc (some n) = some (suc n)

unfoldable pub find_text : String → String → Option ℕ
unfolding starts_with
find_text p String.[] = if starts_with p String.[] then some 0 else none
find_text p (String.◌∷◌ c s) =
    let rest = find_text p s in if starts_with p (String.◌∷◌ c s) then some 0 else map_suc rest

unfoldable pub chars_count : String → ℕ
chars_count String.[] = 0
chars_count (String.◌∷◌ c s) = suc (chars_count s)

unfoldable pub take_text : ℕ → String → String
take_text zero s = String.[]
take_text (suc n) String.[] = String.[]
take_text (suc n) (String.◌∷◌ c s) = String.◌∷◌ c (take_text n s)

unfoldable pub drop_text : ℕ → String → String
drop_text zero s = s
drop_text (suc n) String.[] = String.[]
drop_text (suc n) (String.◌∷◌ c s) = drop_text n s

abbrev pub before : Char → Option (String × String) → Option (String × String)
before c none = none
before c (some (a, b)) = some (String.◌∷◌ c a, b)

unfoldable pub split_once : ℕ → String → Option (String × String)
split_once d String.[] = none
split_once d (String.◌∷◌ c s) =
    let rest = split_once d s in if nat_eq (code c) d then some (String.[], s) else before c rest

-- The lines of a text. A carriage return before the line's end stays: the lines are trimmed.
abbrev pub push_char : Char → List String → List String
push_char c [] = String.◌∷◌ c String.[] ∷ []
push_char c (l ∷ ls) = String.◌∷◌ c l ∷ ls

unfoldable pub lines : String → List String
lines String.[] = String.[] ∷ []
lines (String.◌∷◌ c s) =
    let rest = lines s in if nat_eq (code c) 10 then String.[] ∷ rest else push_char c rest

-- `str::parse::<usize>`: digits, after a plus sign or not, below 2 ^ 64.
unfoldable pub parse_digits : String → ℕ → Option ℕ
parse_digits String.[] n = some n
parse_digits (String.◌∷◌ c s) n =
    let rest = parse_digits s (n * 10 + (code c - 48)) in
    if leb 48 (code c) && (leb (code c) 57 && ltb (n * 10 + (code c - 48)) usize_mod)
    then rest
    else none

unfoldable pub parse_usize : String → Option ℕ
unfolding parse_digits
parse_usize String.[] = none
parse_usize (String.◌∷◌ c String.[]) = parse_digits (String.◌∷◌ c String.[]) 0
parse_usize (String.◌∷◌ c (String.◌∷◌ d s)) =
    if nat_eq (code c) 43
    then parse_digits (String.◌∷◌ d s) 0
    else parse_digits (String.◌∷◌ c (String.◌∷◌ d s)) 0

unfoldable pub message_value : String → String → Value
message_value role content =
    object (field "content" (string content) (field "role" (string role) end))

-- The number in front of a line, if there is one, is dropped.
unfoldable pub strip_number : String → String
unfolding split_once parse_usize trim
strip_number line = elim (split_once 46 line) [
  | none ↦ trim line
  | some (prefix', rest) ↦ elim (parse_usize prefix') [
    | none ↦ trim line
    | some n ↦ trim (trim rest)
  ]
]

unfoldable pub parse_summary_line : String → Option InputItem
unfolding strip_number split_once trim message_value
parse_summary_line line = elim (split_once 58 (strip_number line)) [
  | none ↦ none
  | some (role, remainder) ↦ elim (is_empty (trim remainder)) [
    | true ↦ none
    | false ↦ some (InputItem.json (message_value (trim role) (trim remainder)))
  ]
]

-- What the body between the markers is read as.
unfoldable pub parse_body : String → List InputItem
unfolding lines parse_summary_line trim
parse_body body =
    filter_map parse_summary_line (keep_if (λ l. not (is_empty l)) (map trim (lines body)))

unfoldable pub transcript_of_text : String → Option (List InputItem)
unfolding find_text parse_body take_text drop_text chars_count
transcript_of_text content = find_text default_conversation_history_start content >>= λ start.
    find_text default_conversation_history_end content >>= λ stop.
    if leb stop start
    then none
    else some (
        parse_body (
          drop_text (start + chars_count default_conversation_history_start)
            (take_text stop content)))

unfoldable pub extract_nested_history_transcript : InputItem → Option (List InputItem)
unfolding transcript_of_text
extract_nested_history_transcript (InputItem.text t) = none
extract_nested_history_transcript (InputItem.json v) =
    (get "content" v >>= as_str) >>= transcript_of_text

unfoldable pub flatten_nested_history_messages : List InputItem → List InputItem
unfolding extract_nested_history_transcript
flatten_nested_history_messages [] = []
flatten_nested_history_messages (item ∷ items) =
    unwrap_or (extract_nested_history_transcript item) (item ∷ [])
    ++ flatten_nested_history_messages items

module _ (serde : SerdeJson) where
  unfoldable pub stringify_content : Value → String
  stringify_content (string t) = t
  stringify_content v = serde.to_string v

  abbrev pub with_role : String → String → String
  with_role role content = if is_empty content then role else concat (concat role ": ") content

  abbrev pub content_text : Option Value → String
  content_text none = ""
  content_text (some v) = stringify_content v

  unfoldable pub format_transcript_item : InputItem → String
  unfolding stringify_content
  format_transcript_item (InputItem.text t) = concat "user: " t
  format_transcript_item (InputItem.json v) = elim (get "role" v >>= as_str) [
    | some role ↦ with_role role (content_text (get "content" v))
    | none ↦ concat (concat (unwrap_or (get "type" v >>= as_str) "item") ": ") (stringify_content v)
  ]

  unfoldable pub numbered_lines : ℕ → List InputItem → List String
  unfolding decimal_from format_transcript_item
  numbered_lines index [] = []
  numbered_lines index (item ∷ items) =
      concat (concat (decimal (suc index)) ". ") (format_transcript_item item)
      ∷ numbered_lines (suc index) items

  unfoldable pub summary_lines : List InputItem → List String
  unfolding numbered_lines
  summary_lines [] = "(no previous turns recorded)" ∷ []
  summary_lines (item ∷ items) = numbered_lines 0 (item ∷ items)

  -- `join("\n")`
  unfoldable pub join_lines : List String → String
  join_lines [] = ""
  join_lines (l ∷ []) = l
  join_lines (l ∷ m ∷ ls) = concat (concat l "\n") (join_lines (m ∷ ls))

  unfoldable pub build_summary_message : List InputItem → InputItem
  unfolding summary_lines join_lines message_value
  build_summary_message transcript = InputItem.json (
      message_value "assistant" (
        join_lines (
          "For context, here is the conversation so far between the user and the previous agent:"
          ∷ default_conversation_history_start
          ∷ (summary_lines transcript ++ default_conversation_history_end ∷ []))))

  unfoldable pub default_handoff_history_mapper : List InputItem → List InputItem
  unfolding build_summary_message
  default_handoff_history_mapper transcript = build_summary_message transcript ∷ []
