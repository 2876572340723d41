-- ===== src/Trimmer/Tests.antt =====
-- Runs of the trimmer of crates/agents-extensions/src/extensions/tool_output_trimmer.rs, and
-- instances of its laws.
use openai_agents_rust.Prelude.{String, List, [], ◌∷◌, none, some, Option, ◌≡◌, refl, arith}
use openai_agents_rust.Json.{Value, string, array, object, nil, cons, end, field, as_str, lookup}
use openai_agents_rust.Items.{InputItem}
use openai_agents_rust.Errors.{ok, err, message}
use openai_agents_rust.ToolIdentity.{concat}
use openai_agents_rust.Tools.{SerdeJson}
use openai_agents_rust.Runner.{ModelInputData}
use openai_agents_rust.Trimmer.{ToolOutputTrimmer, validate, byte_len}
use openai_agents_rust.Trimmer.Apply.{apply_trimmer, trim_item}
use openai_agents_rust.Trimmer.Calls.{build_call_id_to_names, call_names_from}
use openai_agents_rust.Trimmer.Schema.{trim_tool_search_tool, trim_json_schema}
use openai_agents_rust.Runner.Transcript.{take_text}
use openai_agents_rust.Trimmer.Recent.{IsRecent, trimmed, apply_trimmer-IsRecent}
use openai_agents_rust.Trimmer.Edited.{IsTrimmed, trim_item-IsTrimmed}

-- The JSON text of a text without escapes, and of nothing else
abbrev quoted : Option String → String
quoted none = "[]"
quoted (some s) = concat "\"" (concat s "\"")

abbrev serde : SerdeJson
serde = record {
  to_string = λ v. quoted (as_str v);
  to_string_pretty = λ v. quoted (as_str v);
  from_str = λ s. some (string s);
}

abbrev trimmer : ToolOutputTrimmer
trimmer = record {
  recent_turns = 1;
  max_output_chars = 50;
  preview_chars = 3;
  trimmable_tools = some ("search" ∷ []);
}

abbrev user : String → InputItem
user s = InputItem.json (object (field "content" (string s) (field "role" (string "user") end)))

abbrev call : Value
call = object (
    field "call_id" (string "c1")
      (field "name" (string "search") (field "type" (string "function_call") end)))

abbrev output : String → Value
output s = object (
    field "call_id" (string "c1")
      (field "output" (string s) (field "type" (string "function_call_output") end)))

abbrev long : String
long = "0123456789012345678901234567890123456789012345678901234567890123456789"

abbrev summarized : String
summarized = "[Trimmed: search output - 72 chars -> 3 char preview]\n\"01..."

abbrev just_over : String
just_over = "01234567890123456789012345678901234567890123456789012345678"

abbrev over_summary : String
over_summary = "[Trimmed: search output - 61 chars -> 3 char preview]\n\"01..."

abbrev items : List InputItem
items =
    user "older"
    ∷ InputItem.json call
    ∷ InputItem.json (output long)
    ∷ user "recent"
    ∷ InputItem.json (output long)
    ∷ []

abbrev data_of : List InputItem → ModelInputData
data_of input = record { input = input; instructions = some "be brief" }

trims_old_outputs :
    apply_trimmer serde trimmer (data_of items)
    ≡ ok (
        data_of (
          user "older"
          ∷ InputItem.json call
          ∷ InputItem.json (output summarized)
          ∷ user "recent"
          ∷ InputItem.json (output long)
          ∷ []))
unfolding apply_trimmer
trims_old_outputs = refl

-- The quotes of the JSON text are counted, so a text may be replaced by one that is longer by a byte.
lengthens_output :
    (byte_len just_over ≡ 59)
    × (byte_len over_summary ≡ 60)
    × (trim_item serde trimmer (build_call_id_to_names items) (InputItem.json (output just_over))
        ≡ some (InputItem.json (output over_summary)))
unfolding trim_item call_names_from byte_len
lengthens_output = (refl, refl, refl)

refuses_no_turns :
    validate (record trimmer { recent_turns = 0 })
    ≡ err (message "recent_turns must be >= 1, got 0")
unfolding validate
refuses_no_turns = refl

-- A tool that is not on the list is left alone.
leaves_other_tools :
    trim_item serde
      (record trimmer { trimmable_tools = some ("shell" ∷ []) })
      (build_call_id_to_names items)
      (InputItem.json (output long))
    ≡ none
unfolding trim_item call_names_from
leaves_other_tools = refl

drops_descriptions :
    trim_json_schema (
      field "description" (string "d") (
        field "items"
          (array (cons (object (field "title" (string "t") end)) nil))
          (field "type" (string "array") end)))
    ≡ field "items" (array (cons (object end) nil)) (field "type" (string "array") end)
unfolding trim_json_schema
drops_descriptions = refl

shortens_descriptions :
    trim_tool_search_tool 3 (
      object (
        field "description" (string "finds") (
          field "parameters"
            (object (field "title" (string "t") end))
            (field "type" (string "function") end))))
    ≡ object (
        field "description"
          (string "fin...")
          (field "parameters" (object end) (field "type" (string "function") end)))
unfolding trim_tool_search_tool byte_len take_text lookup trim_json_schema
shortens_descriptions = refl

apply_trimmer-IsRecent_example :
    (out : ModelInputData) × (apply_trimmer serde trimmer (data_of items) ≡ ok out)
    × ((out.instructions ≡ some "be brief")
        × IsRecent (trimmed serde trimmer items) 1 items out.input)
apply_trimmer-IsRecent_example =
    apply_trimmer-IsRecent serde trimmer (data_of items) (omega arith) (omega arith)

trim_item-IsTrimmed_example :
    (w : Value) × (InputItem.json (output summarized) ≡ InputItem.json w)
    × IsTrimmed serde 50 (output long) w
unfolding trim_item call_names_from
trim_item-IsTrimmed_example =
    trim_item-IsTrimmed serde trimmer (build_call_id_to_names items) (output long)
      (InputItem.json (output summarized)) refl
