-- ===== src/Trimmer.antt =====
-- `ToolOutputTrimmer` of crates/agents-extensions/src/extensions/tool_output_trimmer.rs, which
-- shortens the tool outputs of older turns before the model is called.
pub mod Calls
pub mod Schema
pub mod Apply
pub mod Recent
pub mod Edited
mod Tests
use Prim.Native.Char.{len_utf8}
use openai_agents_rust.Prelude.{
  ℕ, zero, suc, ◌+◌, String, Bool, true, false, not, ◌&&◌, ◌||◌, Option, none, some, List, [], ◌∷◌,
  ◌++◌, reverse, length, any, contains, ltb, leb, nat_eq, str_eq, if◌then◌else◌, or_option,
  unwrap_or, ◌>>=◌,
}
use mathlib.Core.Option
use openai_agents_rust.Json.{
  Value, Values, Fields, null, string, array, object, nil, cons, end, field, get, lookup, as_str,
  insert,
}
use openai_agents_rust.Items.{InputItem}
use openai_agents_rust.Errors.{Result, ok, err, message}
use openai_agents_rust.ToolIdentity.{concat}
use openai_agents_rust.Tools.{SerdeJson}
use openai_agents_rust.Runner.{ModelInputData}
use openai_agents_rust.Runner.Transcript.{take_text, decimal, decimal_from}

pub record ToolOutputTrimmer : Type 0 where
  pub recent_turns : ℕ
  pub max_output_chars : ℕ
  pub preview_chars : ℕ
  pub trimmable_tools : Option (List String)

-- `str::len`, in bytes
unfoldable pub byte_len : String → ℕ
byte_len String.[] = 0
byte_len (String.◌∷◌ c s) = len_utf8 c + byte_len s

unfoldable pub validate : ToolOutputTrimmer → Result (Unit {0})
unfolding decimal_from
validate t =
    if ltb t.recent_turns 1
    then err (message (concat "recent_turns must be >= 1, got " (decimal t.recent_turns)))
    else if ltb t.max_output_chars 1
    then err (message (concat "max_output_chars must be >= 1, got " (decimal t.max_output_chars)))
    else ok tt
