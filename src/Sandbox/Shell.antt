-- ===== src/Sandbox/Shell.antt =====
-- Splitting and quoting of shell commands, crates/agents-core/src/sandbox/mod.rs.
use Prim.Native.Char.{Char, code}
use openai_agents_rust.Prelude.{
  String, Bool, true, false, List, [], ◌∷◌, ◌++◌, nat_eq, if◌then◌else◌,
}
use openai_agents_rust.Errors.{Result, ok, err, message}
use openai_agents_rust.ToolIdentity.{concat, is_whitespace, is_empty}

-- The variable `quote`, and whether a backslash has just been read, whose next character is kept.
pub data Mode : Type 0 where
  plain in_single in_double escaped escaped_in_double : Mode

-- The variables of the loop over the characters.
pub record Splitter : Type 0 where
  pub tokens : List String
  pub current : String
  pub mode : Mode

abbrev pub end_with : String → Char → String
end_with s c = concat s (String.◌∷◌ c String.[])

abbrev pub keep : Char → Mode → Splitter → Splitter
keep c mode st = record st { current = end_with st.current c; mode = mode }

abbrev pub switch : Mode → Splitter → Splitter
switch mode st = record st { mode = mode }

-- `if !current.is_empty() { tokens.push(current) }`
unfoldable pub end_token : Splitter → Splitter
end_token st =
    if is_empty st.current
    then st
    else record st { tokens = st.tokens ++ st.current ∷ []; current = "" }

unfoldable pub feed_in : Mode → Char → Splitter → Splitter
feed_in plain c st =
    if nat_eq (code c) b'\''
    then switch in_single st
    else if nat_eq (code c) b'"'
    then switch in_double st
    else if nat_eq (code c) b'\\'
    then switch escaped st
    else if is_whitespace (code c)
    then end_token st
    else keep c plain st
feed_in in_single c st = if nat_eq (code c) b'\'' then switch plain st else keep c in_single st
feed_in in_double c st =
    if nat_eq (code c) b'"'
    then switch plain st
    else if nat_eq (code c) b'\\'
    then switch escaped_in_double st
    else keep c in_double st
feed_in escaped c st = keep c plain st
feed_in escaped_in_double c st = keep c in_double st

unfoldable pub feed : Char → Splitter → Splitter
unfolding feed_in
feed c st = feed_in st.mode c st

unfoldable pub feed_all : String → Splitter → Splitter
unfolding feed
feed_all String.[] st = st
feed_all (String.◌∷◌ c s) st = feed_all s (feed c st)

abbrev pub is_quoted : Mode → Bool
is_quoted in_single = true
is_quoted in_double = true
is_quoted escaped_in_double = true
is_quoted plain = false
is_quoted escaped = false

unfoldable pub finish_split : Splitter → Result (List String)
finish_split st =
    if is_quoted st.mode
    then err (message "shell command contains an unterminated quote")
    else ok (end_token st).tokens

abbrev pub start : Splitter
start = record { tokens = []; current = ""; mode = plain }

unfoldable pub shell_like_split : String → Result (List String)
unfolding feed_all finish_split end_token is_whitespace
shell_like_split command = finish_split (feed_all command start)

-- `value.replace('\'', "'\"'\"'")`
unfoldable pub escape_quotes : String → String
escape_quotes String.[] = String.[]
escape_quotes (String.◌∷◌ c s) =
    if nat_eq (code c) b'\''
    then concat "'\"'\"'" (escape_quotes s)
    else String.◌∷◌ c (escape_quotes s)

unfoldable pub shell_single_quote : String → String
unfolding escape_quotes
shell_single_quote value = concat "'" (concat (escape_quotes value) "'")

unfoldable pub workspace_shell_command : String → String → String
unfolding shell_single_quote
workspace_shell_command workspace_root command =
    concat "cd " (concat (shell_single_quote workspace_root) (concat " && " command))
