-- ===== src/Sandbox/Paths.antt =====
-- Paths of the sandbox, crates/agents-core/src/sandbox/mod.rs: which tokens of a shell command and
-- which requested paths stay within the workspace, as far as their text tells.
use Prim.Native.Char.{code}
use openai_agents_rust.Prelude.{
  String, Bool, true, false, not, ◌&&◌, ◌||◌, Option, none, some, List, [], ◌∷◌, ◌++◌, nat_eq,
  if◌then◌else◌, str_eq, is_some, filter_map,
}
use openai_agents_rust.Errors.{Result, ok, err, message, ◌>>=◌}
use openai_agents_rust.ToolIdentity.{is_empty, trim}
use openai_agents_rust.Runner.Transcript.{starts_with, find_text, push_char}
use openai_agents_rust.Sandbox.Shell.{shell_like_split}

-- `str::ends_with`, `str::contains` and `split('/')`
unfoldable pub ends_with : String → String → Bool
ends_with p String.[] = str_eq p String.[]
ends_with p (String.◌∷◌ c s) = str_eq p (String.◌∷◌ c s) || ends_with p s

abbrev pub contains_text : String → String → Bool
contains_text p s = is_some (find_text p s)

unfoldable pub segments : String → List String
segments String.[] = String.[] ∷ []
segments (String.◌∷◌ c s) =
    let rest = segments s in if nat_eq (code c) b'/' then String.[] ∷ rest else push_char c rest

-- `std::path::Component`, on Unix
pub data Component : Type 0 where
  root_dir cur_dir parent_dir : Component
  normal : String → Component

abbrev pub component_eq : Component → Component → Bool
component_eq root_dir root_dir = true
component_eq cur_dir cur_dir = true
component_eq parent_dir parent_dir = true
component_eq (normal a) (normal b) = str_eq a b
component_eq _ _ = false

-- A segment behind the start of a path: empty ones and dots are left out.
unfoldable pub component_of : String → Option Component
component_of s =
    if is_empty s || str_eq s "."
    then none
    else some (if str_eq s ".." then parent_dir else normal s)

abbrev pub is_absolute : String → Bool
is_absolute path = starts_with "/" path

-- `Path::components`: a dot counts at the start of a relative path only.
abbrev pub leading : String → List String → List Component
leading path [] = []
leading path (s ∷ ss) =
    if is_absolute path then root_dir ∷ [] else if str_eq s "." then cur_dir ∷ [] else []

unfoldable pub components : String → List Component
unfolding segments component_of starts_with
components path = leading path (segments path) ++ filter_map component_of (segments path)

-- `Path::strip_prefix`, on components
unfoldable pub strip_components : List Component → List Component → Option (List Component)
strip_components [] cs = some cs
strip_components (p ∷ ps) [] = none
strip_components (p ∷ ps) (c ∷ cs) =
    let rest = strip_components ps cs in if component_eq p c then rest else none

abbrev pub path_starts_with : String → String → Bool
path_starts_with path base = is_some (strip_components (components base) (components path))

-- The two tests of `validate_shell_command`.
unfoldable pub climbs : String → Bool
unfolding starts_with find_text ends_with
climbs token =
    str_eq ".." token
    || (starts_with "../" token || (contains_text "/../" token || ends_with "/.." token))

unfoldable pub leaves_root : String → String → Bool
unfolding components strip_components starts_with
leaves_root logical_root token = starts_with "/" token && not (path_starts_with token logical_root)

abbrev pub outside_error : Result (Unit {0})
outside_error = err (message "shell command must stay within the sandbox workspace")

unfoldable pub validate_tokens : String → List String → Result (Unit {0})
validate_tokens logical_root [] = ok tt
validate_tokens logical_root (token ∷ tokens) =
    let rest = validate_tokens logical_root tokens in
    if climbs token
    then outside_error
    else if leaves_root logical_root token
    then outside_error
    else rest

unfoldable pub validate_shell_command : String → String → Result (Unit {0})
unfolding shell_like_split validate_tokens climbs leaves_root
validate_shell_command logical_root command =
    shell_like_split command >>= validate_tokens logical_root

abbrev pub path_error : {A : Type 0} → Result A
path_error = err (message "path must stay within the sandbox workspace")

-- The loop over the components: the parts of `normalized`.
unfoldable pub normalize : List Component → Result (List String)
normalize [] = ok []
normalize (cur_dir ∷ cs) = normalize cs
normalize (root_dir ∷ cs) = normalize cs
normalize (normal part ∷ cs) = normalize cs >>= λ parts. ok (part ∷ parts)
normalize (parent_dir ∷ cs) = path_error

abbrev pub relative_to : String → String → Result (List Component)
relative_to logical_root requested =
    if is_absolute requested
    then elim (strip_components (components logical_root) (components requested)) [
      | none ↦ path_error
      | some cs ↦ ok cs
    ]
    else ok (components requested)

-- `resolve_path_for_access` up to the join with the workspace's root
unfoldable pub resolve_parts : String → String → Result (List String)
unfolding trim components strip_components normalize starts_with
resolve_parts logical_root requested =
    if is_empty (trim requested)
    then path_error
    else relative_to logical_root requested >>= normalize
