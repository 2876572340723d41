-- ===== src/Sandbox/Tests.antt =====
-- Runs of the checks of crates/agents-core/src/sandbox/mod.rs, and instances of their laws.
use openai_agents_rust.Prelude.{String, List, [], ◌∷◌, ◌≡◌, refl, ◌↔◌, All}
use openai_agents_rust.Errors.{ok, err, message, ◌>>=◌}
use openai_agents_rust.ToolIdentity.{is_whitespace}
use openai_agents_rust.Sandbox.Shell.{shell_like_split, workspace_shell_command}
use openai_agents_rust.Sandbox.Quoting.{split-workspace_shell_command}
use openai_agents_rust.Sandbox.Paths.{
  validate_shell_command, resolve_parts, path_error, outside_error,
}
use openai_agents_rust.Sandbox.Confined.{IsConfined, validate_shell_command_iff}
use openai_agents_rust.Sandbox.Resolved.{IsPlain, resolve_parts-IsPlain}

splits : shell_like_split "a 'b c'\"d\\\"\" \\ e" ≡ ok ("a" ∷ "b cd\"" ∷ " e" ∷ [])
unfolding shell_like_split
splits = refl

unterminated :
    shell_like_split "a 'b" ≡ err (message "shell command contains an unterminated quote")
unfolding shell_like_split
unterminated = refl

split-workspace_shell_command_example :
    shell_like_split (workspace_shell_command "/tmp/it's here" "ls -l")
    ≡ (shell_like_split "ls -l" >>= λ tokens. ok ("cd" ∷ "/tmp/it's here" ∷ "&&" ∷ tokens))
split-workspace_shell_command_example = split-workspace_shell_command "/tmp/it's here" "ls -l" refl

refuses_parents : validate_shell_command "/workspace" "cat a/../../b" ≡ outside_error
unfolding validate_shell_command
refuses_parents = refl

refuses_absolute : validate_shell_command "/workspace" "cat '/etc/passwd'" ≡ outside_error
unfolding validate_shell_command
refuses_absolute = refl

accepts_inside : validate_shell_command "/workspace" "cat /workspace/a b.txt" ≡ ok tt
unfolding validate_shell_command
accepts_inside = refl

-- A redirection without a blank hides an absolute path from the check.
accepts_redirection : validate_shell_command "/workspace" "cat </etc/passwd" ≡ ok tt
unfolding validate_shell_command
accepts_redirection = refl

validate_shell_command_iff_example : (validate_shell_command "/workspace" "ls src" ≡ ok tt) ↔ (
    (tokens : List String) × (shell_like_split "ls src" ≡ ok tokens)
    × All (IsConfined "/workspace") tokens)
validate_shell_command_iff_example = validate_shell_command_iff "/workspace" "ls src"

resolves : resolve_parts "/workspace" "/workspace/./a//b" ≡ ok ("a" ∷ "b" ∷ [])
unfolding resolve_parts is_whitespace
resolves = refl

refuses_to_climb : resolve_parts "/workspace" "a/../b" ≡ path_error
unfolding resolve_parts is_whitespace
refuses_to_climb = refl

resolve_parts-IsPlain_example : All IsPlain ("a" ∷ "b" ∷ [])
unfolding resolve_parts is_whitespace
resolve_parts-IsPlain_example = resolve_parts-IsPlain "/workspace" "./a/b" ("a" ∷ "b" ∷ []) refl
