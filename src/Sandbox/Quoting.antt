-- ===== src/Sandbox/Quoting.antt =====
-- What `shell_like_split` of crates/agents-core/src/sandbox/mod.rs makes of a quoted text.
use Prim.Native.Char.{Char, code}
use text.Mathlib.TextLemmas as Text
use openai_agents_rust.Prelude.{
  String, true, false, List, [], ◌∷◌, ◌++◌, nat_eq, ◌≡◌, refl, ap, sym, ◌∙◌, arith, inl, inr,
  Bool-cases, append_assoc,
}
use text.Mathlib.TextEquality.{Char-path}
use openai_agents_rust.Errors.{ok, ◌>>=◌}
use openai_agents_rust.ToolIdentity.{concat, is_whitespace, is_empty}
use openai_agents_rust.Sandbox.Shell.{
  Mode, plain, in_single, in_double, escaped, escaped_in_double, Splitter, end_with, keep,
  end_token, feed_in, feed, feed_all, finish_split, start, is_quoted, shell_like_split,
  escape_quotes, shell_single_quote, workspace_shell_command,
}

feed_all-append :
    (s t : String) (st : Splitter) → feed_all (concat s t) st ≡ feed_all t (feed_all s st)
unfolding feed_all
feed_all-append String.[] t st = ap (λ x. feed_all x st) (Text.nil-append t)
feed_all-append (String.◌∷◌ c s) t st =
    ap (λ x. feed_all x st) (Text.cons-append c s t) ∙ feed_all-append s t (feed c st)

end_with-concat :
    (cur s : String) (c : Char) → concat (end_with cur c) s ≡ concat cur (String.◌∷◌ c s)
end_with-concat cur s c =
    Text.append_assoc cur (String.◌∷◌ c String.[]) s
    ∙ ap (concat cur) (Text.cons-append c String.[] s ∙ ap (String.◌∷◌ c) (Text.nil-append s))

char_of_code : (c d : Char) → nat_eq (code c) (code d) ≡ true → c ≡ d
char_of_code c d h = Char-path c d (ground (arith, h))

abbrev quoted : List String → String → Splitter
quoted ts cur = record { tokens = ts; current = cur; mode = in_single }

literal :
    (c : Char) (st : Splitter)
    → nat_eq (code c) b'\'' ≡ false
    → feed_in in_single c st ≡ keep c in_single st
unfolding feed_in
literal c st e = rw e

-- Within single quotes, an escaped text is read as the text.
feed_all-escape_quotes :
    (s cur : String) (ts : List String)
    → feed_all (escape_quotes s) (quoted ts cur) ≡ quoted ts (concat cur s)
unfolding feed_all escape_quotes
feed_all-escape_quotes String.[] cur ts = ap (quoted ts) (sym (Text.append-nil cur))
feed_all-escape_quotes (String.◌∷◌ c s) cur ts = elim (Bool-cases (nat_eq (code c) b'\'')) [
  | inl e ↦ rw e (
      feed_all-append "'\"'\"'" (escape_quotes s) (quoted ts cur)
      ∙ feed_all-escape_quotes s (end_with cur "'") ts
      ∙ ap (quoted ts) (
          end_with-concat cur s "'"
          ∙ ap (λ d. concat cur (String.◌∷◌ d s)) (sym (char_of_code c "'" e))))
  | inr e ↦ rw e (
      ap (feed_all (escape_quotes s)) (literal c (quoted ts cur) e)
      ∙ feed_all-escape_quotes s (end_with cur c) ts
      ∙ ap (quoted ts) (end_with-concat cur s c))
]

abbrev unquoted : List String → String → Splitter
unquoted ts cur = record { tokens = ts; current = cur; mode = plain }

-- A quoted text is read as the text, wherever it stands outside of quotes.
feed_all-quote :
    (s cur : String) (ts : List String)
    → feed_all (shell_single_quote s) (unquoted ts cur) ≡ unquoted ts (concat cur s)
unfolding feed_all shell_single_quote
feed_all-quote s cur ts =
    feed_all-append "'" (concat (escape_quotes s) "'") (unquoted ts cur)
    ∙ feed_all-append (escape_quotes s) "'" (quoted ts cur)
    ∙ ap (feed_all "'") (feed_all-escape_quotes s cur ts)

-- Earlier tokens stay in front, and do not change how the rest is read.
abbrev behind : List String → Splitter → Splitter
behind ts st = record st { tokens = ts ++ st.tokens }

end_token-behind :
    (ts : List String) (st : Splitter) → end_token (behind ts st) ≡ behind ts (end_token st)
unfolding end_token
end_token-behind ts st = elim (Bool-cases (is_empty st.current)) [
  | inl e ↦ rw e
  | inr e ↦ rw e (
      ap (λ xs. record { tokens = xs; current = ""; mode = st.mode })
        (append_assoc ts st.tokens (st.current ∷ [])))
]

feed_in-behind :
    (m : Mode) (c : Char) (ts : List String) (st : Splitter)
    → feed_in m c (behind ts st) ≡ behind ts (feed_in m c st)
unfolding feed_in
feed_in-behind escaped c ts st = refl
feed_in-behind escaped_in_double c ts st = refl
feed_in-behind plain c ts st = ground (arith, end_token-behind ts st)
feed_in-behind in_single c ts st = ground arith
feed_in-behind in_double c ts st = ground arith

feed_all-behind :
    (s : String) (ts : List String) (st : Splitter)
    → feed_all s (behind ts st) ≡ behind ts (feed_all s st)
unfolding feed_all
feed_all-behind String.[] ts st = refl
feed_all-behind (String.◌∷◌ c s) ts st =
    ap (feed_all s) (feed_in-behind st.mode c ts st) ∙ feed_all-behind s ts (feed c st)

finish_split-behind :
    (ts : List String) (st : Splitter)
    → finish_split (behind ts st) ≡ (finish_split st >>= λ found. ok (ts ++ found))
unfolding finish_split
finish_split-behind ts st = elim (Bool-cases (is_quoted st.mode)) [
  | inl e ↦ rw e
  | inr e ↦ rw e (ap (λ x. ok x.tokens) (end_token-behind ts st))
]

end_root :
    (root : String)
    → is_empty root ≡ false
    → feed_all " && " (unquoted ("cd" ∷ []) root) ≡ unquoted ("cd" ∷ root ∷ "&&" ∷ []) ""
unfolding feed_all end_token is_whitespace
end_root root h = rw h

-- With a workspace root that is not empty, whatever characters it holds, the command that changes to
-- it is split into `cd`, the root as one token, `&&`, and the tokens of the command itself; it is
-- refused exactly if the command itself is, with the same error.
pub split-workspace_shell_command :
    (workspace_root command : String)
    → is_empty workspace_root ≡ false
    → shell_like_split (workspace_shell_command workspace_root command)
      ≡ (shell_like_split command >>= λ tokens. ok ("cd" ∷ workspace_root ∷ "&&" ∷ tokens))
unfolding shell_like_split workspace_shell_command
split-workspace_shell_command root command h =
    let rest = concat (shell_single_quote root) (concat " && " command) in
    ap finish_split (
      feed_all-append "cd " rest start
      ∙ feed_all-append (shell_single_quote root) (concat " && " command) (unquoted ("cd" ∷ []) "")
      ∙ ap (feed_all (concat " && " command)) (feed_all-quote root "" ("cd" ∷ []))
      ∙ feed_all-append " && " command (unquoted ("cd" ∷ []) (concat "" root))
      ∙ ap (λ r. feed_all command (feed_all " && " (unquoted ("cd" ∷ []) r))) (Text.nil-append root)
      ∙ ap (feed_all command) (end_root root h)
      ∙ feed_all-behind command ("cd" ∷ root ∷ "&&" ∷ []) start)
    ∙ finish_split-behind ("cd" ∷ root ∷ "&&" ∷ []) (feed_all command start)
