-- ===== src/Sandbox/Confined.antt =====
-- What the checks of crates/agents-core/src/sandbox/mod.rs let pass.
use Prim.Native.Char.{Char, code}
use Prim.Native.Nat.{Ordering, compare}
use Prim.Native.String
use text.Mathlib.Text.{is_eq}
use openai_agents_rust.Prelude.{
  ℕ, String, Bool, true, false, ◌&&◌, ◌||◌, Option, none, some, List, [], ◌∷◌, nat_eq, str_eq,
  is_some, ◌≡◌, refl, ap, sym, ◌∙◌, arith, inl, inr, Bool-cases, contains, All, ◌↔◌,
}
use openai_agents_rust.Errors.{ok, >>=-eq-ok}
use openai_agents_rust.Runner.Transcript.{starts_with, find_text, push_char, map_suc}
use openai_agents_rust.Sandbox.Shell.{shell_like_split}
use openai_agents_rust.Sandbox.Paths.{
  ends_with, contains_text, segments, climbs, leaves_root, validate_tokens, validate_shell_command,
}

is_eq-then : (o p : Ordering) → is_eq (String.then o p) ≡ (is_eq o && is_eq p)
is_eq-then Ordering.lt p = refl
is_eq-then Ordering.eq p = refl
is_eq-then Ordering.gt p = refl

str_eq-cons :
    (c d : Char) (s t : String)
    → str_eq (String.◌∷◌ c s) (String.◌∷◌ d t) ≡ (nat_eq (code c) (code d) && str_eq s t)
str_eq-cons c d s t =
    ap is_eq (String.compare.cons-cons c d s t)
    ∙ is_eq-then (compare (code c) (code d)) (String.compare s t)

abbrev head_of : List String → String
head_of [] = ""
head_of (s ∷ ss) = s

abbrev tail_of : List String → List String
tail_of [] = []
tail_of (s ∷ ss) = ss

push_char-head :
    (c : Char) (ss : List String) → head_of (push_char c ss) ≡ String.◌∷◌ c (head_of ss)
push_char-head c [] = refl
push_char-head c (s ∷ ss) = refl

push_char-tail : (c : Char) (ss : List String) → tail_of (push_char c ss) ≡ tail_of ss
push_char-tail c [] = refl
push_char-tail c (s ∷ ss) = refl

module _ (c : Char) (s : String) where
  segments-slash : nat_eq (code c) b'/' ≡ true → segments (String.◌∷◌ c s) ≡ "" ∷ segments s
  unfolding segments
  segments-slash e = rw e

  segments-char :
      nat_eq (code c) b'/' ≡ false → segments (String.◌∷◌ c s) ≡ push_char c (segments s)
  unfolding segments
  segments-char e = rw e

-- `q` is `p` with a slash behind it: one of them begins a text exactly if `p` is its first segment.
abbrev Begins : String → String → Type 0
Begins p q = (s : String) → (str_eq p s || starts_with q s) ≡ str_eq p (head_of (segments s))

str_eq-nil-cons : (c : Char) (s : String) → str_eq "" (String.◌∷◌ c s) ≡ false
str_eq-nil-cons c s = ap is_eq (String.compare.nil-cons c s)

str_eq-cons-nil : (c : Char) (s : String) → str_eq (String.◌∷◌ c s) "" ≡ false
str_eq-cons-nil c s = ap is_eq (String.compare.cons-nil c s)

Begins-nil : Begins "" "/"
unfolding starts_with
Begins-nil String.[] = unfold segments in refl
Begins-nil (String.◌∷◌ c s) = elim (Bool-cases (nat_eq (code c) b'/')) [
  | inl e ↦ rw (segments-slash c s e, str_eq-nil-cons c s) (ground (arith, e))
  | inr e ↦
      rw
        (
          segments-char c s e,
          push_char-head c (segments s),
          str_eq-nil-cons c s,
          str_eq-nil-cons c (head_of (segments s)),
        )
        (ground (arith, e))
]

Begins-cons :
    (x : Char) (p q : String)
    → nat_eq (code x) b'/' ≡ false
    → Begins p q
    → Begins (String.◌∷◌ x p) (String.◌∷◌ x q)
unfolding starts_with
Begins-cons x p q h b String.[] = unfold segments in rw (str_eq-cons-nil x p)
Begins-cons x p q h b (String.◌∷◌ c s) = elim (Bool-cases (nat_eq (code c) b'/')) [
  | inl e ↦
      rw (segments-slash c s e, str_eq-cons x c p s, str_eq-cons-nil x p) (ground (arith, e, h))
  | inr e ↦
      rw
        (
          segments-char c s e,
          push_char-head c (segments s),
          str_eq-cons x c p s,
          str_eq-cons x c p (head_of (segments s)),
          sym (b s),
        )
        (ground arith)
]

is_some-map_suc : (o : Option ℕ) → is_some (map_suc o) ≡ is_some o
is_some-map_suc none = refl
is_some-map_suc (some n) = refl

contains_text-cons :
    (p : String) (c : Char) (s : String)
    → contains_text p (String.◌∷◌ c s) ≡ (starts_with p (String.◌∷◌ c s) || contains_text p s)
unfolding find_text
contains_text-cons p c s = elim (Bool-cases (starts_with p (String.◌∷◌ c s))) [
  | inl e ↦ rw e
  | inr e ↦ rw e (is_some-map_suc (find_text p s))
]

-- The first segment, and a later one, is `..`.
abbrev heads_up : String → Bool
heads_up s = str_eq ".." s || starts_with "../" s

abbrev comes_up : String → Bool
comes_up s = contains_text "/../" s || ends_with "/.." s

heads_up-segments : (s : String) → heads_up s ≡ str_eq ".." (head_of (segments s))
heads_up-segments = Begins-cons "." "." "./" refl (Begins-cons "." "" "/" refl Begins-nil)

contains-head :
    (ss : List String) → contains ".." ss ≡ (str_eq ".." (head_of ss) || contains ".." (tail_of ss))
contains-head [] = refl
contains-head (s ∷ ss) = refl

ends_with-cons :
    (p : String) (c : Char) (s : String)
    → ends_with p (String.◌∷◌ c s) ≡ (str_eq p (String.◌∷◌ c s) || ends_with p s)
unfolding ends_with
ends_with-cons p c s = refl

starts_with-cons :
    (x c : Char) (p s : String)
    → starts_with (String.◌∷◌ x p) (String.◌∷◌ c s) ≡ (nat_eq (code x) (code c) && starts_with p s)
unfolding starts_with
starts_with-cons x c p s = refl

or_swap : (a b c d : Bool) → ((a || b) || (c || d)) ≡ ((c || a) || (b || d))
or_swap a b c d = ground arith

or_assoc : (a b c d : Bool) → (a || (b || (c || d))) ≡ ((a || b) || (c || d))
or_assoc a b c d = ground arith

slash_sym : (c : Char) {b : Bool} → nat_eq (code c) b'/' ≡ b → nat_eq b'/' (code c) ≡ b
slash_sym c h = ground (arith, h)

comes_up-segments : (s : String) → comes_up s ≡ contains ".." (tail_of (segments s))
comes_up-segments String.[] = unfold segments find_text ends_with in refl
comes_up-segments (String.◌∷◌ c s) = elim (Bool-cases (nat_eq (code c) b'/')) [
  | inl e ↦
      rw
        (
          segments-slash c s e,
          contains_text-cons "/../" c s,
          ends_with-cons "/.." c s,
          contains-head (segments s),
          str_eq-cons "/" c ".." s,
          starts_with-cons "/" c "../" s,
          slash_sym c e,
          sym (heads_up-segments s),
          sym (comes_up-segments s),
        )
        (or_swap (starts_with "../" s) (contains_text "/../" s) (str_eq ".." s) (ends_with "/.." s))
  | inr e ↦ rw (
    segments-char c s e,
    push_char-tail c (segments s),
    contains_text-cons "/../" c s,
    ends_with-cons "/.." c s,
    str_eq-cons "/" c ".." s,
    starts_with-cons "/" c "../" s,
    slash_sym c e,
    sym (comes_up-segments s),
  )
]

-- The four tests for `..` find exactly the texts that have `..` as one of their segments.
pub climbs-segments : (token : String) → climbs token ≡ contains ".." (segments token)
unfolding climbs
climbs-segments token =
    or_assoc (str_eq ".." token) (starts_with "../" token) (contains_text "/../" token)
      (ends_with "/.." token)
    ∙ ap (λ b. b || comes_up token) (heads_up-segments token)
    ∙ ap (λ b. str_eq ".." (head_of (segments token)) || b) (comes_up-segments token)
    ∙ sym (contains-head (segments token))

-- No segment of the token is `..`, and it does not leave the root by an absolute path.
pub record IsConfined (logical_root token : String) : Type 0 where
  pub stays_down : contains ".." (segments token) ≡ false
  pub keeps_root : leaves_root logical_root token ≡ false

validate_tokens_sound :
    (root : String) (tokens : List String)
    → validate_tokens root tokens ≡ ok tt
    → All (IsConfined root) tokens
unfolding validate_tokens
validate_tokens_sound root [] h = tt
validate_tokens_sound root (t ∷ ts) h = elim (Bool-cases (climbs t)) [
  | inl c ↦ absurd (ground (arith, c, h))
  | inr c ↦ elim (Bool-cases (leaves_root root t)) [
    | inl l ↦ absurd (ground (arith, c, l, h))
    | inr l ↦ (
      record { stays_down = sym (climbs-segments t) ∙ c; keeps_root = l },
      validate_tokens_sound root ts (ground (arith, c, l, h)),
    )
  ]
]

validate_tokens_complete :
    (root : String) (tokens : List String)
    → All (IsConfined root) tokens
    → validate_tokens root tokens ≡ ok tt
unfolding validate_tokens
validate_tokens_complete root [] h = refl
validate_tokens_complete root (t ∷ ts) h =
    rw (climbs-segments t ∙ h.0.stays_down, h.0.keeps_root) (validate_tokens_complete root ts h.1)

-- A shell command is accepted exactly if it can be split into tokens none of which has `..` as a
-- segment of its path, and none of which begins with a slash and does not lie under the root.
pub validate_shell_command_iff :
    (logical_root command : String)
    → (validate_shell_command logical_root command ≡ ok tt) ↔ (
        (tokens : List String) × (shell_like_split command ≡ ok tokens)
        × All (IsConfined logical_root) tokens)
unfolding validate_shell_command
validate_shell_command_iff root command = (
  λ h.
      let (tokens, split, valid) = >>=-eq-ok (shell_like_split command) (validate_tokens root) h in
      (tokens, split, validate_tokens_sound root tokens valid),
  λ (tokens, split, confined). rw split (validate_tokens_complete root tokens confined),
)
