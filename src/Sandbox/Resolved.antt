-- ===== src/Sandbox/Resolved.antt =====
-- What a requested path is resolved to, crates/agents-core/src/sandbox/mod.rs.
use Prim.Native.Char.{Char, code}
use openai_agents_rust.Prelude.{
  String, Bool, true, false, ◌||◌, Option, none, some, List, [], ◌∷◌, nat_eq, if◌then◌else◌, str_eq,
  filter_map, ◌≡◌, refl, subst, arith, inl, inr, Bool-cases, All, All-append,
}
use openai_agents_rust.Errors.{ok, >>=-eq-ok}
use openai_agents_rust.ToolIdentity.{is_empty, trim}
use openai_agents_rust.Runner.Transcript.{push_char}
use openai_agents_rust.Sandbox.Paths.{
  Component, root_dir, cur_dir, parent_dir, normal, segments, component_of, components, leading,
  is_absolute, strip_components, normalize, relative_to, resolve_parts, path_error,
}

abbrev pub has_slash : String → Bool
has_slash String.[] = false
has_slash (String.◌∷◌ c s) = nat_eq (code c) b'/' || has_slash s

-- The name of one entry of a directory.
pub record IsPlain (part : String) : Type 0 where
  pub no_slash : has_slash part ≡ false
  pub not_empty : is_empty part ≡ false
  pub no_dot : str_eq part "." ≡ false
  pub no_dots : str_eq part ".." ≡ false

abbrev HasNoSlash : String → Type 0
HasNoSlash s = has_slash s ≡ false

segments-push :
    (c : Char) (ss : List String)
    → nat_eq (code c) b'/' ≡ false
    → All HasNoSlash ss
    → All HasNoSlash (push_char c ss)
segments-push c [] e h = (ground (arith, e), tt)
segments-push c (s ∷ ss) e h = (ground (arith, e, h.0), h.1)

segments-HasNoSlash : (s : String) → All HasNoSlash (segments s)
unfolding segments
segments-HasNoSlash String.[] = (refl, tt)
segments-HasNoSlash (String.◌∷◌ c s) = elim (Bool-cases (nat_eq (code c) b'/')) [
  | inl e ↦ rw e (refl, segments-HasNoSlash s)
  | inr e ↦ rw e (segments-push c (segments s) e (segments-HasNoSlash s))
]

abbrev Plain : Component → Type 0
Plain (normal part) = IsPlain part
Plain root_dir = Unit
Plain cur_dir = Unit
Plain parent_dir = Unit

abbrev PlainOption : Option Component → Type 0
PlainOption none = Unit
PlainOption (some c) = Plain c

component_of-Plain : (s : String) → HasNoSlash s → PlainOption (component_of s)
unfolding component_of
component_of-Plain s h = go (is_empty s) (str_eq s ".") (str_eq s "..") refl refl refl
  where
    go :
        (e d p : Bool)
        → is_empty s ≡ e
        → str_eq s "." ≡ d
        → str_eq s ".." ≡ p
        → PlainOption (if e || d then none else some (if p then parent_dir else normal s))
    go true d p he hd hp = tt
    go false true p he hd hp = tt
    go false false true he hd hp = tt
    go false false false he hd hp = record {
      no_slash = h;
      not_empty = he;
      no_dot = hd;
      no_dots = hp;
    }

filter_map-Plain : (ss : List String) → All HasNoSlash ss → All Plain (filter_map component_of ss)
filter_map-Plain [] h = tt
filter_map-Plain (s ∷ ss) h =
    go (component_of s) (component_of-Plain s h.0) (filter_map-Plain ss h.1)
  where
    go :
        (o : Option Component)
        → PlainOption o
        → All Plain (filter_map component_of ss)
        → All Plain
            (elim o [ none ↦ filter_map component_of ss | some y ↦ y ∷ filter_map component_of ss ])
    go none p rest = rest
    go (some c) p rest = (p, rest)

leading-Plain : (path : String) (ss : List String) → All Plain (leading path ss)
leading-Plain path [] = tt
leading-Plain path (s ∷ ss) = go (is_absolute path) (str_eq s ".")
  where
    go : (a d : Bool) → All Plain (if a then root_dir ∷ [] else if d then cur_dir ∷ [] else [])
    go true d = (tt, tt)
    go false true = (tt, tt)
    go false false = tt

components-Plain : (path : String) → All Plain (components path)
unfolding components
components-Plain path =
    All-append Plain (leading path (segments path)) (filter_map component_of (segments path))
      (leading-Plain path (segments path))
      (filter_map-Plain (segments path) (segments-HasNoSlash path))

strip-Plain :
    (ps cs : List Component) (rest : List Component)
    → All Plain cs
    → strip_components ps cs ≡ some rest
    → All Plain rest
unfolding strip_components
strip-Plain [] cs rest h e = subst (All Plain) (cc) h
strip-Plain (p ∷ ps) [] rest h e = cc
strip-Plain (p ∷ ps) (c ∷ cs) rest h e = strip-Plain ps cs rest h.1 (ground (arith, e))

normalize-Plain :
    (cs : List Component) (parts : List String)
    → All Plain cs
    → normalize cs ≡ ok parts
    → All IsPlain parts
unfolding normalize
normalize-Plain [] parts h e = let n : [] ≡ parts = cc in subst (All IsPlain) n tt
normalize-Plain (cur_dir ∷ cs) parts h e = normalize-Plain cs parts h.1 e
normalize-Plain (root_dir ∷ cs) parts h e = normalize-Plain cs parts h.1 e
normalize-Plain (parent_dir ∷ cs) parts h e = cc
normalize-Plain (normal p ∷ cs) parts h e =
    let (rest, r, q) = >>=-eq-ok (normalize cs) (λ parts. ok (p ∷ parts)) e in
    let q' : p ∷ rest ≡ parts = cc in subst (All IsPlain) q' (h.0, normalize-Plain cs rest h.1 r)

relative_to-Plain :
    (root requested : String) (cs : List Component)
    → relative_to root requested ≡ ok cs
    → All Plain cs
relative_to-Plain root requested cs e = elim (Bool-cases (is_absolute requested)) [
  | inl a ↦ go (strip_components (components root) (components requested)) refl (rw a at e)
  | inr a ↦
      let found : ok (components requested) ≡ ok cs = rw a at e in
      let same : components requested ≡ cs = cc in
      subst (All Plain) same (components-Plain requested)
]
  where
    go :
        (o : Option (List Component))
        → strip_components (components root) (components requested) ≡ o
        → elim o [ none ↦ path_error | some cs ↦ ok cs ] ≡ ok cs
        → All Plain cs
    go none s h = cc
    go (some rest) s h =
        subst (All Plain) (cc)
          (strip-Plain (components root) (components requested) rest (components-Plain requested) s)

-- A requested path that is accepted is resolved to names of entries one below the other: none of them
-- is empty, `.` or `..`, and none holds a slash. So the path that is joined to the root of the
-- workspace goes down from it at every step.
pub resolve_parts-IsPlain :
    (logical_root requested : String) (parts : List String)
    → resolve_parts logical_root requested ≡ ok parts
    → All IsPlain parts
unfolding resolve_parts
resolve_parts-IsPlain root requested parts h = elim (Bool-cases (is_empty (trim requested))) [
  | inl e ↦ let f : path_error ≡ ok parts = rw e at h in cc
  | inr e ↦
      let (cs, r, n) = >>=-eq-ok (relative_to root requested) normalize (rw e at h) in
      normalize-Plain cs parts (relative_to-Plain root requested cs r) n
]
