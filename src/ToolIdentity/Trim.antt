-- ===== src/ToolIdentity/Trim.antt =====
-- Laws of `str::trim`, as crates/agents-core/src/_tool_identity.rs uses it.
use Prim.Native.Char.{Char, code}
use openai_agents_rust.Prelude.{String, ◌≡◌, refl, true, false, inl, inr, Bool-cases}
use openai_agents_rust.ToolIdentity.{is_whitespace, trim_start, trim_end, trim, push_trimmed}

module _ (c : Char) (s : String) where
  trim_start-keep : is_whitespace (code c) ≡ false → trim_start (String.◌∷◌ c s) ≡ String.◌∷◌ c s
  unfolding trim_start
  trim_start-keep h = rw h

  trim_start-skip : is_whitespace (code c) ≡ true → trim_start (String.◌∷◌ c s) ≡ trim_start s
  unfolding trim_start
  trim_start-skip h = rw h

  trim_end-keep :
      is_whitespace (code c) ≡ false → trim_end (String.◌∷◌ c s) ≡ String.◌∷◌ c (trim_end s)
  unfolding trim_end
  trim_end-keep h = rw h

  trim_end-push : trim_end (String.◌∷◌ c s) ≡ push_trimmed (is_whitespace (code c)) c (trim_end s)
  unfolding trim_end
  trim_end-push = refl

trim_end-push_trimmed :
    (c : Char) (t : String)
    → trim_end t ≡ t
    → trim_end (push_trimmed true c t) ≡ push_trimmed true c t
unfolding trim_end
trim_end-push_trimmed c String.[] h = refl
trim_end-push_trimmed c (String.◌∷◌ d r) h = elim (Bool-cases (is_whitespace (code c))) [
  | inl e ↦ rw (trim_end-push c (String.◌∷◌ d r), e, h)
  | inr e ↦ rw (trim_end-keep c (String.◌∷◌ d r) e, h)
]

trim_end_idem : (s : String) → trim_end (trim_end s) ≡ trim_end s
trim_end_idem String.[] = unfold trim_end in refl
trim_end_idem (String.◌∷◌ c s) = elim (Bool-cases (is_whitespace (code c))) [
  | inl e ↦ rw (trim_end-push c s, e) (trim_end-push_trimmed c (trim_end s) (trim_end_idem s))
  | inr e ↦ rw (trim_end-keep c s e, trim_end-keep c (trim_end s) e, trim_end_idem s)
]

trim_start-trim : (s : String) → trim_start (trim_end (trim_start s)) ≡ trim_end (trim_start s)
trim_start-trim String.[] = unfold trim_start trim_end in refl
trim_start-trim (String.◌∷◌ c s) = elim (Bool-cases (is_whitespace (code c))) [
  | inl e ↦ rw (trim_start-skip c s e) (trim_start-trim s)
  | inr e ↦ rw (trim_start-keep c s e, trim_end-keep c s e, trim_start-keep c (trim_end s) e)
]

-- Trimming twice is trimming once.
pub trim_idem : (s : String) → trim (trim s) ≡ trim s
unfolding trim
trim_idem s = rw (trim_start-trim s, trim_end_idem (trim_start s))
