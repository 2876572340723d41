-- ===== src/Trimmer/Edited.antt =====
-- What the trimmer of Trimmer.antt changes in an item.
use mathlib.Core.Option
use openai_agents_rust.Prelude.{
  ℕ, ◌<◌, leb, String, Bool, true, false, ◌||◌, Option, none, some, List, [], ◌∷◌, contains, str_eq,
  unwrap_or, if◌then◌else◌, ◌>>=◌, ◌≡◌, refl, sym, ap, ◌∙◌, inl, inr, Bool-cases, arith,
}
use openai_agents_rust.Json.{
  Value, Values, Fields, null, bool, number, string, array, object, get, as_str, insert,
}
use openai_agents_rust.Json.Maps.{lookup-insert, lookup-insert_other}
use openai_agents_rust.Items.{InputItem}
use openai_agents_rust.Tools.{SerdeJson}
use openai_agents_rust.Trimmer.{ToolOutputTrimmer, byte_len}
use openai_agents_rust.Trimmer.Apply.{
  trim_function_call_output, trim_tool_search_output, trim_item, trim_by_type, trim_results,
  trim_found_tools, as_object, as_array, first_name, summary, put_text, is_allowed,
}
use openai_agents_rust.Trimmer.Calls.{CallNames, tool_names}

-- The JSON text of what `v` holds as the output of a call
abbrev output_text : SerdeJson → Value → String
output_text serde v = serde.to_string (unwrap_or (get "output" v) null)

abbrev trimmed_fields : List String
trimmed_fields = "output" ∷ "results" ∷ "tools" ∷ []

abbrev is_call_output : Option String → Bool
is_call_output none = false
is_call_output (some ty) = str_eq ty "function_call_output" || str_eq ty "tool_call_output"

-- `w` is `v` but for the trimmed fields. In the output of a call the new output is a text, with fewer
-- bytes than the JSON text of the old one.
pub record IsTrimmed (serde : SerdeJson) (max : ℕ) (v w : Value) : Type 0 where
  pub keeps : (k : String) → contains k trimmed_fields ≡ false → get k w ≡ get k v
  pub below_json :
      is_call_output (get "type" v >>= as_str) ≡ true
      → (text : String) × (get "output" w ≡ some (string text))
        × (byte_len text < byte_len (output_text serde v))
        × (max < byte_len (output_text serde v))

guarded {ℓ} :
    {A : Type ℓ} {a : A} (b c : Bool) (o : Option A)
    → (if b then none else if c then none else o) ≡ some a
    → (b ≡ false) × (c ≡ false) × (o ≡ some a)
guarded true c o h = cc
guarded false true o h = cc
guarded false false o h = (refl, refl, h)

guarded_once {ℓ} :
    {A : Type ℓ} {a : A} (b : Bool) (o : Option A)
    → (if b then none else o) ≡ some a
    → (b ≡ false) × (o ≡ some a)
guarded_once true o h = cc
guarded_once false o h = (refl, h)

let_pass {ℓ} :
    {A : Type ℓ} {a : A} (b : Bool) (o : Option A)
    → (if b then o else none) ≡ some a
    → (b ≡ true) × (o ≡ some a)
let_pass true o h = (refl, h)
let_pass false o h = cc

bind_some {ℓ κ} :
    {A : Type ℓ} {B : Type κ} {y : B} (o : Option A) (f : A → Option B)
    → (o >>= f) ≡ some y
    → (x : A) × (o ≡ some x) × (f x ≡ some y)
bind_some none f h = cc
bind_some (some x) f h = (x, refl, h)

get-insert : (k : String) (v : Value) (fs : Fields) → get k (object (insert k v fs)) ≡ some v
unfolding get
get-insert k v fs = lookup-insert k v fs

-- Nothing but the field is changed.
get-insert_other :
    (i k : String) (v : Value) (fs : Fields)
    → contains k trimmed_fields ≡ true
    → contains i trimmed_fields ≡ false
    → get i (object (insert k v fs)) ≡ get i (object fs)
unfolding get
get-insert_other i k v fs trimmed kept =
    lookup-insert_other k v i fs
      (λ p. let c : contains i trimmed_fields ≡ true = rw p trimmed in cc)

module _ (serde : SerdeJson) (t : ToolOutputTrimmer) where
  abbrev Edits : Value → InputItem → Type 0
  Edits v out = (w : Value) × (out ≡ InputItem.json w) × IsTrimmed serde t.max_output_chars v w

  put-object :
      (o : Value) (s : String) (out : InputItem)
      → Option.map (put_text serde t "output" s) (as_object serde t o) ≡ some out
      → (fs : Fields) × (o ≡ object fs)
        × (out ≡ InputItem.json (object (insert "output" (string s) fs)))
  put-object (object fs) s out h = (fs, refl, cc)
  put-object null s out h = cc
  put-object (bool b) s out h = cc
  put-object (number n) s out h = cc
  put-object (string u) s out h = cc
  put-object (array vs) s out h = cc

  trim_function_call_output-Edits :
      (v : Value) (names : List String) (out : InputItem)
      → trim_function_call_output serde t v names ≡ some out
      → Edits v out
  unfolding trim_function_call_output
  trim_function_call_output-Edits v names out h =
      let text = summary serde t (first_name serde t names) (output_text serde v) in
      let g =
        guarded (leb (byte_len (output_text serde v)) t.max_output_chars)
          (leb (byte_len (output_text serde v)) (byte_len text))
          (Option.map (put_text serde t "output" text) (as_object serde t v)) h in
      let p = put-object v text out g.2 in
      (
        object (insert "output" (string text) p.0),
        p.2,
        record {
          keeps = λ k kept.
              get-insert_other k "output" (string text) p.0 refl kept ∙ sym (ap (get k) p.1);
          below_json = λ _. (
            text,
            get-insert "output" (string text) p.0,
            ground (arith, g.1),
            ground (arith, g.0),
          );
        },
      )

  abbrev Keeps : Value → InputItem → Type 0
  Keeps v out =
      (w : Value) × (out ≡ InputItem.json w)
      × ((k : String) → contains k trimmed_fields ≡ false → get k w ≡ get k v)

  object_of : (v : Value) (fs : Fields) → as_object serde t v ≡ some fs → v ≡ object fs
  object_of (object gs) fs h = cc
  object_of null fs h = cc
  object_of (bool b) fs h = cc
  object_of (number n) fs h = cc
  object_of (string u) fs h = cc
  object_of (array vs) fs h = cc

  replaced :
      (v w : Value) (k : String) (fs : Fields) (out : InputItem)
      → contains k trimmed_fields ≡ true
      → v ≡ object fs
      → some (InputItem.json (object (insert k w fs))) ≡ some out
      → Keeps v out
  replaced v w k fs out trimmed e h = (
    object (insert k w fs),
    cc,
    λ i kept. get-insert_other i k w fs trimmed kept ∙ sym (ap (get i) e),
  )

  found-Keeps :
      (results : Option Value) (tools : Option Values) (v : Value) (fs : Fields) (out : InputItem)
      → v ≡ object fs
      → (elim results [
        | some r ↦ trim_results serde t r fs
        | none ↦ tools >>= λ vs. trim_found_tools serde t vs fs
      ])
        ≡ some out
      → Keeps v out
  found-Keeps (some r) tools v fs out e h =
      replaced v _ "results" fs out refl e
        (guarded_once (leb (byte_len (serde.to_string r)) t.max_output_chars) _ h).1
  found-Keeps none (some vs) v fs out e h =
      replaced v _ "tools" fs out refl e
        (guarded_once (leb (byte_len (serde.to_string (array vs))) t.max_output_chars) _ h).1
  found-Keeps none none v fs out e h = cc

  trim_tool_search_output-Keeps :
      (v : Value) (out : InputItem) → trim_tool_search_output serde t v ≡ some out → Keeps v out
  unfolding trim_tool_search_output
  trim_tool_search_output-Keeps v out h =
      let o = bind_some (as_object serde t v) _ h in
      found-Keeps (get "results" v) (get "tools" v >>= as_array serde t) v o.0 out
        (object_of v o.0 o.1) o.2

  trim_by_type-Edits :
      (ty : String) (names : List String) (v : Value) (out : InputItem)
      → (get "type" v >>= as_str) ≡ some ty
      → trim_by_type serde t ty names v ≡ some out
      → Edits v out
  trim_by_type-Edits ty names v out e h = elim (Bool-cases (is_call_output (some ty))) [
    | inl output ↦
        let f : trim_function_call_output serde t v names ≡ some out = rw output at h in
        trim_function_call_output-Edits v names out f
    | inr other ↦
        let f : (if str_eq ty "tool_search_output" then trim_tool_search_output serde t v else none)
            ≡ some out =
          rw other at h in
        let k =
          trim_tool_search_output-Keeps v out
            (let_pass (str_eq ty "tool_search_output") (trim_tool_search_output serde t v) f).1 in
        (
          k.0,
          k.1,
          record {
            keeps = k.2;
            below_json =
                λ c. let d : is_call_output (some ty) ≡ true = ap is_call_output (sym e) ∙ c in cc;
          },
        )
  ]

  -- A trimmed item is a JSON item that keeps all fields but "output", "results" and "tools", so it
  -- still answers its call. If it is the output of a function or tool call, then the JSON text of
  -- the old output had more than `max_output_chars` bytes, and the new output is a text whose own
  -- bytes are fewer than those of that JSON text.
  pub trim_item-IsTrimmed :
      (m : CallNames) (v : Value) (out : InputItem)
      → trim_item serde t m (InputItem.json v) ≡ some out
      → (w : Value) × (out ≡ InputItem.json w) × IsTrimmed serde t.max_output_chars v w
  unfolding trim_item
  trim_item-IsTrimmed m v out h =
      let ty = bind_some (get "type" v >>= as_str) _ h in
      trim_by_type-Edits ty.0 (tool_names m ty.0 v) v out ty.1
        (let_pass (is_allowed serde t (tool_names m ty.0 v))
          (trim_by_type serde t ty.0 (tool_names m ty.0 v) v) ty.2).1
