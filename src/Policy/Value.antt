-- ===== src/Policy/Value.antt =====
-- The arguments of a tool call, `map[string]any` as encoding/json reads it, and how policy/engine.go
-- takes a field out of them and prints it with fmt's %v. Floating-point numbers are a parameter.
use flux7_mesh.Base.{
  Bool, true, false, ◌&&◌, ◌||◌, Option, none, some, List, [], ◌∷◌, ◌++◌, if◌then◌else◌, ltb, ◌==◌,
  Text, codes, text_eq, split,
}

-- What the code uses of float64: the comparisons, strconv.ParseFloat, and fmt's %v.
pub record FloatOps (N : Type 0) : Type 0 where
  pub lt : N → N → Bool
  pub le : N → N → Bool
  pub eq : N → N → Bool
  pub parse : Text → Option N
  pub format : N → Text

mutual
  pub data Value (N : Type 0) : Type 0 where
    null : Value N
    bool : Bool → Value N
    num : N → Value N
    str : Text → Value N
    arr : Items N → Value N
    obj : Fields N → Value N

  pub data Items (N : Type 0) : Type 0 where
    nil : Items N
    cons : Value N → Items N → Items N

  pub data Fields (N : Type 0) : Type 0 where
    end : Fields N
    field : Text → Value N → Fields N → Fields N

abbrev pub Params : Type 0 → Type 0
Params N = Fields N

module _ {N : Type 0} where
  -- A missing key gives nil.
  unfoldable pub get_field : Text → Fields N → Value N
  get_field k end = null
  get_field k (field j v fs) = if text_eq j k then v else get_field k fs

  unfoldable pub extract_parts : List Text → Value N → Value N
  extract_parts [] v = v
  extract_parts (part ∷ parts) (obj fs) = extract_parts parts (get_field part fs)
  extract_parts (part ∷ parts) v = null

  -- The field at a dotted path.
  unfoldable pub extract_field : Text → Params N → Value N
  unfolding extract_parts get_field split
  extract_field path params = extract_parts (split b'.' path) (obj params)

-- The byte order of texts.
unfoldable pub text_lt : Text → Text → Bool
text_lt [] [] = false
text_lt [] (y ∷ t) = true
text_lt (x ∷ s) [] = false
text_lt (x ∷ s) (y ∷ t) = ltb x y || (x == y && text_lt s t)

abbrev add_entry : Text × Text → List (Text × Text) → List (Text × Text)
add_entry (k, v) [] = (k, v) ∷ []
add_entry (k, v) ((j, w) ∷ m) =
    if text_lt j k then (j, w) ∷ add_entry (k, v) m else (k, v) ∷ (j, w) ∷ m

abbrev sort_entries : List (Text × Text) → List (Text × Text)
sort_entries [] = []
sort_entries (e ∷ es) = add_entry e (sort_entries es)

abbrev join_texts : List Text → Text
join_texts [] = []
join_texts (t ∷ []) = t
join_texts (t ∷ u ∷ ts) = t ++ codes " " ++ join_texts (u ∷ ts)

abbrev entry_texts : List (Text × Text) → List Text
entry_texts [] = []
entry_texts ((k, v) ∷ es) = (k ++ codes ":" ++ v) ∷ entry_texts es

module _ {N : Type 0} (ops : FloatOps N) where
  unfoldable mutual
    -- fmt.Sprintf("%v", v); the keys of a map are printed in order.
    pub render : Value N → Text
    render null = codes "<nil>"
    render (bool true) = codes "true"
    render (bool false) = codes "false"
    render (num n) = ops.format n
    render (str s) = s
    render (arr xs) = codes "[" ++ join_texts (render_items xs) ++ codes "]"
    render (obj fs) =
        codes "map[" ++ join_texts (entry_texts (sort_entries (render_fields fs))) ++ codes "]"

    pub render_items : Items N → List Text
    render_items nil = []
    render_items (cons v vs) = render v ∷ render_items vs

    pub render_fields : Fields N → List (Text × Text)
    render_fields end = []
    render_fields (field k v fs) = (k, render v) ∷ render_fields fs

  -- `toFloat`: of the types it accepts, encoding/json makes float64 and string alone.
  unfoldable pub to_float : Value N → Option N
  to_float (num n) = some n
  to_float (str s) = ops.parse s
  to_float v = none
