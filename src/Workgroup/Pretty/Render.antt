-- ===== src/Workgroup/Pretty/Render.antt =====
-- The text of a configuration, by its lines.
use mathlib.Core.List.{append_assoc, append-nil}
use athenadriver.Base.{
  ℕ, ◌+◌, Bool, true, false, not, ◌||◌, List, [], ◌∷◌, ◌++◌, none, some, if◌then◌else◌, Bytes,
  codes, ◌≡◌, refl, ap, sym, ◌∙◌, Bool-cases, inl, inr,
}
use athenadriver.Decimal.{format_int}
use athenadriver.Errors.{Outcome, returned, panics, failed, unfinished, ◌>>=◌}
use athenadriver.Workgroup.Pretty.{
  GoData, GoFields, struct, pointer, nil_pointer, string, boolean, integer, collection, no_field,
  field, is_unset, spaces, new_line, prettify_wg_config, prettify_fields, wg_config_string,
}

-- The lines behind the first, each with what separates it.
abbrev pub more_lines : List Bytes → Bytes
more_lines [] = []
more_lines (l ∷ ls) = codes "," ++ new_line ++ l ++ more_lines ls

abbrev pub join_lines : Bool → List Bytes → Bytes
join_lines false ls = more_lines ls
join_lines true [] = []
join_lines true (l ∷ ls) = l ++ more_lines ls

returned_bind : (m : Outcome Bytes) → (m >>= (λ t. returned t)) ≡ m
returned_bind (returned t) = refl
returned_bind (failed e) = refl
returned_bind panics = refl
returned_bind unfinished = refl

-- What is written behind the lines of a struct.
struct_closed :
    (m : Outcome (List Bytes)) (buf pad : Bytes)
    → (m
        >>= (λ ls. returned ((buf ++ codes "{" ++ new_line) ++ join_lines true ls))
        >>= (λ b. returned (b ++ new_line ++ pad ++ codes "}")))
      ≡ (m
          >>= (λ ls.
              returned
                (codes "{" ++ new_line ++ join_lines true ls ++ new_line ++ pad ++ codes "}"))
          >>= (λ t. returned (buf ++ t)))
struct_closed (returned ls) buf pad = ap returned (simp (append_assoc) refl)
struct_closed (failed e) buf pad = refl
struct_closed panics buf pad = refl
struct_closed unfinished buf pad = refl

-- What is written behind a field.
rest_joined :
    (m : Outcome (List Bytes)) (first : Bool) (buf front line : Bytes)
    → ((ls : List Bytes) → front ++ more_lines ls ≡ buf ++ join_lines first (line ∷ ls))
    → (m >>= (λ ls. returned (front ++ more_lines ls)))
      ≡ (m >>= (λ ls. returned (line ∷ ls)) >>= (λ ls. returned (buf ++ join_lines first ls)))
rest_joined (returned ls) first buf front line h = ap returned (h ls)
rest_joined (failed e) first buf front line h = refl
rest_joined panics first buf front line h = refl
rest_joined unfinished first buf front line h = refl

-- A field and the fields behind it.
field_joined :
    (r : Outcome Bytes) (m : Outcome (List Bytes)) (first : Bool) (buf pad name : Bytes)
    (k : Bytes → Outcome Bytes)
    → ((b : Bytes) → k b ≡ (m >>= (λ ls. returned (b ++ more_lines ls))))
    → (r
        >>= (λ t. returned (
            ((if first then buf else buf ++ codes "," ++ new_line) ++ pad ++ name ++ codes ": ")
            ++ t))
        >>= k)
      ≡ (r
          >>= (λ t. m >>= (λ ls. returned ((pad ++ name ++ codes ": " ++ t) ∷ ls)))
          >>= (λ ls. returned (buf ++ join_lines first ls)))
field_joined (returned t) m true buf pad name k h =
    h ((buf ++ pad ++ name ++ codes ": ") ++ t)
    ∙ rest_joined m true buf ((buf ++ pad ++ name ++ codes ": ") ++ t)
        (pad ++ name ++ codes ": " ++ t) (λ ls. simp (append_assoc) refl)
field_joined (returned t) m false buf pad name k h =
    h (((buf ++ codes "," ++ new_line) ++ pad ++ name ++ codes ": ") ++ t)
    ∙ rest_joined m false buf (((buf ++ codes "," ++ new_line) ++ pad ++ name ++ codes ": ") ++ t)
        (pad ++ name ++ codes ": " ++ t) (λ ls. simp (append_assoc) refl)
field_joined (failed e) m first buf pad name k h = refl
field_joined panics m first buf pad name k h = refl
field_joined unfinished m first buf pad name k h = refl

module _ (quote : Bytes → Bytes) where
  -- A struct is the list of the lines of its exported fields that are set.
  unfoldable mutual
    pub render : GoData → ℕ → Outcome Bytes
    render (struct fs) n = lines fs (n + 2) >>= λ ls.
        returned (codes "{" ++ new_line ++ join_lines true ls ++ new_line ++ spaces n ++ codes "}")
    render (pointer v) n = render v n
    render nil_pointer n = panics
    render (string s) n = returned (quote s)
    render (boolean b) n = returned (if b then codes "true" else codes "false")
    render (integer z) n = returned (format_int z)
    render (collection is_nil text) n = returned text

    pub lines : GoFields → ℕ → Outcome (List Bytes)
    lines no_field n = returned []
    lines (field exported name v fs) n =
        if not exported || is_unset v
        then lines fs n
        else render v n >>= λ t.
            lines fs n >>= λ ls. returned ((spaces n ++ name ++ codes ": " ++ t) ∷ ls)

  mutual
    unfolding prettify_wg_config render

    prettify-render :
        (v : GoData) (n : ℕ) (buf : Bytes)
        → prettify_wg_config quote v n buf ≡ (render v n >>= λ t. returned (buf ++ t))
    prettify-render (struct fs) n buf =
        rw (prettify_fields-lines fs n true (buf ++ codes "{" ++ new_line))
          (struct_closed (lines fs (n + 2)) buf (spaces n))
    prettify-render (pointer v) n buf = prettify-render v n buf
    prettify-render nil_pointer n buf = refl
    prettify-render (string s) n buf = refl
    prettify-render (boolean b) n buf = refl
    prettify-render (integer z) n buf = refl
    prettify-render (collection is_nil text) n buf = refl

    prettify_fields-lines :
        (fs : GoFields) (n : ℕ) (first : Bool) (buf : Bytes)
        → prettify_fields quote fs n first buf
          ≡ (lines fs (n + 2) >>= λ ls. returned (buf ++ join_lines first ls))
    prettify_fields-lines no_field n true buf = ap returned (sym (append-nil buf))
    prettify_fields-lines no_field n false buf = ap returned (sym (append-nil buf))
    prettify_fields-lines (field exported name v fs) n first buf =
        elim (Bool-cases (not exported || is_unset v)) [
          | inl e ↦ rw e (prettify_fields-lines fs n first buf)
          | inr e ↦ rw e (
              ap (λ o. o >>= (λ b. prettify_fields quote fs n false b))
                (prettify-render v (n + 2) (
                  (if first then buf else buf ++ codes "," ++ new_line)
                  ++ spaces (n + 2)
                  ++ name
                  ++ codes ": "))
              ∙ field_joined (render v (n + 2)) (lines fs (n + 2)) first buf (spaces (n + 2)) name
                  (λ b. prettify_fields quote fs n false b)
                  (λ b. prettify_fields-lines fs n false b))
        ]

  -- For whatever configuration reflection gives, `wgConfigString` returns braces around one line
  -- per field that is exported and set, in the order of the fields, joined by commas, each with its
  -- name and the text of its value, structs within it the same way two spaces further in; a set
  -- field whose value is a pointer to a nil pointer makes it panic. A nil configuration has the
  -- text of a struct without fields.
  pub wg_config_string-render :
      (c : GoData)
      → (wg_config_string quote (some c) ≡ render c 0)
        × (wg_config_string quote none ≡ render (struct no_field) 0)
  unfolding wg_config_string render
  wg_config_string-render c = (prettify-render c 0 [] ∙ returned_bind (render c 0), refl)
