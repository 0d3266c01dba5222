-- ===== src/Config/TagLaws.antt =====
-- What is set as workgroup and session tags is read back.
use mathlib.Core.List.{append_assoc, append-nil}
use athenadriver.Base.{
  ℕ, false, List, [], ◌∷◌, ◌++◌, Option, none, some, if◌then◌else◌, Bytes, codes, ◌≡◌, refl, sym,
  ap, ◌∙◌, arith,
}
use athenadriver.Config.Groups.{
  tag_text, put_tags, or_default, set_work_group, read_tags, parse_tags, get_workgroup,
  set_session_tag, put_tag, put_pair, read_pairs, get_session_tags,
}
use athenadriver.Config.{Config, get, put, is_empty, or_else, get_from_env_val}
use athenadriver.Errors.{returned}
use athenadriver.Strings.Split.{Lacks, Lacks-append, split-Lacks, split-append, split-snoc}
use athenadriver.Strings.{split}
use athenadriver.Url.{get-put}
use athenadriver.Workgroup.{
  Tag, Workgroup, WorkGroupConfiguration, get_tags, get_default_wg_config, add_tag, new_wg_tags,
}

-- Neither the key nor the value holds a bar or a backquote.
abbrev pub IsClean : Tag → Type 0
IsClean t = Lacks b'|' t.key × Lacks b'|' t.value × Lacks b'`' t.key × Lacks b'`' t.value

abbrev pub AllClean : List Tag → Type 0
AllClean [] = Unit
AllClean (t ∷ ts) = IsClean t × AllClean ts

abbrev entry : Tag → Bytes
entry t = t.key ++ (b'`' ∷ t.value)

abbrev entries : List Tag → Bytes
entries [] = []
entries (t ∷ ts) = b'|' ∷ (entry t ++ entries ts)

tag_text-entries : (s : Bytes) (ts : List Tag) → tag_text s ts ≡ s ++ entries ts
unfolding tag_text
tag_text-entries s [] = sym (append-nil s)
tag_text-entries s (t ∷ ts) =
    tag_text-entries (s ++ (b'|' ∷ entry t)) ts ∙ append_assoc s (b'|' ∷ entry t) (entries ts)

entry-Lacks : (t : Tag) → IsClean t → Lacks b'|' (entry t)
entry-Lacks t h = Lacks-append b'|' t.key (b'`' ∷ t.value) h.0 (omega arith, h.1)

split-entry : (t : Tag) → IsClean t → split (entry t) b'`' ≡ t.key ∷ t.value ∷ []
split-entry t h =
    split-append t.key t.value b'`' h.2 ∙ ap (λ r. t.key ∷ r) (split-Lacks t.value b'`' h.3)

read_tags-entries :
    (acc : List Tag) (t : Tag) (ts : List Tag)
    → AllClean (t ∷ ts)
    → read_tags acc (split (entry t ++ entries ts) b'|') ≡ returned (acc ++ t ∷ ts)
unfolding read_tags add_tag
read_tags-entries acc t [] h =
    rw append-nil (rw (split-Lacks (entry t) b'|' (entry-Lacks t h.0)) (rw (split-entry t h.0)))
read_tags-entries acc t (u ∷ ts) h =
    rw (split-append (entry t) (entry u ++ entries ts) b'|' (entry-Lacks t h.0)) (
      rw (split-entry t h.0) (
        read_tags-entries (acc ++ t ∷ []) u ts h.1
        ∙ ap returned (append_assoc acc (t ∷ []) (u ∷ ts))))

parse_tags-entries : (ts : List Tag) → AllClean ts → parse_tags (entries ts) ≡ returned ts
unfolding new_wg_tags
parse_tags-entries [] h = refl
parse_tags-entries (t ∷ ts) h = read_tags-entries [] t ts h

put_tags-tag :
    (c : Config) (tags : Option (List Tag))
    → get c (codes "tag") ≡ []
    → get (put_tags c tags) (codes "tag") ≡ entries (get_tags tags)
unfolding get_tags
put_tags-tag c none h = h
put_tags-tag c (some tags) h =
    get-put c.values (codes "tag") (codes "tag") (tag_text (get c (codes "tag")) tags)
    ∙ ap (λ s. tag_text s tags) h
    ∙ tag_text-entries [] tags

put_tags-name :
    (c : Config) (tags : Option (List Tag))
    → get (put_tags c tags) (codes "workgroupName") ≡ get c (codes "workgroupName")
put_tags-name c none = refl
put_tags-name c (some tags) =
    get-put c.values (codes "tag") (codes "workgroupName") (tag_text (get c (codes "tag")) tags)

module _ (wg_config_string : WorkGroupConfiguration → Bytes) where
  set_work_group-tag :
      (c : Config) (w : Workgroup)
      → get c (codes "tag") ≡ []
      → get (set_work_group wg_config_string c (some w)).0 (codes "tag") ≡ entries (get_tags w.tags)
  unfolding set_work_group get_tags
  set_work_group-tag c w h =
      let named = put c (codes "workgroupName") w.name in
      get-put (put_tags named w.tags).values (codes "workgroupConfig") (codes "tag")
        (wg_config_string (or_default w.config))
      ∙ put_tags-tag named w.tags
          (get-put c.values (codes "workgroupName") (codes "tag") w.name ∙ h)

  set_work_group-name :
      (c : Config) (w : Workgroup)
      → get (set_work_group wg_config_string c (some w)).0 (codes "workgroupName") ≡ w.name
  unfolding set_work_group
  set_work_group-name c w =
      let named = put c (codes "workgroupName") w.name in
      get-put (put_tags named w.tags).values (codes "workgroupConfig") (codes "workgroupName")
        (wg_config_string (or_default w.config))
      ∙ put_tags-name named w.tags
      ∙ get-put c.values (codes "workgroupName") (codes "workgroupName") w.name

  -- In a configuration that has no workgroup tags yet, a workgroup that is set is read back with
  -- its name and its tags in order, provided that no key or value of a tag holds a bar or a
  -- backquote. Its own configuration is not read back: the default one stands in its place.
  pub get_workgroup-set_work_group :
      (c : Config) (w : Workgroup)
      → get c (codes "tag") ≡ []
      → AllClean (get_tags w.tags)
      → get_workgroup (set_work_group wg_config_string c (some w)).0
        ≡ returned (record {
          name = w.name;
          config = some get_default_wg_config;
          tags = some (get_tags w.tags);
        })
  unfolding get_workgroup
  get_workgroup-set_work_group c w e h =
      rw (set_work_group-tag c w e, set_work_group-name c w)
        (rw (parse_tags-entries (get_tags w.tags) h))

-- The session tags that the configuration itself holds.
abbrev pub own_tags : Config → List Tag
own_tags c = elim (get_session_tags (λ _. []) c) [ none ↦ [] | some m ↦ m ]

read_pairs-snoc :
    (m : List Tag) (ps : List Bytes) (p : Bytes)
    → read_pairs m (ps ++ p ∷ []) ≡ put_pair (read_pairs m ps) (split p b'`')
unfolding read_pairs
read_pairs-snoc m [] p = refl
read_pairs-snoc m (q ∷ ps) p = read_pairs-snoc (put_pair m (split q b'`')) ps p

abbrev tags_of : Bytes → Option (List Tag)
tags_of text = if is_empty text then none else some (read_pairs [] (split text b'|'))

abbrev or_none : Option (List Tag) → List Tag
or_none none = []
or_none (some m) = m

abbrev extended : Bytes → Tag → Bytes
extended text t = if is_empty text then entry t else text ++ (b'|' ∷ entry t)

or_else_nil : (s : Bytes) → or_else s [] ≡ s
or_else_nil [] = refl
or_else_nil (b ∷ s) = refl

or_else-cons : (a : Bytes) (b : ℕ) (s d : Bytes) → or_else (a ++ (b ∷ s)) d ≡ a ++ (b ∷ s)
or_else-cons [] b s d = refl
or_else-cons (x ∷ a) b s d = refl

is_empty-cons : (a : Bytes) (b : ℕ) (s : Bytes) → is_empty (a ++ (b ∷ s)) ≡ false
is_empty-cons [] b s = refl
is_empty-cons (x ∷ a) b s = refl

tags_of-extended :
    (text : Bytes) (t : Tag) (env : Bytes)
    → IsClean t
    → tags_of (or_else (extended text t) env)
      ≡ some (put_tag (or_none (tags_of text)) t.key t.value)
unfolding read_pairs
tags_of-extended [] t env h =
    ap tags_of (or_else-cons t.key b'`' t.value env)
    ∙ rw (is_empty-cons t.key b'`' t.value)
        (rw (split-Lacks (entry t) b'|' (entry-Lacks t h)) (rw (split-entry t h)))
tags_of-extended (b ∷ text) t env h = ap some (
    ap (read_pairs []) (split-snoc (b ∷ text) (entry t) b'|' (entry-Lacks t h))
    ∙ read_pairs-snoc [] (split (b ∷ text) b'|') (entry t)
    ∙ ap (put_pair (read_pairs [] (split (b ∷ text) b'|'))) (split-entry t h))

-- Setting a session tag whose key and value hold no bar and no backquote adds it to the session
-- tags that were set before, whatever their text, in place of one with the same key; then the
-- environment is not asked.
pub get_session_tags-set_session_tag :
    (getenv : Bytes → Bytes) (c : Config) (t : Tag)
    → IsClean t
    → get_session_tags getenv (set_session_tag c t.key t.value)
      ≡ some (put_tag (own_tags c) t.key t.value)
unfolding get_session_tags set_session_tag
get_session_tags-set_session_tag getenv c t h =
    let text = get c (codes "sessionTags") in
    ap (λ s. tags_of (or_else s (get_from_env_val getenv (codes "AWS_SESSION_TAGS" ∷ []))))
      (get-put c.values (codes "sessionTags") (codes "sessionTags") (extended text t))
    ∙ tags_of-extended text t (get_from_env_val getenv (codes "AWS_SESSION_TAGS" ∷ [])) h
    ∙ ap (λ s. some (put_tag (or_none (tags_of s)) t.key t.value)) (sym (or_else_nil text))
