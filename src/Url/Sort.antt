-- ===== src/Url/Sort.antt =====
-- Sorting the keys keeps what is found under each key.
use mathlib.Core.List.{append-nil}
use athenadriver.Base.{
  true, false, List, [], ◌∷◌, ◌++◌, Option, none, some, if◌then◌else◌, Bytes, bytes_eq,
  bytes_eq_iff, ◌≡◌, refl, ap, ◌∙◌, arith, Bool-cases, inl, inr,
}
use athenadriver.Url.Query.{bytes_lt, insert_key, sort_keys, pairs, pairs_of, Pair}
use athenadriver.Url.{Values, lookup}

-- Every key stands once.
abbrev pub HasUniqueKeys : Values → Type 0
HasUniqueKeys [] = Unit
HasUniqueKeys ((k, vs) ∷ m) = (lookup m k ≡ none) × HasUniqueKeys m

bytes_lt_irrefl : (s : Bytes) → bytes_lt s s ≡ false
unfolding bytes_lt
bytes_lt_irrefl [] = refl
bytes_lt_irrefl (c ∷ s) = ground (arith, bytes_lt_irrefl s)

bytes_lt-differ : (s t : Bytes) → bytes_lt s t ≡ true → bytes_eq s t ≡ false
bytes_lt-differ s t h = elim (Bool-cases (bytes_eq s t)) [
  | inl e ↦
      let same : s ≡ t = (bytes_eq_iff s t).0 e in
      let lt : bytes_lt t t ≡ true = rw same at h in
      let no_lt : bytes_lt t t ≡ false = bytes_lt_irrefl t in cc
  | inr e ↦ e
]

lookup-insert_key :
    (k : Bytes) (vs : List Bytes) (m : Values) (j : Bytes)
    → lookup (insert_key k vs m) j ≡ (if bytes_eq k j then some vs else lookup m j)
unfolding lookup insert_key
lookup-insert_key k vs [] j = refl
lookup-insert_key k vs ((i, ws) ∷ m) j = elim (Bool-cases (bytes_lt i k)) [
  | inl e ↦ rw e (
      ground (
        arith,
        bytes_eq_iff k j,
        bytes_eq_iff i k,
        bytes_eq_iff i j,
        bytes_lt-differ i k e,
        lookup-insert_key k vs m j,
      ))
  | inr e ↦ rw e
]

pub lookup-sort_keys : (m : Values) (j : Bytes) → lookup (sort_keys m) j ≡ lookup m j
unfolding lookup sort_keys
lookup-sort_keys [] j = refl
lookup-sort_keys ((k, vs) ∷ m) j =
    lookup-insert_key k vs (sort_keys m) j
    ∙ ap (λ r. if bytes_eq k j then some vs else r) (lookup-sort_keys m j)

lookup_miss :
    (i k : Bytes) (ws : List Bytes) (m : Values)
    → bytes_eq i k ≡ false
    → lookup ((i, ws) ∷ m) k ≡ none
    → lookup m k ≡ none
unfolding lookup
lookup_miss i k ws m d h = rw d at h

bytes_eq_sym-false : (i k : Bytes) → bytes_eq i k ≡ false → bytes_eq k i ≡ false
bytes_eq_sym-false i k h = ground (arith, bytes_eq_iff i k, bytes_eq_iff k i)

insert_key-HasUniqueKeys :
    (k : Bytes) (vs : List Bytes) (m : Values)
    → lookup m k ≡ none
    → HasUniqueKeys m
    → HasUniqueKeys (insert_key k vs m)
unfolding insert_key
insert_key-HasUniqueKeys k vs [] h u = (h, u)
insert_key-HasUniqueKeys k vs ((i, ws) ∷ m) h u = elim (Bool-cases (bytes_lt i k)) [
  | inl e ↦
      let miss = lookup_miss i k ws m (bytes_lt-differ i k e) h in
      rw e (
        lookup-insert_key k vs m i ∙ rw (bytes_eq_sym-false i k (bytes_lt-differ i k e)) (u.0),
        insert_key-HasUniqueKeys k vs m miss u.1,
      )
  | inr e ↦ rw e (h, u)
]

pub sort_keys-HasUniqueKeys : (m : Values) → HasUniqueKeys m → HasUniqueKeys (sort_keys m)
unfolding sort_keys
sort_keys-HasUniqueKeys [] u = u
sort_keys-HasUniqueKeys ((k, vs) ∷ m) u =
    insert_key-HasUniqueKeys k vs (sort_keys m) (lookup-sort_keys m k ∙ u.0)
      (sort_keys-HasUniqueKeys m u.1)

-- The values under a key, in the order of the pairs.
abbrev pub values_of : Bytes → List Pair → List Bytes
values_of j [] = []
values_of j ((k, v) ∷ ps) = if bytes_eq k j then v ∷ values_of j ps else values_of j ps

abbrev pub or_no_values : Option (List Bytes) → List Bytes
or_no_values none = []
or_no_values (some vs) = vs

values_of-pairs_of :
    (j k : Bytes) (vs : List Bytes) (ps : List Pair)
    → values_of j (pairs_of k vs ps)
      ≡ (if bytes_eq k j then vs ++ values_of j ps else values_of j ps)
values_of-pairs_of j k [] ps = ground arith
values_of-pairs_of j k (v ∷ vs) ps = ground (arith, values_of-pairs_of j k vs ps)

pub values_of-pairs :
    (j : Bytes) (m : Values) → HasUniqueKeys m → values_of j (pairs m) ≡ or_no_values (lookup m j)
unfolding pairs lookup
values_of-pairs j [] u = refl
values_of-pairs j ((k, vs) ∷ m) u =
    values_of-pairs_of j k vs (pairs m) ∙ (elim (Bool-cases (bytes_eq k j)) [
      | inl e ↦
          let same : k ≡ j = (bytes_eq_iff k j).0 e in
          let alone : values_of j (pairs m) ≡ [] =
            values_of-pairs j m u.1 ∙ ap or_no_values (rw same at (u.0)) in
          rw (e, alone, append-nil)
      | inr e ↦ rw e (values_of-pairs j m u.1)
    ])
