-- ===== src/Url/Position.antt =====
-- Where a value that is set stands in the encoded query: at a place that does not depend on it.
use mathlib.Core.List.{append_assoc}
use athenadriver.Base.{
  List, [], ◌∷◌, ◌++◌, Bytes, bytes_eq, ◌≡◌, refl, ap, sym, ◌∙◌, Bool-cases, inl, inr,
}
use athenadriver.Url.Query.{
  Pair, pairs, pairs_of, pair_text, behind_pair, join_pairs, insert_key, sort_keys, encode,
  bytes_lt,
}
use athenadriver.Url.{Values, put}

abbrev around : Values → Values → Bytes → List Bytes → Values
around a b k vs = a ++ (k, vs) ∷ b

-- A function of a key's values gives values that only differ in these.
abbrev IsAround : Bytes → (List Bytes → Values) → Type 0
IsAround k f = (a : Values) × (b : Values) × ((vs : List Bytes) → f vs ≡ around a b k vs)

put-IsAround :
    (m : Values) (k : Bytes)
    → (a : Values) × (b : Values) × ((v : Bytes) → put m k v ≡ around a b k (v ∷ []))
unfolding put
put-IsAround [] k = ([], [], λ v. refl)
put-IsAround ((j, vs) ∷ m) k = elim (Bool-cases (bytes_eq j k)) [
  | inl e ↦ ([], m, λ v. rw e)
  | inr e ↦ let (a, b, h) = put-IsAround m k in ((j, vs) ∷ a, b, λ v. rw e (ap (◌∷◌ (j, vs)) (h v)))
]

insert_key-IsAround : (k : Bytes) (m : Values) → IsAround k (λ vs. insert_key k vs m)
unfolding insert_key
insert_key-IsAround k [] = ([], [], λ vs. refl)
insert_key-IsAround k ((j, ws) ∷ m) = elim (Bool-cases (bytes_lt j k)) [
  | inl e ↦
      let (a, b, h) = insert_key-IsAround k m in
      ((j, ws) ∷ a, b, λ vs. rw e (ap (◌∷◌ (j, ws)) (h vs)))
  | inr e ↦ ([], (j, ws) ∷ m, λ vs. rw e)
]

insert_key-around :
    (j : Bytes) (ws : List Bytes) (k : Bytes) (a b : Values)
    → IsAround k (λ vs. insert_key j ws (around a b k vs))
unfolding insert_key
insert_key-around j ws k [] b = elim (Bool-cases (bytes_lt k j)) [
  | inl e ↦ ([], insert_key j ws b, λ vs. rw e)
  | inr e ↦ ((j, ws) ∷ [], b, λ vs. rw e)
]
insert_key-around j ws k ((i, us) ∷ a) b = elim (Bool-cases (bytes_lt i j)) [
  | inl e ↦
      let (a', b', h) = insert_key-around j ws k a b in
      ((i, us) ∷ a', b', λ vs. rw e (ap (◌∷◌ (i, us)) (h vs)))
  | inr e ↦ ((j, ws) ∷ (i, us) ∷ a, b, λ vs. rw e)
]

sort_keys-around : (k : Bytes) (a b : Values) → IsAround k (λ vs. sort_keys (around a b k vs))
unfolding sort_keys
sort_keys-around k [] b = insert_key-IsAround k (sort_keys b)
sort_keys-around k ((j, ws) ∷ a) b =
    let (a', b', h) = sort_keys-around k a b in
    let (a'', b'', l) = insert_key-around j ws k a' b' in
    (a'', b'', λ vs. ap (insert_key j ws) (h vs) ∙ l vs)

pairs_of-append :
    (k : Bytes) (vs : List Bytes) (ps qs : List Pair)
    → pairs_of k vs (ps ++ qs) ≡ pairs_of k vs ps ++ qs
pairs_of-append k [] ps qs = refl
pairs_of-append k (v ∷ vs) ps qs = ap (◌∷◌ (k, v)) (pairs_of-append k vs ps qs)

pairs-around :
    (k v : Bytes) (a b : Values) → pairs (around a b k (v ∷ [])) ≡ pairs a ++ (k, v) ∷ pairs b
unfolding pairs
pairs-around k v [] b = refl
pairs-around k v ((j, ws) ∷ a) b =
    ap (pairs_of j ws) (pairs-around k v a b) ∙ pairs_of-append j ws (pairs a) ((k, v) ∷ pairs b)

abbrev front : List Pair → Bytes
front [] = []
front (p ∷ ps) = pair_text p ++ (b'&' ∷ front ps)

append_amp : (s t u : Bytes) → s ++ (b'&' ∷ (t ++ u)) ≡ (s ++ (b'&' ∷ t)) ++ u
append_amp s t u = sym (append_assoc s (b'&' ∷ t) u)

behind_pair-append :
    (ps qs : List Pair) (q : Pair)
    → behind_pair (ps ++ q ∷ qs) ≡ b'&' ∷ (front ps ++ (pair_text q ++ behind_pair qs))
behind_pair-append [] qs q = refl
behind_pair-append (p ∷ ps) qs q =
    ap (λ s. b'&' ∷ (pair_text p ++ s)) (behind_pair-append ps qs q)
    ∙ ap (◌∷◌ b'&') (append_amp (pair_text p) (front ps) (pair_text q ++ behind_pair qs))

join_pairs-append :
    (ps qs : List Pair) (q : Pair)
    → join_pairs (ps ++ q ∷ qs) ≡ front ps ++ (pair_text q ++ behind_pair qs)
join_pairs-append [] qs q = refl
join_pairs-append (p ∷ ps) qs q =
    ap (λ s. pair_text p ++ s) (behind_pair-append ps qs q)
    ∙ append_amp (pair_text p) (front ps) (pair_text q ++ behind_pair qs)

-- The text of the query once a key is set: what stands before and behind the pair is the same
-- for every value.
pub encode-put :
    (m : Values) (k : Bytes)
    → (pre : Bytes) × (post : Bytes) × ((v : Bytes)
        → encode (put m k v) ≡ pre ++ (pair_text (k, v) ++ post))
unfolding encode
encode-put m k =
    let (a, b, h) = put-IsAround m k in
    let (a', b', l) = sort_keys-around k a b in
    (
      front (pairs a'),
      behind_pair (pairs b'),
      λ v.
          ap (λ n. join_pairs (pairs (sort_keys n))) (h v)
          ∙ ap (λ n. join_pairs (pairs n)) (l (v ∷ []))
          ∙ ap join_pairs (pairs-around k v a' b')
          ∙ join_pairs-append (pairs a') (pairs b') (k, v),
    )
