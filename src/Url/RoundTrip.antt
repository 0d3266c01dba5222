-- ===== src/Url/RoundTrip.antt =====
-- Parsing encoded values gives the values back.
use mathlib.Core.List.{append_assoc, append-nil}
use athenadriver.Base.{
  ℕ, false, List, [], ◌∷◌, ◌++◌, map, Option, none, some, if◌then◌else◌, Bytes, bytes_eq,
  bytes_eq_iff, ◌≡◌, ◌≢◌, refl, ap, ◌∙◌, arith, Bool-cases, inl, inr, ==_false,
}
use athenadriver.Errors.{Error}
use athenadriver.Strings.{split, count_byte}
use athenadriver.Strings.Split.{Lacks, Lacks-append, split-Lacks, split-append, cut-append}
use athenadriver.Url.Escape.{
  AllBytes, escape_byte, query_escape, is_unreserved, hex_digit, query_unescape-query_escape,
}
use athenadriver.Url.Query.{
  Pair, pairs, pairs_of, pair_text, behind_pair, join_pairs, insert_key, bytes_lt, sort_keys,
  encode, add, parse_part, parse_parts, parse_query, is_empty_part,
}
use athenadriver.Url.Sort.{
  HasUniqueKeys, lookup-sort_keys, sort_keys-HasUniqueKeys, values_of, or_no_values,
  values_of-pairs,
}
use athenadriver.Url.{Values, lookup}

-- A separator of the query: one that is never left in an escaped text.
pub data Separator : Type 0 where
  ampersand equals semicolon hash : Separator

abbrev pub separator : Separator → ℕ
separator ampersand = b'&'
separator equals = b'='
separator semicolon = b';'
separator hash = b'#'

escape_byte-Lacks : (b : Separator) (c : ℕ) → Lacks (separator b) (escape_byte c)
unfolding escape_byte is_unreserved hex_digit
escape_byte-Lacks ampersand c = ground arith
escape_byte-Lacks equals c = ground arith
escape_byte-Lacks semicolon c = ground arith
escape_byte-Lacks hash c = ground arith

pub query_escape-Lacks : (b : Separator) (s : Bytes) → Lacks (separator b) (query_escape s)
unfolding query_escape
query_escape-Lacks b [] = tt
query_escape-Lacks b (c ∷ s) =
    Lacks-append (separator b) (escape_byte c) (query_escape s) (escape_byte-Lacks b c)
      (query_escape-Lacks b s)

pair_text-Lacks :
    (b : Separator) (p : Pair) → b'=' ≢ separator b → Lacks (separator b) (pair_text p)
pair_text-Lacks b (k, v) h =
    Lacks-append (separator b) (query_escape k) (b'=' ∷ query_escape v) (query_escape-Lacks b k)
      (h, query_escape-Lacks b v)

count_byte-Lacks : (b : ℕ) (s : Bytes) → Lacks b s → count_byte s b ≡ 0
count_byte-Lacks b [] h = refl
count_byte-Lacks b (c ∷ s) h = rw (==_false c b h.0) (rw (count_byte-Lacks b s h.1))

split-behind_pair :
    (p : Pair) (ps : List Pair)
    → split (pair_text p ++ behind_pair ps) b'&' ≡ pair_text p ∷ map pair_text ps
split-behind_pair p [] =
    rw append-nil (split-Lacks (pair_text p) b'&' (pair_text-Lacks ampersand p (omega arith)))
split-behind_pair p (q ∷ ps) =
    split-append (pair_text p) (pair_text q ++ behind_pair ps) b'&'
      (pair_text-Lacks ampersand p (omega arith))
    ∙ ap (◌∷◌ (pair_text p)) (split-behind_pair q ps)

-- The bytes of a pair, of pairs, and of all keys and values.
abbrev pub PairBytes : Pair → Type 0
PairBytes (k, v) = AllBytes k × AllBytes v

abbrev pub PairsBytes : List Pair → Type 0
PairsBytes [] = Unit
PairsBytes (p ∷ ps) = PairBytes p × PairsBytes ps

is_empty_part-append : (s : Bytes) (c : ℕ) (t : Bytes) → is_empty_part (s ++ c ∷ t) ≡ false
is_empty_part-append [] c t = refl
is_empty_part-append (d ∷ s) c t = refl

parse_part-pair_text :
    (m : Values) (e : Option Error) (k v : Bytes)
    → PairBytes (k, v)
    → parse_part (m, e) (pair_text (k, v)) ≡ (add m k v, e)
parse_part-pair_text m e k v h =
    unfold parse_part in
    rw
      (
        count_byte-Lacks b';' (pair_text (k, v)) (pair_text-Lacks semicolon (k, v) (omega arith)),
        is_empty_part-append (query_escape k) b'=' (query_escape v),
        cut-append (query_escape k) (query_escape v) b'=' (query_escape-Lacks equals k),
        query_unescape-query_escape k h.0,
        query_unescape-query_escape v h.1,
      )
      refl

abbrev pub collect : Values → List Pair → Values
collect m [] = m
collect m ((k, v) ∷ ps) = collect (add m k v) ps

parse_parts-map :
    (m : Values) (e : Option Error) (ps : List Pair)
    → PairsBytes ps
    → parse_parts (m, e) (map pair_text ps) ≡ (collect m ps, e)
unfolding parse_parts
parse_parts-map m e [] h = refl
parse_parts-map m e ((k, v) ∷ ps) h =
    ap (λ r. parse_parts r (map pair_text ps)) (parse_part-pair_text m e k v h.0)
    ∙ parse_parts-map (add m k v) e ps h.1

parse_query-join_pairs :
    (ps : List Pair) → PairsBytes ps → parse_query (join_pairs ps) ≡ (collect [] ps, none)
unfolding parse_query
parse_query-join_pairs [] h = unfold split parse_parts parse_part in refl
parse_query-join_pairs (p ∷ ps) h =
    ap (parse_parts ([], none)) (split-behind_pair p ps) ∙ parse_parts-map [] none (p ∷ ps) h

lookup-add :
    (m : Values) (k v j : Bytes)
    → lookup (add m k v) j
      ≡ (if bytes_eq k j then some (or_no_values (lookup m k) ++ v ∷ []) else lookup m j)
unfolding lookup add
lookup-add [] k v j = refl
lookup-add ((i, vs) ∷ m) k v j =
    ground (arith, bytes_eq_iff k j, bytes_eq_iff i k, bytes_eq_iff i j, lookup-add m k v j)

abbrev extend : Option (List Bytes) → List Bytes → Option (List Bytes)
extend o [] = o
extend o (v ∷ vs) = some (or_no_values o ++ v ∷ vs)

extend-snoc :
    (vs : List Bytes) (v : Bytes) (ws : List Bytes)
    → extend (some (vs ++ v ∷ [])) ws ≡ some (vs ++ v ∷ ws)
extend-snoc vs v [] = refl
extend-snoc vs v (w ∷ ws) = ap some (append_assoc vs (v ∷ []) (w ∷ ws))

lookup-collect :
    (m : Values) (ps : List Pair) (j : Bytes)
    → lookup (collect m ps) j ≡ extend (lookup m j) (values_of j ps)
lookup-collect m [] j = refl
lookup-collect m ((k, v) ∷ ps) j = elim (Bool-cases (bytes_eq k j)) [
  | inl e ↦
      lookup-collect (add m k v) ps j
      ∙ rw (lookup-add, e)
          (rw ((bytes_eq_iff k j).0 e) (extend-snoc (or_no_values (lookup m j)) v (values_of j ps)))
  | inr e ↦ lookup-collect (add m k v) ps j ∙ rw (lookup-add, e)
]

abbrev pub ManyBytes : List Bytes → Type 0
ManyBytes [] = Unit
ManyBytes (v ∷ vs) = AllBytes v × ManyBytes vs

abbrev pub EntriesBytes : Values → Type 0
EntriesBytes [] = Unit
EntriesBytes ((k, vs) ∷ m) = AllBytes k × ManyBytes vs × EntriesBytes m

abbrev pub HasNoEmptyEntry : Values → Type 0
HasNoEmptyEntry [] = Unit
HasNoEmptyEntry ((k, vs) ∷ m) = (vs ≢ []) × HasNoEmptyEntry m

-- What Go's map holds: all keys and values consist of bytes, every key stands once, and none
-- has an empty list.
pub record IsQuery (m : Values) : Type 0 where
  pub has_bytes : EntriesBytes m
  pub has_unique_keys : HasUniqueKeys m
  pub has_no_empty_entry : HasNoEmptyEntry m

insert_key-EntriesBytes :
    (k : Bytes) (vs : List Bytes) (m : Values)
    → AllBytes k
    → ManyBytes vs
    → EntriesBytes m
    → EntriesBytes (insert_key k vs m)
unfolding insert_key
insert_key-EntriesBytes k vs [] h b r = (h, b, tt)
insert_key-EntriesBytes k vs ((j, ws) ∷ m) h b (hj, bw, r) = elim (Bool-cases (bytes_lt j k)) [
  | inl e ↦ rw e (hj, bw, insert_key-EntriesBytes k vs m h b r)
  | inr e ↦ rw e (h, b, (hj, bw, r))
]

sort_keys-EntriesBytes : (m : Values) → EntriesBytes m → EntriesBytes (sort_keys m)
unfolding sort_keys
sort_keys-EntriesBytes [] h = h
sort_keys-EntriesBytes ((k, vs) ∷ m) (h, b, r) =
    insert_key-EntriesBytes k vs (sort_keys m) h b (sort_keys-EntriesBytes m r)

pairs_of-PairsBytes :
    (k : Bytes) (vs : List Bytes) (ps : List Pair)
    → AllBytes k
    → ManyBytes vs
    → PairsBytes ps
    → PairsBytes (pairs_of k vs ps)
pairs_of-PairsBytes k [] ps h b r = r
pairs_of-PairsBytes k (v ∷ vs) ps h (b, bs) r = ((h, b), pairs_of-PairsBytes k vs ps h bs r)

pairs-PairsBytes : (m : Values) → EntriesBytes m → PairsBytes (pairs m)
unfolding pairs
pairs-PairsBytes [] h = tt
pairs-PairsBytes ((k, vs) ∷ m) (h, b, r) =
    pairs_of-PairsBytes k vs (pairs m) h b (pairs-PairsBytes m r)

extend-none : (vs : List Bytes) → vs ≢ [] → extend none vs ≡ some vs
extend-none [] h = absurd (h refl)
extend-none (v ∷ vs) h = refl

extend-lookup :
    (m : Values) (j : Bytes)
    → HasNoEmptyEntry m
    → extend none (or_no_values (lookup m j)) ≡ lookup m j
unfolding lookup
extend-lookup [] j h = refl
extend-lookup ((k, vs) ∷ m) j h = elim (Bool-cases (bytes_eq k j)) [
  | inl e ↦ rw e (extend-none vs h.0)
  | inr e ↦ rw e (extend-lookup m j h.1)
]

pub parse_query-encode :
    (m : Values) → IsQuery m → parse_query (encode m) ≡ (collect [] (pairs (sort_keys m)), none)
unfolding encode
parse_query-encode m h =
    parse_query-join_pairs (pairs (sort_keys m))
      (pairs-PairsBytes (sort_keys m) (sort_keys-EntriesBytes m h.has_bytes))

-- `ParseQuery` reports no error for what `Encode` wrote, and finds the same list under each key.
pub lookup-parse_query-encode :
    (m : Values) (j : Bytes)
    → IsQuery m
    → ((parse_query (encode m)).1 ≡ none) × (lookup (parse_query (encode m)).0 j ≡ lookup m j)
lookup-parse_query-encode m j h = (
  ap (λ r. r.1) (parse_query-encode m h),
  ap (λ r. lookup r.0 j) (parse_query-encode m h)
      ∙ lookup-collect [] (pairs (sort_keys m)) j
      ∙ unfold lookup in
        ap (extend none) (
          values_of-pairs j (sort_keys m) (sort_keys-HasUniqueKeys m h.has_unique_keys)
          ∙ ap or_no_values (lookup-sort_keys m j))
        ∙ extend-lookup m j h.has_no_empty_entry,
)

behind_pair-Lacks : (ps : List Pair) → Lacks b'#' (behind_pair ps)
behind_pair-Lacks [] = tt
behind_pair-Lacks (p ∷ ps) = (
  omega arith,
  Lacks-append b'#' (pair_text p) (behind_pair ps) (pair_text-Lacks hash p (omega arith))
      (behind_pair-Lacks ps),
)

join_pairs-Lacks : (ps : List Pair) → Lacks b'#' (join_pairs ps)
join_pairs-Lacks [] = tt
join_pairs-Lacks (p ∷ ps) =
    Lacks-append b'#' (pair_text p) (behind_pair ps) (pair_text-Lacks hash p (omega arith))
      (behind_pair-Lacks ps)

-- What `Encode` writes does not end a URL's query.
pub encode-Lacks : (m : Values) → Lacks b'#' (encode m)
unfolding encode
encode-Lacks m = join_pairs-Lacks (pairs (sort_keys m))
