-- ===== src/Url/Query.antt =====
-- `url.Values.Encode` and `url.ParseQuery` of Go's package net/url.
use athenadriver.Base.{
  Bool, true, false, ◌&&◌, ◌||◌, List, [], ◌∷◌, ◌++◌, Option, none, some, ltb, ◌==◌, if◌then◌else◌,
  Bytes, codes, bytes_eq,
}
use athenadriver.Errors.{Error, message}
use athenadriver.Strings.{split, cut, count_byte}
use athenadriver.Url.Escape.{query_escape, query_unescape}
use athenadriver.Url.{Values}

-- `<` on Go strings.
unfoldable pub bytes_lt : Bytes → Bytes → Bool
bytes_lt [] [] = false
bytes_lt [] (d ∷ t) = true
bytes_lt (c ∷ s) [] = false
bytes_lt (c ∷ s) (d ∷ t) = ltb c d || (c == d && bytes_lt s t)

-- `slices.Sort` of the keys of the map.
unfoldable pub insert_key : Bytes → List Bytes → Values → Values
insert_key k vs [] = (k, vs) ∷ []
insert_key k vs ((j, ws) ∷ m) =
    let rest = insert_key k vs m in if bytes_lt j k then (j, ws) ∷ rest else (k, vs) ∷ (j, ws) ∷ m

unfoldable pub sort_keys : Values → Values
unfolding insert_key
sort_keys [] = []
sort_keys ((k, vs) ∷ m) = insert_key k vs (sort_keys m)

abbrev pub Pair : Type 0
Pair = Bytes × Bytes

-- The pairs of a key with its values, in front of others.
abbrev pub pairs_of : Bytes → List Bytes → List Pair → List Pair
pairs_of k [] ps = ps
pairs_of k (v ∷ vs) ps = (k, v) ∷ pairs_of k vs ps

unfoldable pub pairs : Values → List Pair
pairs [] = []
pairs ((k, vs) ∷ m) = pairs_of k vs (pairs m)

abbrev pub pair_text : Pair → Bytes
pair_text (k, v) = query_escape k ++ (b'=' ∷ query_escape v)

abbrev pub behind_pair : List Pair → Bytes
behind_pair [] = []
behind_pair (p ∷ ps) = b'&' ∷ (pair_text p ++ behind_pair ps)

abbrev pub join_pairs : List Pair → Bytes
join_pairs [] = []
join_pairs (p ∷ ps) = pair_text p ++ behind_pair ps

-- `v.Encode()`
unfoldable pub encode : Values → Bytes
unfolding sort_keys pairs
encode m = join_pairs (pairs (sort_keys m))

-- `m[key] = append(m[key], value)`
unfoldable pub add : Values → Bytes → Bytes → Values
add [] k v = (k, v ∷ []) ∷ []
add ((j, vs) ∷ m) k v = if bytes_eq j k then (j, vs ++ v ∷ []) ∷ m else (j, vs) ∷ add m k v

-- The values so far, and the first error.
abbrev pub Parsed : Type 0
Parsed = Values × Option Error

abbrev pub or_first : Option Error → Error → Option Error
or_first none e = some e
or_first (some d) e = some d

abbrev pub add_unescaped : Parsed → Option Bytes → Option Bytes → Parsed
add_unescaped (m, e) (some k) (some v) = (add m k v, e)
add_unescaped (m, e) _ _ = (m, or_first e (message (codes "invalid URL escape")))

abbrev pub is_empty_part : Bytes → Bool
is_empty_part [] = true
is_empty_part (c ∷ s) = false

-- One part between the ampersands.
unfoldable pub parse_part : Parsed → Bytes → Parsed
unfolding add
parse_part (m, e) part =
    if ltb 0 (count_byte part b';')
    then (m, or_first e (message (codes "invalid semicolon separator in query")))
    else if is_empty_part part
    then (m, e)
    else (let (k, v) = cut part b'=' in add_unescaped (m, e) (query_unescape k) (query_unescape v))

unfoldable pub parse_parts : Parsed → List Bytes → Parsed
unfolding parse_part
parse_parts r [] = r
parse_parts r (part ∷ parts) = parse_parts (parse_part r part) parts

unfoldable pub parse_query : Bytes → Parsed
unfolding parse_parts
parse_query s = parse_parts ([], none) (split s b'&')
