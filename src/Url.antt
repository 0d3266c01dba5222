-- ===== src/Url.antt =====
-- `url.Values`, Go's map from a key to a list of texts, as an association list.
pub mod Escape
pub mod Invariant
pub mod Position
pub mod Query
pub mod RoundTrip
pub mod Sort
use athenadriver.Base.{
  List, [], ◌∷◌, Option, none, some, if◌then◌else◌, Bytes, bytes_eq, bytes_eq_iff, ◌≡◌, refl, arith,
}

abbrev pub Values : Type 0
Values = List (Bytes × List Bytes)

-- `v[key]`
unfoldable pub lookup : Values → Bytes → Option (List Bytes)
lookup [] k = none
lookup ((j, vs) ∷ m) k = if bytes_eq j k then some vs else lookup m k

abbrev first : Option (List Bytes) → Bytes
first none = []
first (some []) = []
first (some (v ∷ vs)) = v

-- `v.Get(key)`
unfoldable pub get : Values → Bytes → Bytes
unfolding lookup
get m k = first (lookup m k)

-- `v.Set(key, value)`
unfoldable pub put : Values → Bytes → Bytes → Values
put [] k v = (k, v ∷ []) ∷ []
put ((j, vs) ∷ m) k v = if bytes_eq j k then (k, v ∷ []) ∷ m else (j, vs) ∷ put m k v

-- `v.Del(key)`
unfoldable pub del : Values → Bytes → Values
del [] k = []
del ((j, vs) ∷ m) k = let rest = del m k in if bytes_eq j k then rest else (j, vs) ∷ rest

pub lookup-put :
    (m : Values) (k j v : Bytes)
    → lookup (put m k v) j ≡ (if bytes_eq k j then some (v ∷ []) else lookup m j)
unfolding lookup put
lookup-put [] k j v = refl
lookup-put ((i, vs) ∷ m) k j v =
    ground (arith, bytes_eq_iff k j, bytes_eq_iff i k, bytes_eq_iff i j, lookup-put m k j v)

pub get-put :
    (m : Values) (k j v : Bytes) → get (put m k v) j ≡ (if bytes_eq k j then v else get m j)
unfolding get
get-put m k j v = ground (arith, lookup-put m k j v)

pub lookup-del :
    (m : Values) (k j : Bytes) → lookup (del m k) j ≡ (if bytes_eq k j then none else lookup m j)
unfolding lookup del
lookup-del [] k j = ground arith
lookup-del ((i, vs) ∷ m) k j =
    ground (arith, bytes_eq_iff k j, bytes_eq_iff i k, bytes_eq_iff i j, lookup-del m k j)
