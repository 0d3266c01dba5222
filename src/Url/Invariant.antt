-- ===== src/Url/Invariant.antt =====
-- Setting a key keeps what net/url and its callers rely on of `url.Values`.
use athenadriver.Base.{
  false, [], ◌∷◌, none, Bytes, bytes_eq, bytes_eq_iff, ◌≡◌, refl, ap, ◌∙◌, sym, arith, Bool-cases,
  inl, inr,
}
use athenadriver.Url.Escape.{AllBytes}
use athenadriver.Url.RoundTrip.{IsQuery, EntriesBytes, HasNoEmptyEntry}
use athenadriver.Url.Sort.{HasUniqueKeys}
use athenadriver.Url.{Values, lookup, put, lookup-put}

put-EntriesBytes :
    (m : Values) (k v : Bytes) → AllBytes k → AllBytes v → EntriesBytes m → EntriesBytes (put m k v)
unfolding put
put-EntriesBytes [] k v a b h = (a, (b, tt), tt)
put-EntriesBytes ((j, vs) ∷ m) k v a b h = elim (Bool-cases (bytes_eq j k)) [
  | inl e ↦ rw e (a, (b, tt), h.2)
  | inr e ↦ rw e (h.0, h.1, put-EntriesBytes m k v a b h.2)
]

put-HasNoEmptyEntry : (m : Values) (k v : Bytes) → HasNoEmptyEntry m → HasNoEmptyEntry (put m k v)
unfolding put
put-HasNoEmptyEntry [] k v h = (cc, tt)
put-HasNoEmptyEntry ((j, vs) ∷ m) k v h = elim (Bool-cases (bytes_eq j k)) [
  | inl e ↦ rw e (cc, h.1)
  | inr e ↦ rw e (h.0, put-HasNoEmptyEntry m k v h.1)
]

other_key :
    (m : Values) (k j v : Bytes)
    → bytes_eq j k ≡ false
    → lookup m j ≡ none
    → lookup (put m k v) j ≡ none
other_key m k j v e h =
    let same = lookup-put m k j v in
    let p = bytes_eq_iff j k in let q = bytes_eq_iff k j in ground arith

put-HasUniqueKeys : (m : Values) (k v : Bytes) → HasUniqueKeys m → HasUniqueKeys (put m k v)
unfolding put lookup
put-HasUniqueKeys [] k v h = (refl, tt)
put-HasUniqueKeys ((j, vs) ∷ m) k v h = elim (Bool-cases (bytes_eq j k)) [
  | inl e ↦ rw e (ap (lookup m) (sym ((bytes_eq_iff j k).0 e)) ∙ h.0, h.1)
  | inr e ↦ rw e (other_key m k j v e h.0, put-HasUniqueKeys m k v h.1)
]

-- Setting a key to a text of bytes keeps the values a query.
pub put-IsQuery :
    (m : Values) (k v : Bytes) → AllBytes k → AllBytes v → IsQuery m → IsQuery (put m k v)
put-IsQuery m k v a b h = record {
  has_bytes = put-EntriesBytes m k v a b h.has_bytes;
  has_unique_keys = put-HasUniqueKeys m k v h.has_unique_keys;
  has_no_empty_entry = put-HasNoEmptyEntry m k v h.has_no_empty_entry;
}
