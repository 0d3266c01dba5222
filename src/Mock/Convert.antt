-- ===== src/Mock/Convert.antt =====
-- The texts that `randRow` of go/utils.go makes for a column, read by `athenaTypeToGoType` of
-- go/rows.go.
use athenadriver.Base.{
  ℕ, suc, ◌+◌, ◌^◌, ◌%◌, ◌<◌, true, false, List, [], ◌∷◌, none, some, Bytes, codes, ◌≡◌, ◌⊎◌, inl,
  inr, refl, ap, ◌∙◌, arith, ◌==◌, Bool-cases,
}
use athenadriver.Config.Flags.{check_column_masked}
use athenadriver.Config.{Config}
use athenadriver.Decimal.{ℤ, pos, negsuc, format_int, in_range}
use athenadriver.Errors.{returned, ◌>>=◌}
use athenadriver.Mock.{
  Random, ahead, random_int64, rand_int8, rand_int16, rand_int, rand_bool, rand_uint64, rand_text,
  rand_row,
}
use athenadriver.Rows.Convert.Laws.{fitting, convert_value-format_int}
use athenadriver.Rows.Convert.Row.{convert_row}
use athenadriver.Rows.Convert.{
  athena_type_to_go_type, GoValue, Library, int8, int16, int32, int64, boolean, convert_value,
}
use athenadriver.Rows.Page.{ColumnInfo, Row}

-- A number of `rand.Intn` and `rand.Int63n` is below the bound.
pub record IsRandom {G : Type 0} (random : Random G) : Type 0 where
  pub intn_lt : (n : ℕ) (g : G) → 0 < n → (random.intn n g).0 < n

ahead-in_range :
    (w k n : ℕ) → suc k ≡ 2 ^ w → n < k + suc k → in_range w (ahead (negsuc k) n) ≡ true
ahead-in_range w k n e h = ground arith

-- The types of the columns whose texts are always read without an error.
unfoldable pub IsReadable : Bytes → Type 0
IsReadable t =
    (t ≡ codes "tinyint") ⊎ (t ≡ codes "smallint") ⊎ (t ≡ codes "integer") ⊎ (t ≡ codes "boolean")

unfoldable pub HasReadableTypes : List ColumnInfo → Type 0
HasReadableTypes [] = Unit {0}
HasReadableTypes (c ∷ cs) =
    ((t : Bytes) × (c.column_type ≡ some t) × IsReadable t) × HasReadableTypes cs

-- Each text of the row is a value of its column.
unfoldable pub AllConvert : Library → List ColumnInfo → Row → Type 0
AllConvert library [] row = row ≡ []
AllConvert library (c ∷ cs) [] = ⊥
AllConvert library (c ∷ cs) (d ∷ row) =
    ((t : Bytes) × (s : Bytes) × (v : GoValue) × (c.column_type ≡ some t)
      × (d ≡ some s)
      × (convert_value library t s ≡ returned v))
    × AllConvert library cs row

module _ {G : Type 0} (random : Random G) (library : Library) where
  -- The text that `randRow` makes for a column of type `bigint` is that of an unsigned number of 64
  -- bits, which is read as a value of the column exactly if it is below `2 ^ 63`.
  rand_text-bigint :
      (g : G)
      → (s : Bytes) × ((rand_text random (codes "bigint") g).0 ≡ returned s)
        × (convert_value library (codes "bigint") s ≡ fitting 63 int64 (pos (random.uint64 g).0))
  unfolding rand_text rand_uint64 format_int
  rand_text-bigint g =
      let z = pos (random.uint64 g).0 in
      (format_int z, refl, (convert_value-format_int library z).3)

-- No column is masked, and there is a place for each value.
unfoldable pub HasPlaces : Config → List ColumnInfo → List GoValue → Type 0
HasPlaces config [] ret = Unit {0}
HasPlaces config (c ∷ cs) [] = ⊥
HasPlaces config (c ∷ cs) (r ∷ ret) =
    (check_column_masked config c.name ≡ returned none) × HasPlaces config cs ret

value_converted :
    (library : Library) (config : Config) (c : ColumnInfo) (t s : Bytes) (v : GoValue)
    → check_column_masked config c.name ≡ returned none
    → c.column_type ≡ some t
    → convert_value library t s ≡ returned v
    → athena_type_to_go_type library c (some s) config ≡ returned v
unfolding athena_type_to_go_type
value_converted library config c t s v m e k = rw (m, e, k)

AllConvert-convert_row :
    (library : Library) (config : Config) (cs : List ColumnInfo) (row : Row) (ret : List GoValue)
    → AllConvert library cs row
    → HasPlaces config cs ret
    → (vs : List GoValue) × (convert_row library cs row ret config ≡ returned vs)
unfolding AllConvert HasPlaces convert_row
AllConvert-convert_row library config [] row ret a h = (ret, rw a)
AllConvert-convert_row library config (c ∷ cs) [] ret a h = absurd a
AllConvert-convert_row library config (c ∷ cs) (d ∷ row) [] a h = absurd h
AllConvert-convert_row library config (c ∷ cs) (d ∷ row) (r ∷ ret) ((t, s, v, e, q, k), a) h =
    let (vs, w) = AllConvert-convert_row library config cs row ret a h.1 in
    (
      v ∷ vs,
      ap
            (λ d. athena_type_to_go_type library c d config >>= λ a.
              convert_row library cs row ret config >>= λ rest. returned (a ∷ rest))
            q
          ∙ rw (value_converted library config c t s v h.0 e k, w),
    )

module _ {G : Type 0} (random : Random G) (library : Library) (is_random : IsRandom random) where
  number :
      (w k : ℕ) (g : G)
      → suc k ≡ 2 ^ w
      → in_range w (random_int64 random (negsuc k) (pos k) g).0 ≡ true
  number w k g e = ahead-in_range w k _ e (is_random.intn_lt (k + suc k) g (omega arith))

  fits : (w : ℕ) (f : ℤ → GoValue) (z : ℤ) → in_range w z ≡ true → fitting w f z ≡ returned (f z)
  fits w f z h = rw h

  rand_text-Converts :
      (t : Bytes) (g : G)
      → IsReadable t
      → (s : Bytes) × (v : GoValue) × ((rand_text random t g).0 ≡ returned s)
        × (convert_value library t s ≡ returned v)
  unfolding rand_text rand_int8 rand_int16 rand_int rand_bool IsReadable convert_value
  rand_text-Converts t g (inl h) =
      let z = (random_int64 random (negsuc 127) (pos 127) g).0 in
      (
        format_int z,
        int8 z,
        rw h,
        rw h ((convert_value-format_int library z).0 ∙ fits 7 int8 z (number 7 127 g refl)),
      )
  rand_text-Converts t g (inr (inl h)) =
      let z = (random_int64 random (negsuc 32_767) (pos 32_767) g).0 in
      (
        format_int z,
        int16 z,
        rw h,
        rw h ((convert_value-format_int library z).1 ∙ fits 15 int16 z (number 15 32_767 g refl)),
      )
  rand_text-Converts t g (inr (inr (inl h))) =
      let z = (random_int64 random (negsuc 2_147_483_647) (pos 2_147_483_647) g).0 in
      (
        format_int z,
        int32 z,
        rw h,
        rw h (
            (convert_value-format_int library z).2
            ∙ fits 31 int32 z (number 31 2_147_483_647 g refl)),
      )
  rand_text-Converts t g (inr (inr (inr h))) = elim (Bool-cases ((random.intn 10 g).0 % 2 == 0)) [
    | inl e ↦ (codes "true", boolean true, rw (h, e), rw h)
    | inr e ↦ (codes "false", boolean false, rw (h, e), rw h)
  ]

  rand_row-AllConvert :
      (cs : List ColumnInfo) (g : G)
      → HasReadableTypes cs
      → (row : Row) × ((rand_row random cs g).0 ≡ returned row) × AllConvert library cs row
  unfolding rand_row HasReadableTypes AllConvert
  rand_row-AllConvert [] g h = ([], refl, refl)
  rand_row-AllConvert (c ∷ cs) g ((t, e, r), hs) =
      let (s, v, eq, k) = rand_text-Converts t g r in
      let (row, eqs, all) = rand_row-AllConvert cs (rand_text random t g).1 hs in
      (some s ∷ row, rw (e, eq, eqs), ((t, s, v, e, refl, k), all))

  -- Each row that `randRow` makes for columns of the types `tinyint`, `smallint`, `integer` and
  -- `boolean` is converted by `convertRow` without an error, if no column is masked and there is a
  -- place for each value.
  pub rand_row-convert_row :
      (config : Config) (cs : List ColumnInfo) (ret : List GoValue) (g : G)
      → HasReadableTypes cs
      → HasPlaces config cs ret
      → (row : Row) × (vs : List GoValue) × ((rand_row random cs g).0 ≡ returned row)
        × (convert_row library cs row ret config ≡ returned vs)
  rand_row-convert_row config cs ret g h p =
      let (row, eq, all) = rand_row-AllConvert cs g h in
      let (vs, w) = AllConvert-convert_row library config cs row ret all p in (row, vs, eq, w)
