-- ===== src/Escape/Buffer.antt =====
-- `escapeBytesBackslash` writes inside of the buffer that it reserves, and appends.
use mathlib.Core.List.{append_assoc, append-nil}
use athenadriver.Base.{
  ℕ, zero, suc, false, ◌+◌, ◌*◌, ◌≤◌, ◌<◌, [], ◌∷◌, ◌++◌, Option, some, ltb, ◌==◌, if◌then◌else◌,
  length, set, take, drop, replicate, Bytes, ◌≡◌, refl, sym, ap, ◌∙◌, arith, lt→ltb, length-append,
  length-replicate, take_append, ◌⊎◌, inl, inr, Bool-cases,
}
use athenadriver.Escape.{
  Slice, contents, store, ◌>>=◌, reserve_buffer, store_pair, escape_step, escape_loop,
  escape_bytes_backslash,
}

-- What one byte becomes, with no buffer.
unfoldable pub escaped : ℕ → Bytes
escaped c =
    if c == 0
    then b'\\' ∷ b'0' ∷ []
    else if c == b'\n'
    then b'\\' ∷ b'n' ∷ []
    else if c == b'\r'
    then b'\\' ∷ b'r' ∷ []
    else if c == 0x1a
    then b'\\' ∷ b'Z' ∷ []
    else if c == b'\''
    then b'\'' ∷ b'\'' ∷ []
    else if c == b'"'
    then b'\\' ∷ b'"' ∷ []
    else if c == b'\\'
    then b'\\' ∷ b'\\' ∷ []
    else c ∷ []

abbrev pub escape_text : Bytes → Bytes
escape_text [] = []
escape_text (c ∷ cs) = escaped c ++ escape_text cs

-- The backing array holds at least the slice.
abbrev pub IsSlice : Slice → Type 0
IsSlice s = s.len ≤ length s.backing

set_append :
    (pre : Bytes) (x : ℕ) (room : Bytes) (c : ℕ)
    → set (pre ++ x ∷ room) (length pre) c ≡ pre ++ c ∷ room
set_append [] x room c = refl
set_append (y ∷ pre) x room c = ap (◌∷◌ y) (set_append pre x room c)

-- A slice with `pre` written and `room` behind it.
abbrev at : Bytes → Bytes → ℕ → Slice
at pre room len = record { backing = pre ++ room; len = len }

store-at :
    (pre : Bytes) (x : ℕ) (room : Bytes) (len c : ℕ)
    → length pre < len
    → store (at pre (x ∷ room) len) (length pre) c ≡ some (at (pre ++ c ∷ []) room len)
unfolding store
store-at pre x room len c h = rw (lt→ltb _ _ h) (rw set_append (rw append_assoc))

length-snoc : (pre : Bytes) (c : ℕ) → length (pre ++ c ∷ []) ≡ length pre + 1
length-snoc pre c = length-append pre (c ∷ [])

store_pair-at :
    (pre : Bytes) (x y : ℕ) (room : Bytes) (len a b : ℕ)
    → length pre + 2 ≤ len
    → store_pair (at pre (x ∷ y ∷ room) len) (length pre) a b
      ≡ some (at (pre ++ a ∷ b ∷ []) room len, length pre + 2)
unfolding store_pair
store_pair-at pre x y room len a b h = rw (store-at pre x (y ∷ room) len a (omega arith)) (
    rw (← length-snoc pre a) (
      rw (store-at (pre ++ a ∷ []) y room len b (omega (arith, length-snoc pre a)))
        (simp append_assoc)))

abbrev StoresPair : ℕ → Type 0
StoresPair c =
    (a : ℕ) × (b : ℕ) × ((buf : Slice) (pos : ℕ) → escape_step buf pos c ≡ store_pair buf pos a b)
    × (escaped c ≡ a ∷ b ∷ [])

abbrev StoresOne : ℕ → Type 0
StoresOne c =
    ((buf : Slice) (pos : ℕ) → escape_step buf pos c ≡ (store buf pos c >>= λ s. some (s, pos + 1)))
    × (escaped c ≡ c ∷ [])

-- The cases of the `switch`.
escape_cases : (c : ℕ) → StoresPair c ⊎ StoresOne c
unfolding escape_step escaped
escape_cases c = elim (Bool-cases (c == 0)) [
  | inl e ↦ inl (b'\\', b'0', (λ buf pos. rw (e)), rw (e))
  | inr e0 ↦ elim (Bool-cases (c == b'\n')) [
    | inl e ↦ inl (b'\\', b'n', (λ buf pos. rw (e0, e)), rw (e0, e))
    | inr e1 ↦ elim (Bool-cases (c == b'\r')) [
      | inl e ↦ inl (b'\\', b'r', (λ buf pos. rw (e0, e1, e)), rw (e0, e1, e))
      | inr e2 ↦ elim (Bool-cases (c == 0x1a)) [
        | inl e ↦ inl (b'\\', b'Z', (λ buf pos. rw (e0, e1, e2, e)), rw (e0, e1, e2, e))
        | inr e3 ↦ elim (Bool-cases (c == b'\'')) [
          | inl e ↦ inl (b'\'', b'\'', (λ buf pos. rw (e0, e1, e2, e3, e)), rw (e0, e1, e2, e3, e))
          | inr e4 ↦ elim (Bool-cases (c == b'"')) [
            | inl e ↦
                inl
                  (b'\\', b'"', (λ buf pos. rw (e0, e1, e2, e3, e4, e)), rw (e0, e1, e2, e3, e4, e))
            | inr e5 ↦ elim (Bool-cases (c == b'\\')) [
              | inl e ↦ inl (
                b'\\',
                b'\\',
                (λ buf pos. rw (e0, e1, e2, e3, e4, e5, e)),
                rw (e0, e1, e2, e3, e4, e5, e),
              )
              | inr e6 ↦
                  inr
                    ((λ buf pos. rw (e0, e1, e2, e3, e4, e5, e6)), rw (e0, e1, e2, e3, e4, e5, e6))
            ]
          ]
        ]
      ]
    ]
  ]
]

-- A step with two free bytes ahead writes the bytes of `escaped` and moves behind them.
escape_step-at :
    (pre : Bytes) (x y : ℕ) (room : Bytes) (len c : ℕ)
    → length pre + 2 ≤ len
    → (left : Bytes) × (escape_step (at pre (x ∷ y ∷ room) len) (length pre) c
        ≡ some (at (pre ++ escaped c) left len, length (pre ++ escaped c)))
      × (length room ≤ length left)
      × (length (escaped c) ≤ 2)
escape_step-at pre x y room len c h = elim (escape_cases c) [
  | inl (a, b, e, w) ↦ (
    room,
    rw (e, w) (rw (store_pair-at pre x y room len a b h) (rw (length-append pre (a ∷ b ∷ [])))),
    omega arith,
    rw w (omega arith),
  )
  | inr (e, w) ↦ (
    y ∷ room,
    rw (e, w)
        (rw (store-at pre x (y ∷ room) len c (omega arith)) (rw (length-append pre (c ∷ [])))),
    omega arith,
    rw w (omega arith),
  )
]

escape_loop-at :
    (v pre room : Bytes) (len : ℕ)
    → length pre + length v * 2 ≤ len
    → length v * 2 ≤ length room
    → (left : Bytes) × (escape_loop (at pre room len) (length pre) v
        ≡ some (at (pre ++ escape_text v) left len, length (pre ++ escape_text v)))
      × (length (escape_text v) ≤ length v * 2)
unfolding escape_loop
escape_loop-at [] pre room len h k = (room, rw append-nil, omega arith)
escape_loop-at (c ∷ cs) pre [] len h k = absurd (omega arith)
escape_loop-at (c ∷ cs) pre (x ∷ []) len h k = absurd (omega arith)
escape_loop-at (c ∷ cs) pre (x ∷ y ∷ room) len h k =
    let (left, e, l, two) = escape_step-at pre x y room len c (omega arith) in
    let (left', e', short) =
      escape_loop-at cs (pre ++ escaped c) left len (omega (arith, length-append pre (escaped c)))
        (omega arith) in
    (
      left',
      rw e (e' ∙ rw (append_assoc pre (escaped c) (escape_text cs))),
      omega (arith, length-append (escaped c) (escape_text cs)),
    )

take_all : (xs : Bytes) (ys : Bytes) → take (length (xs ++ ys)) (xs ++ ys) ≡ xs ++ ys
take_all [] [] = refl
take_all [] (y ∷ ys) = ap (◌∷◌ y) (take_all [] ys)
take_all (x ∷ xs) ys = ap (◌∷◌ x) (take_all xs ys)

take-drop : (n : ℕ) (xs : Bytes) → take n xs ++ drop n xs ≡ xs
take-drop zero xs = refl
take-drop (suc n) [] = refl
take-drop (suc n) (x ∷ xs) = rw (take-drop n xs)

length-take_le : (n : ℕ) (xs : Bytes) → n ≤ length xs → length (take n xs) ≡ n
length-take_le zero xs h = refl
length-take_le (suc n) [] h = absurd (omega arith)
length-take_le (suc n) (x ∷ xs) h = ap suc (length-take_le n xs (omega arith))

length-drop : (n : ℕ) (xs : Bytes) → n ≤ length xs → length (drop n xs) + n ≡ length xs
length-drop zero xs h = omega arith
length-drop (suc n) [] h = absurd (omega arith)
length-drop (suc n) (x ∷ xs) h = omega (arith, length-drop n xs (omega arith))

not_lt : (a b : ℕ) → ltb a b ≡ false → b ≤ a
not_lt a b h = ground arith

-- The reserved buffer holds the old contents, and room for what is asked for.
reserve_buffer-at :
    (buf : Slice) (n : ℕ)
    → IsSlice buf
    → (room : Bytes) × (reserve_buffer buf n ≡ at (contents buf) room (buf.len + n))
      × (n ≤ length room)
unfolding reserve_buffer
reserve_buffer-at buf n h = elim (Bool-cases (ltb (length buf.backing) (buf.len + n))) [
  | inl e ↦
      (replicate (buf.len + n) 0, rw e, omega (arith, length-replicate {A = ℕ} (buf.len + n) 0))
  | inr e ↦ (
    drop buf.len buf.backing,
    rw e (rw (take-drop buf.len buf.backing)),
    omega (arith, length-drop buf.len buf.backing h, not_lt _ _ e),
  )
]

abbrev finish : Option (Slice × ℕ) → Option Slice
finish r = r >>= λ (s, pos). some (record s { len = pos })

-- `escapeBytesBackslash` never writes outside of the buffer it reserves, whatever the capacity
-- of the slice it is given, and returns what the slice held followed by the escaped bytes of `v`,
-- which are at most twice as many.
pub escape_bytes_backslash-append :
    (buf : Slice) (v : Bytes)
    → IsSlice buf
    → (s : Slice) × (escape_bytes_backslash buf v ≡ some s)
      × (contents s ≡ contents buf ++ escape_text v)
      × (IsSlice s)
      × (s.len ≤ buf.len + length v * 2)
unfolding escape_bytes_backslash
escape_bytes_backslash-append buf v h =
    let (room, e, enough) = reserve_buffer-at buf (length v * 2) h in
    let pre = contents buf in
    let same = length-take_le buf.len buf.backing h in
    let (left, e', short) =
      escape_loop-at v pre room (buf.len + length v * 2) (omega arith) enough in
    (
      record { backing = (pre ++ escape_text v) ++ left; len = length (pre ++ escape_text v) },
      (λ i. finish (escape_loop (e i) (sym same i) v)) ∙ ap finish e',
      take_append (pre ++ escape_text v) left,
      omega (arith, length-append (pre ++ escape_text v) left),
      omega (arith, length-append pre (escape_text v)),
    )
