-- ===== src/Athenareader/Loop.antt =====
-- The loop of athenareader/main.go over the queries.
use athenadriver.Athenareader.{
  Printed, error_of, print_rows, is_trimmed, query_athena, one_query, after_query,
}
use athenadriver.Configfx.{ReaderOutputConfig}
use athenadriver.Base.{
  true, false, List, [], ◌∷◌, map, if◌then◌else◌, Bytes, ◌≡◌, ◌⊎◌, inl, inr, refl, ap, Bool-cases,
}
use athenadriver.Csv.{SqlRows}
use athenadriver.Errors.{Error}
use athenadriver.Strings.{trim_by}

abbrev pub Answer : Type 0
Answer = Error ⊎ SqlRows

-- The answers up to the first error.
unfoldable pub up_to_error : List Answer → List Answer
up_to_error [] = []
up_to_error (inl e ∷ rest) = inl e ∷ []
up_to_error (inr rows ∷ rest) = inr rows ∷ up_to_error rest

module _ {S : Type 0} (query : Bytes → S → Answer × S) (o : ReaderOutputConfig) where
  abbrev pub printed : Answer → Printed
  printed (inl e) = error_of e
  printed (inr rows) = print_rows query o rows

  abbrev answer_one : Bytes → S → (S → List Answer) → List Answer
  answer_one [] s rest = rest s
  answer_one (c ∷ q) s rest = (query (c ∷ q) s).0 ∷ rest (query (c ∷ q) s).1

  -- The answers of the database to all the queries that are not blank, in order.
  unfoldable pub answers : List Bytes → S → List Answer
  answers [] s = []
  answers (q ∷ qs) s = answer_one (trim_by is_trimmed q) s (answers qs)

  abbrev Prints : (List Answer → List Answer) → List Bytes → Type 0
  Prints f qs = (s : S) → (query_athena query o qs s).0 ≡ map printed (f (answers qs s))

  fast_answer :
      (h : o.fastfail ≡ true) (a : Answer) (s : S) (qs : List Bytes)
      → Prints up_to_error qs
      → (after_query query o (a, s) (query_athena query o qs)).0
        ≡ map printed (up_to_error (a ∷ answers qs s))
  unfolding up_to_error
  fast_answer h (inl e) s qs k = rw h
  fast_answer h (inr rows) s qs k = ap (λ ps. print_rows query o rows ∷ ps) (k s)

  slow_answer :
      (h : o.fastfail ≡ false) (a : Answer) (s : S) (qs : List Bytes)
      → Prints (λ rs. rs) qs
      → (after_query query o (a, s) (query_athena query o qs)).0 ≡ map printed (a ∷ answers qs s)
  slow_answer h (inl e) s qs k = simp h (ap (λ ps. error_of e ∷ ps) (k s))
  slow_answer h (inr rows) s qs k = ap (λ ps. print_rows query o rows ∷ ps) (k s)

  fast_query :
      (h : o.fastfail ≡ true) (q : Bytes) (s : S) (qs : List Bytes)
      → Prints up_to_error qs
      → (one_query query o q s (query_athena query o qs)).0
        ≡ map printed (up_to_error (answer_one q s (answers qs)))
  fast_query h [] s qs k = k s
  fast_query h (c ∷ q) s qs k = fast_answer h (query (c ∷ q) s).0 (query (c ∷ q) s).1 qs k

  slow_query :
      (h : o.fastfail ≡ false) (q : Bytes) (s : S) (qs : List Bytes)
      → Prints (λ rs. rs) qs
      → (one_query query o q s (query_athena query o qs)).0
        ≡ map printed (answer_one q s (answers qs))
  slow_query h [] s qs k = k s
  slow_query h (c ∷ q) s qs k = slow_answer h (query (c ∷ q) s).0 (query (c ∷ q) s).1 qs k

  fast : o.fastfail ≡ true → (qs : List Bytes) → Prints up_to_error qs
  unfolding query_athena answers up_to_error
  fast h [] s = refl
  fast h (q ∷ qs) s = fast_query h (trim_by is_trimmed q) s qs (fast h qs)

  slow : o.fastfail ≡ false → (qs : List Bytes) → Prints (λ rs. rs) qs
  unfolding query_athena answers
  slow h [] s = refl
  slow h (q ∷ qs) s = slow_query h (trim_by is_trimmed q) s qs (slow h qs)

  -- The loop prints the answers of the database to the queries that are not blank, each once and
  -- in the order of the queries: all of them, or, under `fastfail`, those up to the first error,
  -- which is printed too.
  pub query_athena-answers :
      (qs : List Bytes) (s : S)
      → (query_athena query o qs s).0
        ≡ map printed (if o.fastfail then up_to_error (answers qs s) else answers qs s)
  query_athena-answers qs s = elim (Bool-cases o.fastfail) [
    | inl e ↦ simp e (fast e qs s)
    | inr e ↦ simp e (slow e qs s)
  ]
