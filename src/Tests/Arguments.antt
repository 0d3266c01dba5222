-- ===== src/Tests/Arguments.antt =====
-- The theorems on the arguments of a statement at concrete inputs: texts, times and buffers.
use athenadriver.Base.{
  ◌-◌, [], ◌∷◌, ◌++◌, none, some, Bytes, codes, length, ◌≡◌, ◌≢◌, refl, arith, ◌⊎◌, ◌≤◌, ◌+◌, ◌*◌,
}
use athenadriver.Errors.{returned, failed, panics, invalid_query}
use athenadriver.Escape.Buffer.{escaped, IsSlice, escape_text, escape_bytes_backslash-append}
use athenadriver.Escape.Literal.{read_literal, literal_body, read_literal-format_string}
use athenadriver.Escape.{Slice, contents, escape_bytes_backslash, format_string}
use athenadriver.GoTime.{seconds_before, absolute_year, Time, add_nanos, year}
use athenadriver.Params.Reference.{splice}
use athenadriver.Params.Splice.{Gives, Fails, interpolate_params-splice, interpolate_params-Fails}
use athenadriver.Params.Times.{IsTabulated, append_time-execution_time, append_time_panics}
use athenadriver.Params.{append_time, execution_time, interpolate_params}
use athenadriver.Strings.{count_byte}
use athenadriver.Values.{null, text}
use athenadriver.Tests.{early, no_digits}

two_marks-splice :
    splice no_digits (codes "a=? b=?") (text (codes "x'y") ∷ null ∷ [])
    ≡ some (codes "a='x''y' b=NULL")
unfolding splice escaped
two_marks-splice = refl

interpolate_params-splice_example :
    Gives no_digits
      (interpolate_params no_digits (codes "a=? b=?") (text (codes "x'y") ∷ null ∷ []))
      (codes "a='x''y' b=NULL")
interpolate_params-splice_example =
    interpolate_params-splice no_digits (codes "a=? b=?") (text (codes "x'y") ∷ null ∷ [])
      (tt, (tt, tt)) two_marks-splice

no_argument-splice : splice no_digits (codes "a=? b=?") (null ∷ []) ≡ none
unfolding splice
no_argument-splice = refl

interpolate_params-Fails_example :
    ((count_byte (codes "a=? b=?") b'?' ≢ length (null ∷ []))
      × (interpolate_params no_digits (codes "a=? b=?") (null ∷ []) ≡ failed invalid_query))
    ⊎ ((count_byte (codes "a=? b=?") b'?' ≡ length (null ∷ []))
        × Fails no_digits (interpolate_params no_digits (codes "a=? b=?") (null ∷ [])))
interpolate_params-Fails_example =
    interpolate_params-Fails no_digits (codes "a=? b=?") (null ∷ []) (tt, tt) no_argument-splice

read_literal-format_string_example :
    (lit : Bytes) × (format_string (codes "x' or 1=1 --") ≡ some lit)
    × (read_literal (lit ++ codes " and b")
        ≡ some (literal_body (codes "x' or 1=1 --"), codes " and b"))
read_literal-format_string_example =
    read_literal-format_string (codes "x' or 1=1 --") (codes " and b") (omega arith)

abbrev roomy : Slice
roomy = record { backing = codes "ab--"; len = 2 }

escape_bytes_backslash-append_example :
    (s : Slice) × (escape_bytes_backslash roomy (codes "it's") ≡ some s)
    × (contents s ≡ contents roomy ++ escape_text (codes "it's"))
    × (IsSlice s)
    × (s.len ≤ roomy.len + length (codes "it's") * 2)
escape_bytes_backslash-append_example =
    escape_bytes_backslash-append roomy (codes "it's") (omega arith)

-- An instant of the year -1.
abbrev ancient : Time
ancient = record { seconds = seconds_before - 40_000_000; nanos = 0 }

early-year : IsTabulated (year (add_nanos early 500))
unfolding year absolute_year
early-year = omega arith

append_time-execution_time_example :
    append_time (codes "t=") early ≡ returned (codes "t=" ++ execution_time early)
append_time-execution_time_example = append_time-execution_time (codes "t=") early early-year

ancient-year : ¬ IsTabulated (year (add_nanos ancient 500))
unfolding year absolute_year
ancient-year h = h

append_time_panics_example : append_time (codes "t=") ancient ≡ panics
append_time_panics_example = append_time_panics (codes "t=") ancient ancient-year
