-- ===== src/Config/Text/Secret.antt =====
-- What `SafeStringify` of go/config.go says about the secret key.
use mathlib.Core.List.{append_assoc}
use athenadriver.Base.{ℕ, false, [], ◌∷◌, ◌++◌, Bytes, codes, ◌≡◌, ◌≢◌, refl, ap, ◌∙◌, sym, arith}
use athenadriver.Config.Text.Masking.{IsValue, with_value, mask_from-with_value}
use athenadriver.Config.Text.{
  UrlAddress, address_of, url_text, mask_key, safe_stringify, stringify, to_string,
  secret_access_key,
}
use athenadriver.Config.{Config, put}
use athenadriver.Strings.Split.{Lacks}
use athenadriver.Url.Escape.{query_escape, escape_byte}
use athenadriver.Url.Query.{pair_text}
use athenadriver.Url.Position.{encode-put}
use athenadriver.Url.RoundTrip.{query_escape-Lacks, ampersand}

query_escape-ne-nil : (s : Bytes) → s ≢ [] → query_escape s ≢ []
unfolding query_escape escape_byte
query_escape-ne-nil [] h = absurd (h refl)
query_escape-ne-nil (c ∷ s) h = ground arith

escaped-IsValue : (v : Bytes) → v ≢ [] → IsValue (query_escape v)
escaped-IsValue v h = record {
  not_empty = query_escape-ne-nil v h;
  lacks = query_escape-Lacks ampersand v;
}

abbrev key_tail : Bytes
key_tail = codes "ecretAccessKey="

secret_pair :
    (v : Bytes) → pair_text (codes "secretAccessKey", v) ≡ b's' ∷ (key_tail ++ query_escape v)
secret_pair v = unfold query_escape escape_byte in refl

secret-Lacks : Lacks b'&' (b's' ∷ key_tail)
secret-Lacks = omega arith

-- A text in front of the value of the secret key, and one behind it.
abbrev with_secret : Bytes → Bytes → Bytes → Bytes
with_secret pre post v = with_value b's' key_tail secret-Lacks pre (query_escape v) post

module _ (codec : UrlAddress) where
  url_text-append :
      (front pre : Bytes) (c : ℕ) (s : Bytes)
      → url_text codec front (pre ++ c ∷ s) ≡ (front ++ (b'?' ∷ pre)) ++ c ∷ s
  url_text-append front [] c s = sym (append_assoc front (b'?' ∷ []) (c ∷ s))
  url_text-append front (d ∷ pre) c s = sym (append_assoc front (b'?' ∷ d ∷ pre) (c ∷ s))

  abbrev secret_query : Bytes → Bytes → Bytes → Bytes
  secret_query pre post v = pre ++ (pair_text (codes "secretAccessKey", v) ++ post)

  url_text-secret :
      (front pre post v : Bytes)
      → url_text codec front (secret_query pre post v) ≡ with_secret (front ++ (b'?' ∷ pre)) post v
  url_text-secret front pre post v =
      ap (λ p. url_text codec front (pre ++ (p ++ post))) (secret_pair v)
      ∙ url_text-append front pre b's' ((key_tail ++ query_escape v) ++ post)
      ∙ ap (λ s. (front ++ (b'?' ∷ pre)) ++ b's' ∷ s) (append_assoc key_tail (query_escape v) post)

  stringify-secret :
      (c : Config)
      → (pre : Bytes) × (post : Bytes) × ((v : Bytes)
          → (stringify codec (put c (codes "secretAccessKey") v)).1 ≡ with_secret pre post v)
  unfolding stringify to_string
  stringify-secret c =
      let (pre, post, eq) = encode-put c.values (codes "secretAccessKey") in
      let front = codec.print (address_of c) in
      (
        front ++ (b'?' ∷ pre),
        post,
        λ v. ap (url_text codec front) (eq v) ∙ url_text-secret front pre post v,
      )

  -- The text that `SafeStringify` gives does not depend on the secret access key: for any two
  -- that are not empty, it is the same.
  pub safe_stringify-put :
      (c : Config) (v w : Bytes)
      → v ≢ []
      → w ≢ []
      → (safe_stringify codec (put c (codes "secretAccessKey") v)).1
        ≡ (safe_stringify codec (put c (codes "secretAccessKey") w)).1
  unfolding safe_stringify mask_key
  safe_stringify-put c v w h l =
      let (pre, post, eq) = stringify-secret c in
      ap (λ s. mask_key (codes "sessionToken=") (mask_key (codes "accessID=") s))
        (ap (mask_key secret_access_key) (eq v)
          ∙ mask_from-with_value b's' key_tail secret-Lacks false pre (query_escape v)
              (query_escape w) post (escaped-IsValue v h) (escaped-IsValue w l)
          ∙ ap (mask_key secret_access_key) (sym (eq w)))
