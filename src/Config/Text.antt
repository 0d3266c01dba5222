-- ===== src/Config/Text.antt =====
-- `NewConfig`, `String`, `Stringify` and `SafeStringify` of go/config.go: a configuration as the
-- text of a URL, the DSN that goes through database/sql.
-- `UrlAddress` is the parameter for what net/url writes in front of the query and reads there:
-- the scheme, user, host and path. The rest of the URL, the query, is modelled in Url. The driver
-- sets no fragment and no opaque part.
pub mod Masking
pub mod RoundTrip
pub mod Secret
use athenadriver.Base.{
  ℕ, Bool, true, false, ◌&&◌, not, ◌==◌, List, [], ◌∷◌, ◌++◌, Option, none, some, if◌then◌else◌,
  Bytes, codes,
}
use athenadriver.Config.{Config, is_valid, is_empty}
use athenadriver.Errors.{Error, config_invalid_config, message}
use athenadriver.Strings.{cut, has_prefix}
use athenadriver.Url.Query.{encode, parse_query}

pub record Address : Type 0 where
  pub scheme : Bytes
  pub user : Bytes
  pub host : Bytes
  pub path : Bytes

pub record UrlAddress : Type 0 where
  pub print : Address → Bytes
  pub parse : Bytes → Option Address

abbrev pub address_of : Config → Address
address_of c = record { scheme = c.scheme; user = c.user; host = c.host; path = c.path }

-- `[^&]+` behind the key: a byte that is there and is no ampersand.
unfoldable pub has_value : Bytes → Bytes → Bool
has_value [] (c ∷ s) = not (c == b'&')
has_value (k ∷ key) (c ∷ s) = k == c && has_value key s
has_value key [] = false

-- `ReplaceAllString` of `key[^&]+` by the key and a star. While `skipping`, the match goes on, to
-- the next ampersand.
unfoldable pub mask_from : Bytes → Bool → Bytes → Bytes
unfolding has_value
mask_from key skipping [] = []
mask_from key true (c ∷ s) = elim (c == b'&') [
  | true ↦ c ∷ mask_from key false s
  | false ↦ mask_from key true s
]
mask_from key false (c ∷ s) = elim (has_value key (c ∷ s)) [
  | true ↦ key ++ (b'*' ∷ mask_from key true s)
  | false ↦ c ∷ mask_from key false s
]

unfoldable pub mask_key : Bytes → Bytes → Bytes
unfolding mask_from
mask_key key s = mask_from key false s

abbrev pub secret_access_key : Bytes
secret_access_key = codes "secretAccessKey="

module _ (codec : UrlAddress) where
  abbrev with_query : Option Address → Bytes → Option (Address × Bytes)
  with_query none query = none
  with_query (some a) query = some (a, query)

  abbrev read_front : Bytes × Bytes → Option (Address × Bytes)
  read_front (front, query) = with_query (codec.parse front) query

  -- `url.Parse`: what stands in front of the query, and the query.
  unfoldable pub parse_url : Bytes → Option (Address × Bytes)
  parse_url s = read_front (cut (cut s b'#').0 b'?')

  abbrev checked : Config → Option Error → Option Config × Option Error
  checked c e = if not (is_valid c) then (none, some config_invalid_config) else (some c, e)

  abbrev from_url : Option (Address × Bytes) → Option Config × Option Error
  from_url none = (none, some (message (codes "parse")))
  from_url (some (a, query)) =
      let (values, e) = parse_query query in
      checked
        (record {
          scheme = a.scheme;
          user = a.user;
          host = a.host;
          path = a.path;
          raw_query = query;
          values = values;
        })
        e

  -- `NewConfig`, which may return a configuration together with the error of its query.
  unfoldable pub new_config : Bytes → Option Config × Option Error
  unfolding parse_url
  new_config s = from_url (parse_url s)

  abbrev pub url_text : Bytes → Bytes → Bytes
  url_text front query = if is_empty query then front else front ++ (b'?' ∷ query)

  -- `String`, the DSN with the query of the last `Stringify`.
  unfoldable pub to_string : Config → Bytes
  to_string c = url_text (codec.print (address_of c)) c.raw_query

  unfoldable pub stringify : Config → Config × Bytes
  unfolding to_string
  stringify c = let c' = record c { raw_query = encode c.values } in (c', to_string c')

  unfoldable pub safe_stringify : Config → Config × Bytes
  unfolding stringify mask_key
  safe_stringify c =
      let (c', raw) = stringify c in
      (
        c',
        mask_key (codes "sessionToken=")
            (mask_key (codes "accessID=") (mask_key secret_access_key raw)),
      )
