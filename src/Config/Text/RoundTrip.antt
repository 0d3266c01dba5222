-- ===== src/Config/Text/RoundTrip.antt =====
-- The configuration that is read from a DSN is the one that was written.
use athenadriver.Base.{true, [], ◌∷◌, Option, none, some, Bytes, codes, ◌≡◌, refl, ap, ◌∙◌, arith}
use athenadriver.Config.Text.{
  Address, UrlAddress, address_of, new_config, stringify, parse_url, url_text, to_string, from_url,
  checked, read_front, with_query,
}
use athenadriver.Config.{Config, is_valid}
use athenadriver.Errors.{Error}
use athenadriver.Strings.{cut}
use athenadriver.Strings.Split.{Lacks, Lacks-append, cut-append, cut-Lacks}
use athenadriver.Url.Query.{encode, parse_query}
use athenadriver.Url.RoundTrip.{IsQuery, encode-Lacks, lookup-parse_query-encode}
use athenadriver.Url.{Values, lookup}
use athenadriver.Url

module _ (codec : UrlAddress) where
  -- An address whose text net/url writes without a mark of the query or the fragment, and parses
  -- to an address of the same scheme. That address may be another one: a path gets a slash in
  -- front of it.
  pub record IsReadable (a : Address) : Type 0 where
    pub lacks_query : Lacks b'?' (codec.print a)
    pub lacks_fragment : Lacks b'#' (codec.print a)
    pub address : Address
    pub parses : codec.parse (codec.print a) ≡ some address
    pub same_scheme : address.scheme ≡ a.scheme

  url_text-Lacks :
      (front query : Bytes)
      → Lacks b'#' front
      → Lacks b'#' query
      → Lacks b'#' (url_text codec front query)
  url_text-Lacks front [] h k = h
  url_text-Lacks front (c ∷ query) h k =
      Lacks-append b'#' front (b'?' ∷ c ∷ query) h (omega arith, k)

  cut-url_text :
      (front query : Bytes)
      → Lacks b'?' front
      → cut (url_text codec front query) b'?' ≡ (front, query)
  cut-url_text front [] h = cut-Lacks front b'?' h
  cut-url_text front (c ∷ query) h = cut-append front (c ∷ query) b'?' h

  parse_url-url_text :
      (a : Address) (query : Bytes) (h : IsReadable a)
      → Lacks b'#' query
      → parse_url codec (url_text codec (codec.print a) query) ≡ some (h.address, query)
  unfolding parse_url
  parse_url-url_text a query h l =
      ap (λ s. read_front codec (cut s.0 b'?'))
        (cut-Lacks (url_text codec (codec.print a) query) b'#'
          (url_text-Lacks (codec.print a) query h.lacks_fragment l))
      ∙ ap (read_front codec) (cut-url_text (codec.print a) query h.lacks_query)
      ∙ ap (λ o. with_query codec o query) h.parses

  -- The configuration that is read from the text of another, at the address that is read.
  read_back : Address → Config → Config
  read_back a c = record c {
    scheme = a.scheme;
    user = a.user;
    host = a.host;
    path = a.path;
    raw_query = encode c.values;
    values = (parse_query (encode c.values)).0;
  }

  read_back-is_valid :
      (a : Address) (c : Config)
      → a.scheme ≡ c.scheme
      → IsQuery c.values
      → is_valid (read_back a c) ≡ is_valid c
  unfolding is_valid read_back Url.get
  read_back-is_valid a c e h =
      rw (e, (lookup-parse_query-encode c.values (codes "region") h).1) refl

  checked_valid :
      (c : Config) (e : Option Error) → is_valid c ≡ true → checked codec c e ≡ (some c, e)
  checked_valid c e h = rw h

  new_config-eq :
      (c : Config) (a : IsReadable (address_of c))
      → IsQuery c.values
      → is_valid c ≡ true
      → new_config codec (stringify codec c).1 ≡ (some (read_back a.address c), none)
  unfolding new_config stringify to_string read_back
  new_config-eq c a h v =
      ap (from_url codec)
        (parse_url-url_text (address_of c) (encode c.values) a (encode-Lacks c.values))
      ∙ checked_valid (read_back a.address c) (parse_query (encode c.values)).1
          (read_back-is_valid a.address c a.same_scheme h ∙ v)
      ∙ ap (λ e. (some (read_back a.address c), e)) (lookup-parse_query-encode c.values [] h).0

  -- The DSN that `Stringify` writes of a valid configuration, whose address net/url writes without a
  -- mark of a query or a fragment and parses to one of the same scheme, is read by `NewConfig`
  -- without an error, as a configuration that is valid too, that has the address net/url parses,
  -- and that has the same list of values under every key.
  pub new_config-stringify :
      (c : Config) (a : IsReadable (address_of c))
      → IsQuery c.values
      → is_valid c ≡ true
      → (c' : Config) × (new_config codec (stringify codec c).1 ≡ (some c', none))
        × (is_valid c' ≡ true)
        × (address_of c' ≡ a.address)
        × ((k : Bytes) → lookup c'.values k ≡ lookup c.values k)
  unfolding read_back
  new_config-stringify c a h v = (
    read_back a.address c,
    new_config-eq c a h v,
    read_back-is_valid a.address c a.same_scheme h ∙ v,
    refl,
    λ k. (lookup-parse_query-encode c.values k h).1,
  )
