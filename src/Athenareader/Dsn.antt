-- ===== src/Athenareader/Dsn.antt =====
-- The way of athenareader's configuration to the connection: lib/configfx/module.go,
-- lib/queryfx/module.go, and `NewConfig` of go/config.go, which the driver calls.
use athenadriver.Configfx.ReadOnly.{new-is_read_only}
use athenadriver.Athenareader.{new_query}
use athenadriver.Configfx.{System, Flags, AthenaDriverConfig, goes_on, new}
use athenadriver.Base.{true, false, none, some, Bytes, codes, ◌≡◌}
use athenadriver.Config.Flags.{is_read_only}
use athenadriver.Config.Invariant.{IsSound-is_valid}
use athenadriver.Config.Text.RoundTrip.{IsReadable, new_config-stringify}
use athenadriver.Config.Text.{UrlAddress, address_of}
use athenadriver.Config.{Config}
use athenadriver.Configfx.Sound.{new-IsSound}
use athenadriver.Connector.{open_connector}
use athenadriver.Errors.{returned}
use athenadriver.Url.Escape.{AllBytes}
use athenadriver.Url.{lookup}
use athenadriver.Url

module _ (system : System) (f : Flags) where
  same_flag :
      (c d : Config)
      → ((k : Bytes) → lookup c.values k ≡ lookup d.values k)
      → is_read_only d ≡ true
      → is_read_only c ≡ true
  unfolding is_read_only Url.get
  same_flag c d h k = rw (h (codes "ReadOnly")) k

  -- The DSN that athenareader opens for a user who is no administrator gives the driver, by
  -- `NewConfig`, a configuration without an error that is read-only, for a region and a database
  -- that are texts of bytes, and a bucket, with a prefix or without one, whose address net/url
  -- writes without a mark of a query or a fragment and parses to one of the same scheme.
  pub open_connector-new_query :
      (codec : UrlAddress) (mc : AthenaDriverConfig)
      → (new system f).1 ≡ goes_on (returned mc)
      → mc.input_config.admin ≡ false
      → AllBytes mc.input_config.region
      → AllBytes mc.input_config.database
      → IsReadable codec (address_of mc.drv_config)
      → (c : Config) × (open_connector codec (new_query codec mc).0 ≡ (some c, none))
        × (is_read_only c ≡ true)
  unfolding new_query open_connector
  open_connector-new_query codec mc h a r d k =
      let sound = new-IsSound system f mc h r d in
      let (c, eq, valid, same, values) =
        new_config-stringify codec mc.drv_config k sound.is_query (IsSound-is_valid _ sound) in
      (c, eq, same_flag c mc.drv_config values (new-is_read_only system f mc h a))
