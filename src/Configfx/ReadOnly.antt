-- ===== src/Configfx/ReadOnly.antt =====
-- The read-only mode of athenareader: lib/configfx/module.go.
use athenadriver.Configfx.Start.{new-Is}
use athenadriver.Configfx.{
  System, Flags, AthenaDriverConfig, ReaderOutputConfig, ReaderInputConfig, goes_on, new,
  driver_config, assembled, merge_output, merge_input,
}
use athenadriver.Base.{true, false, ◌≡◌}
use athenadriver.Config.Flags.RoundTrip.{flag-set_flag}
use athenadriver.Config.Flags.{is_read_only}
use athenadriver.Config.{Config}
use athenadriver.Errors.{returned}

-- A configuration that is not for an administrator is read-only.
IsGuarded : AthenaDriverConfig → Type 0
IsGuarded mc = mc.input_config.admin ≡ false → is_read_only mc.drv_config ≡ true

module _ (system : System) (f : Flags) where
  driver_config-is_read_only :
      (o : ReaderOutputConfig) (i : ReaderInputConfig) (c : Config)
      → i.admin ≡ false
      → is_read_only (driver_config system f o i c) ≡ true
  unfolding driver_config
  driver_config-is_read_only o i c h = rw h (flag-set_flag _ true).5

  -- Whatever the file and the flags hold, a configuration of athenareader that is not for an
  -- administrator makes the driver read-only.
  pub new-is_read_only :
      (mc : AthenaDriverConfig)
      → (new system f).1 ≡ goes_on (returned mc)
      → mc.input_config.admin ≡ false
      → is_read_only mc.drv_config ≡ true
  unfolding assembled IsGuarded
  new-is_read_only =
      new-Is system f IsGuarded
        (λ o i c h. driver_config-is_read_only (merge_output system f o) (merge_input system f i) c)
