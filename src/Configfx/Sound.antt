-- ===== src/Configfx/Sound.antt =====
-- The driver's configuration of lib/configfx/module.go is one that a DSN carries.
use athenadriver.Configfx.Start.{new-Is}
use athenadriver.Configfx.{
  System, Flags, AthenaDriverConfig, ReaderOutputConfig, ReaderInputConfig, goes_on, new,
  bucket_set, driver_config, assembled, merge_output, merge_input,
}
use athenadriver.Base.{
  Bool, true, false, not, Option, none, some, if◌then◌else◌, Bytes, codes, ◌≡◌, refl, arith,
}
use athenadriver.Config.Flags.{set_read_only, set_money_wise}
use athenadriver.Config.Invariant.{
  IsSound, put-IsSound, set_output_bucket-IsSound, new_default_config-IsSound,
}
use athenadriver.Config.{Config, set_db}
use athenadriver.Errors.{returned}
use athenadriver.Url.Escape.{AllBytes}

module _ (system : System) (f : Flags) where
  bucket_set-IsSound : (b : Option Bytes) (c : Config) → IsSound c → IsSound (bucket_set system b c)
  bucket_set-IsSound none c h = h
  bucket_set-IsSound (some b) c h = set_output_bucket-IsSound c b h

  money-IsSound :
      (b : Bool) (c : Config) → IsSound c → IsSound (if b then set_money_wise c true else c)
  unfolding set_money_wise
  money-IsSound true c h =
      put-IsSound c (codes "MoneyWise") (codes "true") (omega arith) (omega arith) refl h
  money-IsSound false c h = h

  guard-IsSound :
      (b : Bool) (c : Config) → IsSound c → IsSound (if not b then set_read_only c true else c)
  unfolding set_read_only
  guard-IsSound true c h = h
  guard-IsSound false c h =
      put-IsSound c (codes "ReadOnly") (codes "true") (omega arith) (omega arith) refl h

  driver_config-IsSound :
      (o : ReaderOutputConfig) (i : ReaderInputConfig) (c : Config)
      → AllBytes i.database
      → IsSound c
      → IsSound (driver_config system f o i c)
  unfolding driver_config set_db
  driver_config-IsSound o i c b h = guard-IsSound i.admin _ (
      put-IsSound _ (codes "db") i.database (omega arith) b refl
        (money-IsSound o.moneywise _ (bucket_set-IsSound f.bucket c h)))

  -- The texts are of bytes only if the configuration is sound.
  CarriesBytes : AthenaDriverConfig → Type 0
  CarriesBytes mc =
      AllBytes mc.input_config.region → AllBytes mc.input_config.database → IsSound mc.drv_config

  pub new-IsSound :
      (mc : AthenaDriverConfig)
      → (new system f).1 ≡ goes_on (returned mc)
      → AllBytes mc.input_config.region
      → AllBytes mc.input_config.database
      → IsSound mc.drv_config
  unfolding CarriesBytes assembled
  new-IsSound = new-Is system f CarriesBytes λ o i c h r d.
      driver_config-IsSound (merge_output system f o) (merge_input system f i) c d (
        new_default_config-IsSound i.bucket i.region (codes "dummy") (codes "dummy") c r
          (omega arith) (omega arith) h)
