-- ===== src/Connector/Chain.antt =====
-- go/connector.go: the default chain and its second load.
use athenadriver.Base.{true, false, ◌≡◌, ◌⊎◌, ◌↔◌, arith}
use athenadriver.Config.{Config}
use athenadriver.Connector.{load_default_chain_config, chain_options}
use athenadriver.Sdk.{Sdk, AwsConfig}
use athenadriver.Errors.{Error, Outcome, returned, failed}

module _ (sdk : Sdk) (c : Config) where
  abbrev pub first : Outcome AwsConfig
  first = sdk.load_default_config (chain_options sdk c false)

  abbrev pub second : Outcome AwsConfig
  second = sdk.load_default_config (chain_options sdk c true)

  -- The default chain returns a configuration exactly if the first load returns it, or if the first
  -- load fails and the second, which reads no shared configuration file, returns it. It fails with
  -- an error exactly if that is the error of the first load and the second load fails too.
  pub load_default_chain_config_iff :
      (cfg : AwsConfig) (e : Error)
      → ((load_default_chain_config sdk c).1 ≡ returned cfg
          ↔ (first ≡ returned cfg) ⊎ ((d : Error) × (first ≡ failed d) × (second ≡ returned cfg)))
        × ((load_default_chain_config sdk c).1 ≡ failed e
            ↔ (first ≡ failed e) × (d : Error) × (second ≡ failed d))
  unfolding load_default_chain_config
  load_default_chain_config_iff cfg e = ground arith
