-- ===== src/Configfx/Start.antt =====
-- What holds of every configuration that `new` of lib/configfx/module.go gives.
use mathlib.Core.Path.{subst}
use athenadriver.Configfx.{
  System, Flags, AthenaDriverConfig, ReaderOutputConfig, ReaderInputConfig, Run, exits, goes_on,
  new, populate, assembled, assemble, default_config, with_file, locate_config,
}
use athenadriver.Base.{Option, none, some, Bytes, ◌≡◌, refl, Bool-cases, inl, inr}
use athenadriver.Config.{Config}
use athenadriver.Errors.{Error, Outcome, returned, failed, panics, unfinished}

OutcomeIs : (AthenaDriverConfig → Type 0) → Outcome AthenaDriverConfig → Type 0
OutcomeIs P (returned mc) = P mc
OutcomeIs P (failed e) = Unit {0}
OutcomeIs P panics = Unit {0}
OutcomeIs P unfinished = Unit {0}

RunIs : (AthenaDriverConfig → Type 0) → Run AthenaDriverConfig → Type 0
RunIs P (exits n) = Unit {0}
RunIs P (goes_on o) = OutcomeIs P o

module _ (system : System) (f : Flags) (P : AthenaDriverConfig → Type 0)
    (holds : (o : ReaderOutputConfig) (i : ReaderInputConfig) (c : Config)
      → default_config system i ≡ (c, none)
      → P (assembled system f o i c)) where
  assemble-Is :
      (o : ReaderOutputConfig) (i : ReaderInputConfig) (p : Config × Option Error)
      → default_config system i ≡ p
      → OutcomeIs P (assemble system f o i p)
  unfolding OutcomeIs
  assemble-Is o i (c, some e) h = tt
  assemble-Is o i (c, none) h = holds o i c h

  populate-Is :
      (o : Outcome (ReaderOutputConfig × ReaderInputConfig)) → OutcomeIs P (populate system f o)
  unfolding populate OutcomeIs
  populate-Is (returned (o, i)) = assemble-Is o i (default_config system i) refl
  populate-Is (failed e) = tt
  populate-Is panics = tt
  populate-Is unfinished = tt

  with_file-Is : (path : Option Bytes) → RunIs P (with_file system f path)
  unfolding RunIs
  with_file-Is none = tt
  with_file-Is (some path) = populate-Is (system.new_yaml path)

  new-RunIs : RunIs P (new system f).1
  unfolding new RunIs
  new-RunIs = elim (Bool-cases f.version) [
    | inl e ↦ simp e tt
    | inr e ↦ simp e (with_file-Is (locate_config system).1)
  ]

  -- A property of every configuration that is assembled is one of the configuration that `new` gives.
  pub new-Is : (mc : AthenaDriverConfig) → (new system f).1 ≡ goes_on (returned mc) → P mc
  unfolding RunIs OutcomeIs
  new-Is mc h = subst (λ r. RunIs P r) h new-RunIs
