-- ===== src/Trace/Laws.antt =====
-- What go/trace.go logs.
use athenadriver.Base.{
  ℕ, true, false, List, [], ◌∷◌, Bytes, ◌≡◌, ◌≤◌, refl, arith, length, ltb, if◌then◌else◌,
}
use athenadriver.Config.Flags.RoundTrip.{flag-set_flag}
use athenadriver.Config.Flags.{set_logging}
use athenadriver.Trace.{
  DriverTracer, Level, Entry, debug, info, warn, error, dpanic, panic, fatal, unknown, log,
  by_level,
}

-- The severity of a level, which zap orders by.
abbrev pub severity : Level → ℕ
severity debug = 0
severity info = 1
severity warn = 2
severity error = 3
severity dpanic = 4
severity panic = 5
severity fatal = 6
severity (unknown n) = 7

-- The entries go to the tracer's logger, at a level that stops no process and is not above the
-- level that was asked for.
pub AllMild : DriverTracer → Level → List Entry → Type 0
AllMild t lvl [] = Unit {0}
AllMild t lvl (e ∷ es) =
    ((e.logger ≡ t.logger) × (severity e.level ≤ 3) × (severity e.level ≤ severity lvl))
    × AllMild t lvl es

module _ (t : DriverTracer) (msg : Bytes) where
  one_entry : (lvl : Level) → length (by_level t lvl msg) ≡ (if ltb (severity lvl) 7 then 1 else 0)
  one_entry debug = refl
  one_entry info = refl
  one_entry warn = refl
  one_entry error = refl
  one_entry dpanic = refl
  one_entry panic = refl
  one_entry fatal = refl
  one_entry (unknown n) = refl

  mild : (lvl : Level) → AllMild t lvl (by_level t lvl msg)
  unfolding AllMild
  mild debug = ((refl, omega arith, omega arith), tt)
  mild info = ((refl, omega arith, omega arith), tt)
  mild warn = ((refl, omega arith, omega arith), tt)
  mild error = ((refl, omega arith, omega arith), tt)
  mild dpanic = ((refl, omega arith, omega arith), tt)
  mild panic = ((refl, omega arith, omega arith), tt)
  mild fatal = ((refl, omega arith, omega arith), tt)
  mild (unknown n) = tt

-- With logging off nothing is logged. With logging on, each of the seven levels logs one entry, to
-- the tracer's logger, at a level that is neither above `ErrorLevel` nor above the level asked for.
pub log-set_logging :
    (t : DriverTracer) (lvl : Level) (msg : Bytes)
    → (log (record t { config = set_logging t.config false }) lvl msg ≡ [])
      × (length (log (record t { config = set_logging t.config true }) lvl msg)
          ≡ (if ltb (severity lvl) 7 then 1 else 0))
      × AllMild t lvl (log (record t { config = set_logging t.config true }) lvl msg)
unfolding log AllMild
log-set_logging t lvl msg =
    let off = (flag-set_flag t.config false).7 in
    let on = (flag-set_flag t.config true).7 in
    let t' : DriverTracer = record t { config = set_logging t.config true } in
    (rw off, rw on (one_entry t' msg lvl), rw on (mild t' msg lvl))
