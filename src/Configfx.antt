-- ===== src/Configfx.antt =====
-- lib/configfx/module.go: the configuration of athenareader, from its file and its flags.
-- `System` is the parameter for the file system, the network, the environment and the current
-- user: what a path is, the text of a file, the reading of a YAML file into the two sections of the
-- configuration, the outcome of a download, and `filepath.Join`.
pub mod ReadOnly
pub mod Sound
pub mod Start
use athenadriver.Base.{
  ℕ, Bool, true, false, not, ◌&&◌, ◌||◌, ◌==◌, List, [], ◌∷◌, ◌++◌, Option, none, some,
  if◌then◌else◌, Bytes, codes, ◌⊎◌, inl, inr,
}
use athenadriver.Config.Flags.{set_money_wise, set_read_only}
use athenadriver.Config.Text.{UrlAddress, stringify}
use athenadriver.Config.{Config, is_empty, set_db, set_output_bucket, new_default_config}
use athenadriver.Csv.{SqlRows}
use athenadriver.Decimal.{ℤ}
use athenadriver.Errors.{Error, Outcome, returned, failed, panics, unfinished}
use athenadriver.Strings.{trim_by}
use athenadriver.Table.{Table, pretty_print_sql_rows, pretty_print_sql_cols_rows}

pub record ReaderOutputConfig : Type 0 where
  pub render : Bytes
  pub page : ℤ
  pub style : Bytes
  pub rowonly : Bool
  pub moneywise : Bool
  pub fastfail : Bool

pub record ReaderInputConfig : Type 0 where
  pub bucket : Bytes
  pub region : Bytes
  pub database : Bytes
  pub admin : Bool

pub record AthenaDriverConfig : Type 0 where
  pub output_config : ReaderOutputConfig
  pub input_config : ReaderInputConfig
  pub query_string : List Bytes
  pub drv_config : Config

-- The values of the flags that were passed; `-v` is always a value.
pub record Flags : Type 0 where
  pub bucket : Option Bytes
  pub database : Option Bytes
  pub query : Option Bytes
  pub row_only : Option Bool
  pub money_wise : Option Bool
  pub version : Bool
  pub admin : Option Bool
  pub style : Option Bytes
  pub format : Option Bytes
  pub fast_fail : Option Bool

-- What `downloadFile` leaves: nothing, a file that was created in vain, or the file.
pub data Download : Type 0 where
  not_created left_empty complete : Download

pub record System : Type 0 where
  pub getenv : Bytes → Bytes
  pub getwd : Bytes
  pub home_of_user : Option Bytes
  pub exists : Bytes → Bool
  pub read_file : Bytes → Option Bytes
  pub new_yaml : Bytes → Outcome (ReaderOutputConfig × ReaderInputConfig)
  pub download_file : Bytes → Bytes → Download
  pub join : Bytes → Bytes → Bytes

-- The process ends with a code, or goes on.
pub data Run (A : Type 0) : Type 0 where
  exits : ℕ → Run A
  goes_on : Outcome A → Run A

-- What `new` writes to the file system.
pub data Written : Type 0 where
  copied downloaded : Bytes → Bytes → Written
  emptied : Bytes → Written

abbrev or_given {ℓ} : {A : Type ℓ} → Option A → A → A
or_given none a = a
or_given (some b) a = b

abbrev config_name : Bytes
config_name = codes "athenareader.config"

abbrev remote_config : Bytes
remote_config =
    codes
      "https://raw.githubusercontent.com/uber/athenadriver/master/athenareader/athenareader.config"

-- `strings.Split(s, "\n\n")`
unfoldable pub split_paragraphs : Bytes → List Bytes
split_paragraphs [] = [] ∷ []
split_paragraphs (c ∷ []) = (c ∷ []) ∷ []
split_paragraphs (c ∷ d ∷ s) = elim (c == b'\n' && d == b'\n') [
  | true ↦ [] ∷ split_paragraphs s
  | false ↦ elim (split_paragraphs (d ∷ s)) [ [] ↦ (c ∷ []) ∷ [] | p ∷ ps ↦ (c ∷ p) ∷ ps ]
]

module _ (system : System) where
  unfoldable pub home_dir : Bytes
  home_dir =
      let h = system.getenv (codes "HOME") in
      if not (is_empty h) then h else system.getenv (codes "USERPROFILE")

  abbrev home_config : Bytes
  home_config = home_dir ++ (b'/' ∷ config_name)

  abbrev expand_home : Option Bytes → Bytes → Bytes
  expand_home none path = codes "/tmp/"
  expand_home (some home) path = system.join home path

  unfoldable pub expand : Bytes → Bytes
  expand [] = []
  expand (c ∷ path) = if not (c == b'~') then c ∷ path else expand_home system.home_of_user path

  abbrev repository_config : Bytes → Bytes
  repository_config go_path =
      go_path ++ codes "/src/github.com/uber/athenadriver/athenareader/athenareader.config"

  abbrev after_download : Download → List Written × Option Bytes
  after_download not_created = ([], none)
  after_download left_empty = (emptied home_config ∷ [], none)
  after_download complete = (downloaded remote_config home_config ∷ [], some home_config)

  -- The file from the repository, or from the network.
  abbrev install : Bytes → List Written × Option Bytes
  install path =
      if system.exists path
      then (copied path home_config ∷ [], some path)
      else after_download (system.download_file home_config remote_config)

  abbrev from_go_path : Bytes → List Written × Option Bytes
  from_go_path [] =
      let go_path = home_dir ++ codes "/go" in
      if not (system.exists go_path) then ([], none) else install (repository_config go_path)
  from_go_path (c ∷ s) = install (repository_config (c ∷ s))

  -- The file that is read, none if the process exits; a part of `new`.
  unfoldable pub locate_config : List Written × Option Bytes
  unfolding home_dir
  locate_config =
      if system.exists home_config
      then ([], some home_config)
      else if system.exists config_name
      then ([], some config_name)
      else from_go_path (system.getenv (codes "GOPATH"))

  -- A file that cannot be read leaves no query.
  abbrev paragraphs : Option Bytes → List Bytes
  paragraphs none = []
  paragraphs (some b) = split_paragraphs b

  -- The queries of the flag `-q`: the paragraphs of a file, or the query itself.
  unfoldable pub read_queries : Bytes → List Bytes
  unfolding expand split_paragraphs
  read_queries query =
      let path = expand query in
      if system.exists path then paragraphs (system.read_file path) else query ∷ []

  -- The configuration with the flags that were passed.
  abbrev merge_output : Flags → ReaderOutputConfig → ReaderOutputConfig
  merge_output f o = record o {
    render = or_given f.format o.render;
    style = or_given f.style o.style;
    rowonly = or_given f.row_only o.rowonly;
    moneywise = or_given f.money_wise o.moneywise;
    fastfail = or_given f.fast_fail true;
  }

  abbrev merge_input : Flags → ReaderInputConfig → ReaderInputConfig
  merge_input f i = record i {
    bucket = or_given f.bucket i.bucket;
    database = or_given f.database i.database;
    admin = or_given f.admin i.admin;
  }

  -- An error of `SetOutputBucket` is dropped.
  abbrev bucket_set : Option Bytes → Config → Config
  bucket_set none c = c
  bucket_set (some b) c = (set_output_bucket c b).0

  -- The driver's configuration, from the merged sections.
  unfoldable pub driver_config : Flags → ReaderOutputConfig → ReaderInputConfig → Config → Config
  driver_config f o i c =
      let d = bucket_set f.bucket c in
      let m = if o.moneywise then set_money_wise d true else d in
      let b = set_db m i.database in if not i.admin then set_read_only b true else b

  unfoldable pub assembled :
      Flags → ReaderOutputConfig → ReaderInputConfig → Config → AthenaDriverConfig
  unfolding driver_config read_queries
  assembled f o i c = record {
    output_config = merge_output f o;
    input_config = merge_input f i;
    query_string = read_queries (or_given f.query (codes "select 1"));
    drv_config = driver_config f (merge_output f o) (merge_input f i) c;
  }

  abbrev assemble :
      Flags
      → ReaderOutputConfig
      → ReaderInputConfig
      → Config × Option Error
      → Outcome AthenaDriverConfig
  assemble f o i (c, some e) = failed e
  assemble f o i (c, none) = returned (assembled f o i c)

  abbrev default_config : ReaderInputConfig → Config × Option Error
  default_config i = new_default_config i.bucket i.region (codes "dummy") (codes "dummy")

  -- The keys are those of examples/constants.
  unfoldable pub populate :
      Flags → Outcome (ReaderOutputConfig × ReaderInputConfig) → Outcome AthenaDriverConfig
  unfolding assembled
  populate f (returned (o, i)) = assemble f o i (default_config i)
  populate f (failed e) = failed e
  populate f panics = panics
  populate f unfinished = unfinished

  abbrev with_file : Flags → Option Bytes → Run AthenaDriverConfig
  with_file f none = exits 1
  with_file f (some path) = goes_on (populate f (system.new_yaml path))

  -- `new` of lib/configfx
  unfoldable pub new : Flags → List Written × Run AthenaDriverConfig
  unfolding locate_config populate
  new f =
      if f.version
      then ([], exits 0)
      else let (written, path) = locate_config in (written, with_file f path)
