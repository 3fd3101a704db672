-- ===== src/Provision/Deletion/Stages.antt =====
-- The states of a site's resources that go with each state of its record
-- (internal/provision/delete_site.go), and the rules of single steps.
use mathlib.Core.Path.{subst}
use wpx.Prelude.{
  Bool, true, false, ◌≡◌, ◌≢◌, refl, sym, ◌⊎◌, Option, none, some, List, [], ◌∷◌, if◌then◌else◌,
}
use wpx.Text.{Text, ◌=ᵗ◌}
use wpx.Text.Paths.{is_within}
use wpx.Model.Site.{Site}
use wpx.Provision.Attempt.{Answer, Holds, attempt-Holds, inspects-Holds, give_back}
use wpx.Provision.Deletion.Files.{DeletionFile}
use wpx.Provision.Deletion.Names.{
  Identity, Record, Setup, Resources, Verdict, deleted, failed, P, traffic, python_socket,
  python_service, node_service, listener, processes, database, database_user, step, reads, site_dir,
  http_link, tls_link, pool, socket_path, node_unit, secret_path, cron_prefix, ftp_home,
}
use wpx.Provision.Deletion.Cron.{names_of}
use wpx.Provision.Deletion.Checks.{is_python}
use wpx.Provision.Deletion.Listing.{fixed_files}
use wpx.Provision.Deletion.Quiet.{
  Absent, Off, Denied, Spared, SourcesCover, NodeKnown, is_private_path,
}

module _ (setup : Setup) (site : Site) where
  -- The configured roots keep apart what is removed before the processes have stopped from what
  -- cannot be made again, and the Node unit from what is removed before it.
  pub record Apart : Type 0 where
    pub http_unit : (http_link setup site =ᵗ node_unit setup site) ≡ false
    pub tls_unit : (tls_link setup site =ᵗ node_unit setup site) ≡ false
    pub pool_unit : (v : Text) → (pool setup site v =ᵗ node_unit setup site) ≡ false
    pub http : is_private_path setup site (http_link setup site) ≡ false
    pub tls : is_private_path setup site (tls_link setup site) ≡ false
    pub pool : (v : Text) → is_private_path setup site (pool setup site v) ≡ false
    pub unit : is_private_path setup site (node_unit setup site) ≡ false
    pub secret : (secret_path setup site =ᵗ site_dir setup site) ≡ false

  abbrev pub PoolsAbsent : List Text → Resources → Type 0
  PoolsAbsent [] w = Unit {0}
  PoolsAbsent (v ∷ vs) w = Absent (pool setup site v) w × PoolsAbsent vs w

  -- Nobody can connect to the listener of the pools, if there were any.
  abbrev pub Unheard : List Text → Resources → Type 0
  Unheard [] w = Unit {0}
  Unheard (v ∷ vs) w = Absent (socket_path setup site) w ⊎ Off listener w

  abbrev pub FilesAbsent : List DeletionFile → Resources → Type 0
  FilesAbsent [] w = Unit {0}
  FilesAbsent (file ∷ files) w = Absent file.path w × FilesAbsent files w

  pub record NoTraffic (w : Resources) : Type 0 where
    pub http : Absent (http_link setup site) w
    pub tls : Absent (tls_link setup site) w
    pub traffic : Off traffic w

  -- Traffic, runtimes, scheduled commands and FTP users of the site are gone.
  pub record Stopped (versions : List Text) (w : Resources) : Type 0 where
    pub no_traffic : NoTraffic w
    pub python : is_python site.kind ≡ true → Off python_socket w × Off python_service w
    pub pools : PoolsAbsent versions w
    pub unheard : Unheard versions w
    pub sources : names_of (cron_prefix setup site) w.sources ≡ []
    pub targets : names_of (cron_prefix setup site) w.targets ≡ []
    pub unit : Absent (node_unit setup site) w
    pub node : Off node_service w
    pub ftp : Denied (ftp_home setup site) w.ftp_users

  abbrev pub NoProcesses : Option Identity → Resources → Type 0
  NoProcesses none w = Unit {0}
  NoProcesses (some i) w = Off processes w

  abbrev pub NoAccount : Option Identity → Resources → Type 0
  NoAccount none w = Unit {0}
  NoAccount (some i) w = w.account ≡ none

  abbrev pub NoDatabase : Text → Resources → Type 0
  NoDatabase name w =
      (name =ᵗ []) ≡ false
      → Off database w × Off database_user w × Absent (secret_path setup site) w

  -- What cannot be made again is gone, with the files that every site may have.
  pub record Erased (r : Record) (w : Resources) : Type 0 where
    pub tree : (path : Text) → is_within (site_dir setup site) path ≡ true → Absent path w
    pub files : FilesAbsent (fixed_files setup site) w
    pub database : NoDatabase r.database w
    pub processes : NoProcesses r.identity w

  pub record Gone (r : Record) (w : Resources) : Type 0 where
    pub stopped : Stopped r.php_versions w
    pub erased : Erased r w
    pub account : NoAccount r.identity w

  pub record Finished (w : Resources) : Type 0 where
    pub record_of : Record
    pub saved : w.saved ≡ some record_of
    pub is_stopped : record_of.is_runtime_stopped ≡ true
    pub done : record_of.is_done ≡ true
    pub gone : Gone record_of w

  -- Below a directory that is not there, nothing is.
  abbrev pub Rooted : Resources → Type 0
  Rooted w =
      Absent (site_dir setup site) w
      → (path : Text) → is_within (site_dir setup site) path ≡ true
      → Absent path w

  -- A record with an identity is about an account.
  abbrev pub HasAccount : Option Identity → Resources → Type 0
  HasAccount none w = Unit {0}
  HasAccount (some i) w = w.account ≢ none

  module _ (w0 : Resources) where
    -- The record does not yet say that the runtime has stopped.
    pub record Before (r : Record) (w : Resources) : Type 0 where
      pub owner : HasAccount r.identity w0
      pub rooted : Rooted w
      pub spared : Spared setup site w0 w
      pub account : w.account ≡ w0.account
      pub covered : SourcesCover setup site w
      pub node : NodeKnown setup site w

    -- The record says so, and not that the site is gone.
    pub record After (r : Record) (w : Resources) : Type 0 where
      pub owner : HasAccount r.identity w0
      pub rooted : Rooted w
      pub stopped : Stopped r.php_versions w
      pub spared : Spared setup site w0 w ⊎ NoProcesses r.identity w
      pub account : (w.account ≡ w0.account) ⊎ Erased r w

    abbrev pub InStage : Bool → Bool → Record → Resources → Type 0
    InStage false false r w = Before r w
    InStage false true r w = ⊥
    InStage true false r w = After r w
    InStage true true r w = Gone r w

    abbrev pub FitsWith : Option Record → Resources → Type 0
    FitsWith none w = w ≡ w0
    FitsWith (some r) w = InStage r.is_runtime_stopped r.is_done r w

    -- The resources fit the record.
    abbrev pub FitsRecord : Resources → Type 0
    FitsRecord w = FitsWith w.saved w

    abbrev pub Reported : Verdict → Resources → Type 0
    Reported deleted w = Finished w
    Reported failed w = FitsRecord w

    -- A run, cut short or not.
    abbrev pub Safely : P → Resources → List Answer → Type 0
    Safely program w answers = Holds FitsRecord Reported (program w answers)

    pub FitsRecord-of :
        (r : Record) (w : Resources)
        → w.saved ≡ some r
        → InStage r.is_runtime_stopped r.is_done r w
        → FitsRecord w
    FitsRecord-of r w e s = subst (λ o. FitsWith o w) (sym e) s

    -- The rules of a step, of a call that reads and of a test.
    pub step-Holds :
        (effect : Answer → Resources → Resources) (next : P) (w : Resources) (answers : List Answer)
        → FitsRecord w
        → ((a : Answer) → FitsRecord (effect a w))
        → ((a : Answer) (rest : List Answer) → Safely next (effect a w) rest)
        → Safely (step effect next) w answers
    step-Holds effect next w answers s se n =
        attempt-Holds FitsRecord Reported effect (give_back failed) next w answers s se (λ _. s)
          (λ a _. se a) n

    pub reads-Holds :
        (next : P) (w : Resources) (answers : List Answer)
        → FitsRecord w
        → ((rest : List Answer) → Safely next w rest)
        → Safely (reads next) w answers
    reads-Holds next w answers s n =
        inspects-Holds FitsRecord Reported (give_back failed) next w answers s (λ _. s) n

    pub if-Holds :
        (b : Bool) (next : P) (w : Resources) (answers : List Answer)
        → FitsRecord w
        → (b ≡ true → Safely next w answers)
        → Safely (if b then next else give_back failed) w answers
    if-Holds true next w answers s n = n refl
    if-Holds false next w answers s n = s
