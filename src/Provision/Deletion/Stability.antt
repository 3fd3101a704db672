-- ===== src/Provision/Deletion/Stability.antt =====
-- The states of a site's resources (internal/provision/delete_site.go) under steps that take nothing
-- back.
use wpx.Prelude.{Bool, true, false, ◌≡◌, sym, ◌∙◌, inl, inr, Option, none, some, List, [], ◌∷◌}
use wpx.Text.{Text}
use wpx.Text.Laws.{=ᵗ_refl}
use wpx.Text.Paths.{is_within}
use wpx.Model.Site.{Site}
use wpx.Provision.Deletion.Files.{DeletionFile}
use wpx.Provision.Deletion.Names.{Identity, Account, Record, Setup, Resources, site_dir}
use wpx.Provision.Deletion.Listing.{fixed_files}
use wpx.Provision.Deletion.Quiet.{Quieter, Spared, Later, is_private_path, Spared-trans}
use wpx.Provision.Deletion.Stages.{
  PoolsAbsent, Unheard, FilesAbsent, NoTraffic, Stopped, NoProcesses, NoAccount, NoDatabase, Erased,
  Rooted, InStage,
}

module _ (setup : Setup) (site : Site) where
  -- Neither the account nor the record is a part of what has stopped or is erased.
  pub Stopped-of :
      (versions : List Text) (w : Resources) (account : Option Account) (saved : Option Record)
      → Stopped setup site versions w
      → Stopped setup site versions (record w { account = account; saved = saved })
  Stopped-of versions w account saved t = record {
    no_traffic = record {
      http = t.no_traffic.http;
      tls = t.no_traffic.tls;
      traffic = t.no_traffic.traffic;
    };
    python = t.python;
    pools = PoolsAbsent-of versions t.pools;
    unheard = Unheard-of versions t.unheard;
    sources = t.sources;
    targets = t.targets;
    unit = t.unit;
    node = t.node;
    ftp = t.ftp;
  }
    where
      PoolsAbsent-of :
          (vs : List Text)
          → PoolsAbsent setup site vs w
          → PoolsAbsent setup site vs (record w { account = account; saved = saved })
      PoolsAbsent-of [] h = tt
      PoolsAbsent-of (x ∷ xs) h = (h.0, PoolsAbsent-of xs h.1)

      Unheard-of :
          (vs : List Text)
          → Unheard setup site vs w
          → Unheard setup site vs (record w { account = account; saved = saved })
      Unheard-of [] h = tt
      Unheard-of (x ∷ xs) h = h

  FilesAbsent-of :
      (files : List DeletionFile) (w : Resources) (account : Option Account) (saved : Option Record)
      → FilesAbsent setup site files w
      → FilesAbsent setup site files (record w { account = account; saved = saved })
  FilesAbsent-of [] w account saved h = tt
  FilesAbsent-of (x ∷ xs) w account saved h = (h.0, FilesAbsent-of xs w account saved h.1)

  NoProcesses-of :
      (identity : Option Identity) (w : Resources) (account : Option Account)
      (saved : Option Record)
      → NoProcesses setup site identity w
      → NoProcesses setup site identity (record w { account = account; saved = saved })
  NoProcesses-of none w account saved h = tt
  NoProcesses-of (some i) w account saved h = h

  pub Erased-of :
      (r : Record) (w : Resources) (account : Option Account) (saved : Option Record)
      → Erased setup site r w
      → Erased setup site r (record w { account = account; saved = saved })
  Erased-of r w account saved t = record {
    tree = t.tree;
    files = FilesAbsent-of (fixed_files setup site) w account saved t.files;
    database = t.database;
    processes = NoProcesses-of r.identity w account saved t.processes;
  }

  pub NoTraffic-stable :
      {w v : Resources} → Quieter setup site w v → NoTraffic setup site w → NoTraffic setup site v
  NoTraffic-stable q t = record {
    http = q.files _ t.http;
    tls = q.files _ t.tls;
    traffic = q.runs _ t.traffic;
  }

  pub PoolsAbsent-stable :
      {w v : Resources} (versions : List Text)
      → Quieter setup site w v
      → PoolsAbsent setup site versions w
      → PoolsAbsent setup site versions v
  PoolsAbsent-stable [] q t = tt
  PoolsAbsent-stable (x ∷ xs) q t = (q.files _ t.0, PoolsAbsent-stable xs q t.1)

  pub FilesAbsent-stable :
      {w v : Resources} (files : List DeletionFile)
      → Quieter setup site w v
      → FilesAbsent setup site files w
      → FilesAbsent setup site files v
  FilesAbsent-stable [] q t = tt
  FilesAbsent-stable (x ∷ xs) q t = (q.files _ t.0, FilesAbsent-stable xs q t.1)

  pub Unheard-stable :
      {w v : Resources} (versions : List Text)
      → Quieter setup site w v
      → Unheard setup site versions w
      → Unheard setup site versions v
  Unheard-stable [] q t = tt
  Unheard-stable (x ∷ xs) q (inl gone) = inl (q.files _ gone)
  Unheard-stable (x ∷ xs) q (inr off) = inr (q.runs _ off)

  pub NoProcesses-stable :
      {w v : Resources} (identity : Option Identity)
      → Quieter setup site w v
      → NoProcesses setup site identity w
      → NoProcesses setup site identity v
  NoProcesses-stable none q t = tt
  NoProcesses-stable (some i) q t = q.runs _ t

  pub NoAccount-stable :
      {w v : Resources} (identity : Option Identity)
      → Quieter setup site w v
      → NoAccount setup site identity w
      → NoAccount setup site identity v
  NoAccount-stable none q t = tt
  NoAccount-stable (some i) q t = q.account ∙ t

  pub NoDatabase-stable :
      {w v : Resources} (name : Text)
      → Quieter setup site w v
      → NoDatabase setup site name w
      → NoDatabase setup site name v
  NoDatabase-stable name q t =
      λ h. let (off, user_off, secret) = t h in (q.runs _ off, q.runs _ user_off, q.files _ secret)

  pub Stopped-stable :
      {w v : Resources} (versions : List Text)
      → Quieter setup site w v
      → Stopped setup site versions w
      → Stopped setup site versions v
  Stopped-stable versions q t = record {
    no_traffic = NoTraffic-stable q t.no_traffic;
    python = λ h. let (socket, service) = t.python h in (q.runs _ socket, q.runs _ service);
    pools = PoolsAbsent-stable versions q t.pools;
    unheard = Unheard-stable versions q t.unheard;
    sources = q.sources t.sources;
    targets = q.targets t.targets;
    unit = q.files _ t.unit;
    node = q.runs _ t.node;
    ftp = q.ftp t.ftp;
  }

  pub Erased-stable :
      {w v : Resources} (r : Record)
      → Quieter setup site w v
      → Erased setup site r w
      → Erased setup site r v
  Erased-stable r q t = record {
    tree = λ p h. q.files _ (t.tree p h);
    files = FilesAbsent-stable (fixed_files setup site) q t.files;
    database = NoDatabase-stable r.database q t.database;
    processes = NoProcesses-stable r.identity q t.processes;
  }

  private_site_dir : is_private_path setup site (site_dir setup site) ≡ true
  unfolding is_within
  private_site_dir = rw (=ᵗ_refl (site_dir setup site))

  private_of_within :
      (path : Text)
      → is_within (site_dir setup site) path ≡ true
      → is_private_path setup site path ≡ true
  private_of_within path h = rw h

  pub Rooted-Spared :
      {w v : Resources} → Spared setup site w v → Rooted setup site w → Rooted setup site v
  Rooted-Spared s rooted gone path h =
      s.files path (private_of_within path h)
      ∙ rooted (sym (s.files (site_dir setup site) private_site_dir) ∙ gone) path h

  pub InStage-stable :
      {w v : Resources} (w0 : Resources) (is_stopped is_done : Bool) (r : Record)
      → Later setup site w v
      → InStage setup site w0 is_stopped is_done r w
      → InStage setup site w0 is_stopped is_done r v
  InStage-stable w0 false false r l t = record {
    owner = t.owner;
    rooted = Rooted-Spared l.spared t.rooted;
    spared = Spared-trans setup site t.spared l.spared;
    account = l.quieter.account ∙ t.account;
    covered = l.covered t.covered;
    node = l.node t.node;
  }
  InStage-stable w0 false true r l t = t
  InStage-stable w0 true false r l t = record {
    owner = t.owner;
    rooted = Rooted-Spared l.spared t.rooted;
    stopped = Stopped-stable r.php_versions l.quieter t.stopped;
    spared = elim t.spared [
      | inl spared ↦ inl (Spared-trans setup site spared l.spared)
      | inr off ↦ inr (NoProcesses-stable r.identity l.quieter off)
    ];
    account = elim t.account [
      | inl same ↦ inl (l.quieter.account ∙ same)
      | inr erased ↦ inr (Erased-stable r l.quieter erased)
    ];
  }
  InStage-stable w0 true true r l t = record {
    stopped = Stopped-stable r.php_versions l.quieter t.stopped;
    erased = Erased-stable r l.quieter t.erased;
    account = NoAccount-stable r.identity l.quieter t.account;
  }
