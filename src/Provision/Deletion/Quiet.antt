-- ===== src/Provision/Deletion/Quiet.antt =====
-- What no step of internal/provision/delete_site.go takes back, and what the steps before the erasure
-- leave alone.
use wpx.Prelude.{Bool, true, false, ◌||◌, ◌≡◌, refl, ◌∙◌, ap, Option, none, some, []}
use wpx.Prelude.Table.{any}
use wpx.Text.{Text, ◌=ᵗ◌, split}
use wpx.Text.Paths.{is_within}
use wpx.Model.Site.{Site}
use wpx.Provision.Deletion.Files.{Entry, lookup, is_present}
use wpx.Provision.Deletion.Names.{
  Setup, Resources, Activity, database, database_user, node_service, site_dir, node_unit,
  secret_path, cron_prefix, ftp_home,
}
use wpx.Provision.Deletion.Cron.{names_of}
use wpx.Provision.Deletion.Hosting.{is_access_to}
use wpx.Provision.Deletion.Lines.{is_subset}

abbrev pub Absent : Text → Resources → Type 0
Absent path w = lookup path w.files ≡ none

abbrev pub Off : Activity → Resources → Type 0
Off x w = w.runs x ≡ false

pub is_present-none :
    (path : Text) (w : Resources) → Absent path w → is_present path w.files ≡ false
is_present-none path w h = ap (λ (o : Option Entry). elim o [ none ↦ false | some e ↦ true ]) h

-- No line of the password file gives access to the directory.
abbrev pub Denied : Text → Option Text → Type 0
Denied home none = Unit {0}
Denied home (some content) = any (is_access_to home) (split 10 content) ≡ false

module _ (setup : Setup) (site : Site) where
  -- What is gone or has stopped in the first state is so in the second.
  pub record Quieter (w v : Resources) : Type 0 where
    pub files : (path : Text) → Absent path w → Absent path v
    pub sources :
        names_of (cron_prefix setup site) w.sources ≡ []
        → names_of (cron_prefix setup site) v.sources ≡ []
    pub targets :
        names_of (cron_prefix setup site) w.targets ≡ []
        → names_of (cron_prefix setup site) v.targets ≡ []
    pub runs : (x : Activity) → Off x w → Off x v
    pub ftp : Denied (ftp_home setup site) w.ftp_users → Denied (ftp_home setup site) v.ftp_users
    pub saved : v.saved ≡ w.saved
    pub account : v.account ≡ w.account

  -- The paths that hold what cannot be made again: the tree and the secret of the database.
  abbrev pub is_private_path : Text → Bool
  is_private_path path = is_within (site_dir setup site) path || path =ᵗ secret_path setup site

  -- Every scheduled command that cron reads has its source.
  abbrev pub SourcesCover : Resources → Type 0
  SourcesCover w =
      is_subset (names_of (cron_prefix setup site) w.targets)
        (names_of (cron_prefix setup site) w.sources)
      ≡ true

  -- The Node service of a site without a unit does not run.
  abbrev pub NodeKnown : Resources → Type 0
  NodeKnown w = Absent (node_unit setup site) w → Off node_service w

  -- The tree, the secret and the database are the same in both states.
  pub record Spared (w v : Resources) : Type 0 where
    pub files :
        (path : Text) → is_private_path path ≡ true → lookup path v.files ≡ lookup path w.files
    pub database : v.runs database ≡ w.runs database
    pub database_user : v.runs database_user ≡ w.runs database_user

  pub record Later (w v : Resources) : Type 0 where
    pub quieter : Quieter w v
    pub spared : Spared w v
    pub covered : SourcesCover w → SourcesCover v
    pub node : NodeKnown w → NodeKnown v

  pub Quieter-refl : (w : Resources) → Quieter w w
  Quieter-refl w = record {
    files = λ p h. h;
    sources = λ h. h;
    targets = λ h. h;
    runs = λ x h. h;
    ftp = λ h. h;
    saved = refl;
    account = refl;
  }

  pub Quieter-trans : {u v w : Resources} → Quieter u v → Quieter v w → Quieter u w
  Quieter-trans f g = record {
    files = λ p h. g.files p (f.files p h);
    sources = λ h. g.sources (f.sources h);
    targets = λ h. g.targets (f.targets h);
    runs = λ x h. g.runs x (f.runs x h);
    ftp = λ h. g.ftp (f.ftp h);
    saved = g.saved ∙ f.saved;
    account = g.account ∙ f.account;
  }

  pub Spared-refl : (w : Resources) → Spared w w
  Spared-refl w = record { files = λ p h. refl; database = refl; database_user = refl }

  pub Spared-trans : {u v w : Resources} → Spared u v → Spared v w → Spared u w
  Spared-trans f g = record {
    files = λ p h. g.files p h ∙ f.files p h;
    database = g.database ∙ f.database;
    database_user = g.database_user ∙ f.database_user;
  }

  pub Later-refl : (w : Resources) → Later w w
  Later-refl w = record {
    quieter = Quieter-refl w;
    spared = Spared-refl w;
    covered = λ h. h;
    node = λ h. h;
  }

  pub Later-trans : {u v w : Resources} → Later u v → Later v w → Later u w
  Later-trans f g = record {
    quieter = Quieter-trans f.quieter g.quieter;
    spared = Spared-trans f.spared g.spared;
    covered = λ h. g.covered (f.covered h);
    node = λ h. g.node (f.node h);
  }
