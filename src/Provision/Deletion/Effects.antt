-- ===== src/Provision/Deletion/Effects.antt =====
-- The single steps of internal/provision/delete_site.go and what they leave alone.
use mathlib.Core.Path.{subst}
use wpx.Prelude.{Bool, true, false, ◌≡◌, refl, sym, ◌∙◌, [], arith, ◌==◌}
use wpx.Text.{Text, ◌=ᵗ◌}
use wpx.Text.Laws.{=ᵗ_eq}
use wpx.Model.Site.{Site}
use wpx.Provision.Deletion.Files.{remove, remove_tree}
use wpx.Provision.Deletion.Names.{
  Setup, Resources, Activity, database, database_user, index, turned_off, node_service, node_unit,
  http_link, tls_link, cron_prefix, ftp_home,
}
use wpx.Provision.Deletion.Cron.{names_of, remove_source, remove_target}
use wpx.Provision.Deletion.Hosting.{set_users, without_access}
use wpx.Provision.Deletion.Lines.{
  is_subset, is_subset-of_nil, any-without_access, names_of-remove_within,
}
use wpx.Provision.Deletion.Removal.{
  lookup-remove-none, lookup-remove_ne, lookup-remove_tree-none, names_of-remove,
}
use wpx.Provision.Deletion.Steps.{load_links}
use wpx.Provision.Deletion.Quiet.{
  Quieter, NodeKnown, is_private_path, Later, Absent, Off, is_present-none,
}

module _ (setup : Setup) (site : Site) where
  pub remove-Quieter :
      (path : Text) (w : Resources)
      → Quieter setup site w (record w { files = remove path w.files })
  remove-Quieter path w = record {
    files = λ p h. lookup-remove-none path p w.files h;
    sources = λ h. h;
    targets = λ h. h;
    runs = λ x h. h;
    ftp = λ h. h;
    saved = refl;
    account = refl;
  }

  pub remove_tree-Quieter :
      (path : Text) (kept : Text → Bool) (w : Resources)
      → Quieter setup site w (record w { files = remove_tree path kept w.files })
  remove_tree-Quieter path kept w = record {
    files = λ p h. lookup-remove_tree-none path kept p w.files h;
    sources = λ h. h;
    targets = λ h. h;
    runs = λ x h. h;
    ftp = λ h. h;
    saved = refl;
    account = refl;
  }

  turned_off-Off :
      (x : Activity) (remaining : Bool) (w : Resources) (y : Activity)
      → Off y w
      → turned_off x remaining w.runs y ≡ false
  turned_off-Off x remaining w y h = ground arith

  pub turned_off-Quieter :
      (x : Activity) (remaining : Bool) (w : Resources)
      → Quieter setup site w (record w { runs = turned_off x remaining w.runs })
  turned_off-Quieter x remaining w = record {
    files = λ p h. h;
    sources = λ h. h;
    targets = λ h. h;
    runs = λ y h. turned_off-Off x remaining w y h;
    ftp = λ h. h;
    saved = refl;
    account = refl;
  }

  different :
      (path q : Text)
      → is_private_path setup site path ≡ false
      → is_private_path setup site q ≡ true
      → (path =ᵗ q) ≡ false
  different path q h k = ground (arith, =ᵗ_eq path q)

  -- The removal of another path than the unit's.
  pub NodeKnown-remove :
      (path : Text) (w : Resources)
      → (path =ᵗ node_unit setup site) ≡ false
      → NodeKnown setup site w
      → NodeKnown setup site (record w { files = remove path w.files })
  NodeKnown-remove path w h k gone =
      k (sym (lookup-remove_ne path (node_unit setup site) w.files h) ∙ gone)

  pub remove-Later :
      (path : Text) (w : Resources)
      → is_private_path setup site path ≡ false
      → (NodeKnown setup site w → NodeKnown setup site (record w { files = remove path w.files }))
      → Later setup site w (record w { files = remove path w.files })
  remove-Later path w h known = record {
    quieter = remove-Quieter path w;
    spared = record {
      files = λ q k. lookup-remove_ne path q w.files (different path q h k);
      database = refl;
      database_user = refl;
    };
    covered = λ c. c;
    node = known;
  }

  pub turned_off-Later :
      (x : Activity) (remaining : Bool) (w : Resources)
      → (index database == index x) ≡ false
      → (index database_user == index x) ≡ false
      → Later setup site w (record w { runs = turned_off x remaining w.runs })
  turned_off-Later x remaining w h k = record {
    quieter = turned_off-Quieter x remaining w;
    spared = record { files = λ q p. refl; database = rw h; database_user = rw k };
    covered = λ c. c;
    node = λ c gone. turned_off-Off x remaining w node_service (c gone);
  }

  load-Off :
      (w : Resources) (x : Activity)
      → Absent (http_link setup site) w
      → Absent (tls_link setup site) w
      → Off x w
      → Off x (load_links setup site w)
  load-Off w Activity.traffic h k o = ground (arith, is_present-none _ w h, is_present-none _ w k)
  load-Off w _ h k o = o

  -- Nginx loads a configuration without the site.
  pub load_links-Later :
      (w : Resources)
      → Absent (http_link setup site) w
      → Absent (tls_link setup site) w
      → Later setup site w (load_links setup site w)
  load_links-Later w h k = record {
    quieter = record {
      files = λ p a. a;
      sources = λ a. a;
      targets = λ a. a;
      runs = λ x o. load-Off w x h k o;
      ftp = λ a. a;
      saved = refl;
      account = refl;
    };
    spared = record { files = λ q p. refl; database = refl; database_user = refl };
    covered = λ c. c;
    node = λ c. c;
  }

  pub remove_target-Later :
      (name : Text) (w : Resources) → Later setup site w (remove_target name w)
  remove_target-Later name w = record {
    quieter = record {
      files = λ p a. a;
      sources = λ a. a;
      targets = λ a. names_of-remove (cron_prefix setup site) name w.targets a;
      runs = λ x o. o;
      ftp = λ a. a;
      saved = refl;
      account = refl;
    };
    spared = record { files = λ q p. refl; database = refl; database_user = refl };
    covered = λ c.
        names_of-remove_within (cron_prefix setup site) name
          (names_of (cron_prefix setup site) w.sources) w.targets c;
    node = λ c. c;
  }

  -- A source goes when no target is left.
  pub remove_source-Later :
      (name : Text) (w : Resources)
      → names_of (cron_prefix setup site) w.targets ≡ []
      → Later setup site w (remove_source name w)
  remove_source-Later name w h = record {
    quieter = record {
      files = λ p a. a;
      sources = λ a. names_of-remove (cron_prefix setup site) name w.sources a;
      targets = λ a. a;
      runs = λ x o. o;
      ftp = λ a. a;
      saved = refl;
      account = refl;
    };
    spared = record { files = λ q p. refl; database = refl; database_user = refl };
    covered = λ c.
        subst
          (λ names.
            is_subset names (names_of (cron_prefix setup site) (remove name w.sources)) ≡ true)
          (sym h) (is_subset-of_nil _);
    node = λ c. c;
  }

  pub set_users-Later :
      (content : Text) (w : Resources)
      → Later setup site w (set_users (without_access (ftp_home setup site) content) w)
  set_users-Later content w = record {
    quieter = record {
      files = λ p a. a;
      sources = λ a. a;
      targets = λ a. a;
      runs = λ x o. o;
      ftp = λ a. any-without_access (ftp_home setup site) content;
      saved = refl;
      account = refl;
    };
    spared = record { files = λ q p. refl; database = refl; database_user = refl };
    covered = λ c. c;
    node = λ c. c;
  }
