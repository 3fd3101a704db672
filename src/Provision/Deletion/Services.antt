-- ===== src/Provision/Deletion/Services.antt =====
-- The steps of internal/provision/delete_site.go that take away scheduled commands, the Node unit and
-- the FTP users.
use mathlib.Core.Path.{subst}
use wpx.Prelude.{true, ◌≡◌, refl, sym, Option, none, some, List, [], ◌∷◌}
use wpx.Text.{Text}
use wpx.Model.Site.{Site}
use wpx.Provision.Attempt.{Answer}
use wpx.Provision.Vhosts.{ownership_marker}
use wpx.Provision.Deletion.Files.{Entry, Files, lookup, has_marker}
use wpx.Provision.Deletion.Names.{
  Setup, Resources, P, node_service, step, reads, check, stop, remove_path, node_unit, cron_prefix,
  ftp_home,
}
use wpx.Provision.Deletion.Cron.{
  is_source, is_replaceable, names_of, remove_source, remove_target, clear_target, clear_targets,
  clear_sources, remove_site_cron,
}
use wpx.Provision.Deletion.Hosting.{
  is_safe_root, without_access, set_users, rewrite_users, access_in, remove_ftp_access,
  has_managed_unit, stop_unit, stop_node_runtime, delete_site_hosting,
}
use wpx.Provision.Deletion.Lines.{
  is_subset, is_subset_refl, is_subset-nil, names_of-remove_subset, any-without_access,
}
use wpx.Provision.Deletion.Quiet.{
  Absent, Off, Denied, SourcesCover, NodeKnown, Later, Later-refl, Later-trans,
}
use wpx.Provision.Deletion.Effects.{remove_target-Later, remove_source-Later, set_users-Later}
use wpx.Provision.Deletion.Stages.{Apart, Safely, if-Holds}
use wpx.Provision.Deletion.Stopping.{
  Safe, Continues, Safe-Later, Safe-here, Later-step, Later-reads, remove_path-Holds, stop-Holds,
}

module _ (setup : Setup) (site : Site) (w0 : Resources) where
  abbrev names : Files → List Text
  names files = names_of (cron_prefix setup site) files

  abbrev NoTargets : Resources → Type 0
  NoTargets w = names w.targets ≡ []

  abbrev NoSources : Resources → Type 0
  NoSources w = names w.sources ≡ []

  clear_target-Holds :
      (name : Text) (next : P) (w : Resources) (answers : List Answer)
      → Safe setup site w0 w
      → ((rest : List Answer) → Safely setup site w0 next (remove_target name w) rest)
      → Safely setup site w0 (clear_target name next) w answers
  unfolding clear_target
  clear_target-Holds name next w answers safe n =
      Later-reads setup site w0
        (check (λ v. is_replaceable name v.targets) (step (λ a v. remove_target name v) next)) w
        answers safe
        (λ more.
          if-Holds setup site w0 (is_replaceable name w.targets)
            (step (λ a v. remove_target name v) next) w more (Safe-here setup site w0 w safe)
            (λ _.
              Later-step setup site w0 (λ a v. remove_target name v) next w more safe
                (λ _. remove_target-Later setup site name w) (λ _ rest. n rest)))

  -- With the remaining targets among the names, none is left at the end.
  clear_targets-Holds :
      (list : List Text) (next : P) (w : Resources) (answers : List Answer)
      → is_subset (names w.targets) list ≡ true
      → Safe setup site w0 w
      → Continues setup site w0 w NoTargets next
      → Safely setup site w0 (clear_targets list next) w answers
  unfolding clear_targets
  clear_targets-Holds [] next w answers within safe n =
      n w answers (Later-refl setup site w) (is_subset-nil (names w.targets) within)
  clear_targets-Holds (x ∷ xs) next w answers within safe n =
      Later-reads setup site w0
        (check (λ v. is_source x v.sources) (clear_target x (clear_targets xs next))) w answers safe
        (λ more.
          if-Holds setup site w0 (is_source x w.sources) (clear_target x (clear_targets xs next)) w
            more (Safe-here setup site w0 w safe)
            (λ _. clear_target-Holds x (clear_targets xs next) w more safe (λ rest.
              let l : Later setup site w (remove_target x w) = remove_target-Later setup site x w in
              clear_targets-Holds xs next (remove_target x w) rest
                (names_of-remove_subset (cron_prefix setup site) x xs w.targets within)
                (Safe-Later setup site w0 l safe)
                (λ u last m gone. n u last (Later-trans setup site l m) gone))))

  clear_sources-Holds :
      (list : List Text) (next : P) (w : Resources) (answers : List Answer)
      → is_subset (names w.sources) list ≡ true
      → NoTargets w
      → Safe setup site w0 w
      → Continues setup site w0 w NoSources next
      → Safely setup site w0 (clear_sources list next) w answers
  unfolding clear_sources
  clear_sources-Holds [] next w answers within cleared safe n =
      n w answers (Later-refl setup site w) (is_subset-nil (names w.sources) within)
  clear_sources-Holds (x ∷ xs) next w answers within cleared safe n =
      let l : Later setup site w (remove_source x w) = remove_source-Later setup site x w cleared in
      Later-step setup site w0 (λ a v. remove_source x v) (clear_sources xs next) w answers safe
        (λ _. l)
        (λ _ rest.
          clear_sources-Holds xs next (remove_source x w) rest
            (names_of-remove_subset (cron_prefix setup site) x xs w.sources within) cleared
            (Safe-Later setup site w0 l safe)
            (λ u last m gone. n u last (Later-trans setup site l m) gone))

  abbrev pub NoCommands : Resources → Type 0
  NoCommands w =
      (names_of (cron_prefix setup site) w.sources ≡ [])
      × (names_of (cron_prefix setup site) w.targets ≡ [])

  pub remove_site_cron-Holds :
      (next : P) (w : Resources) (answers : List Answer)
      → SourcesCover setup site w
      → Safe setup site w0 w
      → Continues setup site w0 w NoCommands next
      → Safely setup site w0 (remove_site_cron (cron_prefix setup site) next) w answers
  unfolding remove_site_cron
  remove_site_cron-Holds next w answers covered safe n =
      Later-reads setup site w0 (λ v. clear_targets (names v.sources) second v) w answers safe
        (λ more.
          clear_targets-Holds (names w.sources) second w more covered safe (λ v more l cleared.
            Later-reads setup site w0 (λ u. clear_sources (names u.sources) next u) v more
              (Safe-Later setup site w0 l safe)
              (λ more.
                clear_sources-Holds (names v.sources) next v more (is_subset_refl (names v.sources))
                  cleared (Safe-Later setup site w0 l safe)
                  (λ u rest m gone.
                    n u rest (Later-trans setup site l m) (gone, m.quieter.targets cleared)))))
    where
      second : P
      second = reads (λ v. clear_sources (names_of (cron_prefix setup site) v.sources) next v)

  abbrev NoAccess : Resources → Type 0
  NoAccess w = Denied (ftp_home setup site) w.ftp_users

  rewrite_users-Holds :
      (content : Text) (next : P) (w : Resources) (answers : List Answer)
      → Safe setup site w0 w
      → Continues setup site w0 w NoAccess next
      → Safely setup site w0 (rewrite_users (ftp_home setup site) content next) w answers
  rewrite_users-Holds content next w answers safe n =
      if-Holds setup site w0 (has_marker ownership_marker content)
        (step effect (reads (reads next))) w answers (Safe-here setup site w0 w safe)
        (λ _.
          Later-step setup site w0 effect (reads (reads next)) w answers safe (λ _. l)
            (λ _ more.
              Later-reads setup site w0 (reads next) v more (Safe-Later setup site w0 l safe)
                (λ more.
                  Later-reads setup site w0 next v more (Safe-Later setup site w0 l safe)
                    (λ rest. n v rest l (any-without_access (ftp_home setup site) content)))))
    where
      effect : Answer → Resources → Resources
      effect a u = set_users (without_access (ftp_home setup site) content) u

      v : Resources
      v = set_users (without_access (ftp_home setup site) content) w

      l : Later setup site w v
      l = set_users-Later setup site content w

  access_in-Holds :
      (users : Option Text) (next : P) (w : Resources) (answers : List Answer)
      → w.ftp_users ≡ users
      → Safe setup site w0 w
      → Continues setup site w0 w NoAccess next
      → Safely setup site w0 (access_in (ftp_home setup site) users next) w answers
  access_in-Holds none next w answers e safe n =
      n w answers (Later-refl setup site w)
        (subst (λ users. Denied (ftp_home setup site) users) (sym e) tt)
  access_in-Holds (some content) next w answers e safe n =
      rewrite_users-Holds content next w answers safe n

  stop_unit-Holds :
      (o : Option Entry) (next : P) (w : Resources) (answers : List Answer)
      → (o ≡ none → Off node_service w)
      → Safe setup site w0 w
      → Continues setup site w0 w (Off node_service) next
      → Safely setup site w0 (stop_unit o next) w answers
  stop_unit-Holds none next w answers known safe n =
      n w answers (Later-refl setup site w) (known refl)
  stop_unit-Holds (some e) next w answers known safe n =
      if-Holds setup site w0 (has_managed_unit e.node) (stop node_service next) w answers
        (Safe-here setup site w0 w safe)
        (λ _. stop-Holds setup site w0 node_service next w answers refl refl safe n)

  abbrev pub NoHosting : Resources → Type 0
  NoHosting w =
      Denied (ftp_home setup site) w.ftp_users
      × Absent (node_unit setup site) w
      × Off node_service w

  pub delete_site_hosting-Holds :
      (apart : Apart setup site) (next : P) (w : Resources) (answers : List Answer)
      → NodeKnown setup site w
      → Safe setup site w0 w
      → Continues setup site w0 w NoHosting next
      → Safely setup site w0 (delete_site_hosting setup site next) w answers
  unfolding delete_site_hosting stop_node_runtime remove_ftp_access
  delete_site_hosting-Holds apart next w answers known safe n =
      if-Holds setup site w0 (is_safe_root setup.hosting_units)
        (reads (λ v. stop_unit (lookup (node_unit setup site) v.files) second v)) w answers
        (Safe-here setup site w0 w safe)
        (λ _.
          Later-reads setup site w0
            (λ v. stop_unit (lookup (node_unit setup site) v.files) second v) w answers safe
            (λ more.
              stop_unit-Holds (lookup (node_unit setup site) w.files) second w more known safe
                (λ v more l off. at_second v more l off)))
    where
      third : P
      third = remove_path (node_unit setup site) (reads next)

      second : P
      second = reads (λ v. access_in (ftp_home setup site) v.ftp_users third v)

      at_third :
          (v : Resources) (more : List Answer)
          → Later setup site w v
          → Off node_service v
          → NoAccess v
          → Safely setup site w0 third v more
      at_third v more l off denied =
          remove_path-Holds setup site w0 (node_unit setup site) (reads next) v more apart.unit
            (λ _ _. off) (Safe-Later setup site w0 l safe)
            (λ u more m gone.
              let far : Later setup site w u = Later-trans setup site l m in
              Later-reads setup site w0 next u more (Safe-Later setup site w0 far safe)
                (λ rest. n u rest far (m.quieter.ftp denied, gone, m.quieter.runs _ off)))

      at_second :
          (v : Resources) (more : List Answer)
          → Later setup site w v
          → Off node_service v
          → Safely setup site w0 second v more
      at_second v more l off =
          Later-reads setup site w0 (λ u. access_in (ftp_home setup site) u.ftp_users third u) v
            more (Safe-Later setup site w0 l safe)
            (λ more.
              access_in-Holds v.ftp_users third v more refl (Safe-Later setup site w0 l safe)
                (λ u rest m denied.
                  at_third u rest (Later-trans setup site l m) (m.quieter.runs _ off) denied))
