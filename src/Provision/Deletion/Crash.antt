-- ===== src/Provision/Deletion/Crash.antt =====
-- One run of `DeleteSite` of internal/provision/delete_site.go as a whole.
use mathlib.Core.Path.{subst}
use wpx.Prelude.{
  Bool, true, false, ◌≡◌, refl, sym, ◌∙◌, inl, some, List, [], ◌∷◌, ◌++◌, if◌then◌else◌,
}
use wpx.Text.{Text}
use wpx.Model.Site.{Site}
use wpx.Provision.Attempt.{Answer}
use wpx.Provision.Deletion.Files.{DeletionFile}
use wpx.Provision.Deletion.Names.{Record, Setup, Resources, P, write_record, set_saved, cron_prefix}
use wpx.Provision.Deletion.Cron.{remove_site_cron}
use wpx.Provision.Deletion.Hosting.{delete_site_hosting}
use wpx.Provision.Deletion.Php.{release_pools, wait_stopped}
use wpx.Provision.Deletion.Listing.{fixed_files}
use wpx.Provision.Deletion.Quiet.{
  Quieter, Quieter-trans, SourcesCover, NodeKnown, Later, Later-refl, Later-trans,
}
use wpx.Provision.Deletion.Stages.{
  Apart, After, Before, InStage, Stopped, NoTraffic, Unheard, FitsRecord, FitsRecord-of, Safely,
  step-Holds,
}
use wpx.Provision.Deletion.Stability.{
  InStage-stable, Stopped-of, NoTraffic-stable, PoolsAbsent-stable, Unheard-stable,
}
use wpx.Provision.Deletion.Stopping.{
  Safe, Continues, Safe-Later, stop_traffic-Holds, stop_python-Holds,
}
use wpx.Provision.Deletion.Pools.{release_pools-Holds, wait_stopped-Holds}
use wpx.Provision.Deletion.Services.{remove_site_cron-Holds, delete_site_hosting-Holds}
use wpx.Provision.Deletion.Erasure.{erase-Holds}
use wpx.Provision.Deletion.{carry_out_deletion}
use wpx.Provision.Deletion.Steps.{is_empty, stop_runtime, with_stopped, erase}

module _ (setup : Setup) (site : Site) (w0 : Resources) (apart : Apart setup site) where
  -- The wait is for the pools that there were.
  waits-Holds :
      (versions : List Text) (next : P) (w : Resources) (answers : List Answer)
      → Safe setup site w0 w
      → Continues setup site w0 w (Unheard setup site versions) next
      → Safely setup site w0
          ((if is_empty versions then (λ (p : P). p) else wait_stopped setup site versions) next)
          w
          answers
  waits-Holds [] next w answers safe n = n w answers (Later-refl setup site w) tt
  waits-Holds (x ∷ xs) next w answers safe n =
      wait_stopped-Holds setup site w0 x xs next w answers safe n

  stop_runtime-Holds :
      (versions : List Text) (next : P) (w : Resources) (answers : List Answer)
      → NoTraffic setup site w
      → SourcesCover setup site w
      → NodeKnown setup site w
      → Safe setup site w0 w
      → Continues setup site w0 w (Stopped setup site versions) next
      → Safely setup site w0 (stop_runtime setup site versions next) w answers
  unfolding stop_runtime
  stop_runtime-Holds versions next w answers quiet covered known safe n =
      stop_python-Holds setup site w0 third w answers safe (λ w1 rest l1 python.
        release_pools-Holds setup site w0 apart versions second w1 rest
          (Safe-Later setup site w0 l1 safe)
          (λ w2 rest l2 pools.
            let far2 : Later setup site w w2 = Later-trans setup site l1 l2 in
            waits-Holds versions first w2 rest (Safe-Later setup site w0 far2 safe)
              (λ w3 rest l3 unheard.
                let far3 : Later setup site w w3 = Later-trans setup site far2 l3 in
                remove_site_cron-Holds setup site w0 (delete_site_hosting setup site next) w3 rest
                  (far3.covered covered) (Safe-Later setup site w0 far3 safe)
                  (λ w4 rest l4 commands.
                    let far4 : Later setup site w w4 = Later-trans setup site far3 l4 in
                    delete_site_hosting-Holds setup site w0 apart next w4 rest (far4.node known)
                      (Safe-Later setup site w0 far4 safe)
                      (λ w5 rest l5 hosting.
                        let from3 : Quieter setup site w3 w5 =
                          Quieter-trans setup site l4.quieter l5.quieter in
                        let from2 : Quieter setup site w2 w5 =
                          Quieter-trans setup site l3.quieter from3 in
                        let from1 : Quieter setup site w1 w5 =
                          Quieter-trans setup site l2.quieter from2 in
                        n w5 rest (Later-trans setup site far4 l5) (record {
                          no_traffic =
                              NoTraffic-stable setup site
                                (Quieter-trans setup site l1.quieter from1) quiet;
                          python = λ h. (from1.runs _ (python h).0, from1.runs _ (python h).1);
                          pools = PoolsAbsent-stable setup site versions from2 pools;
                          unheard = Unheard-stable setup site versions from3 unheard;
                          sources = l5.quieter.sources commands.0;
                          targets = l5.quieter.targets commands.1;
                          unit = hosting.1;
                          node = hosting.2;
                          ftp = hosting.0;
                        }))))))
    where
      first : P
      first = remove_site_cron (cron_prefix setup site) (delete_site_hosting setup site next)

      second : P
      second =
          (if is_empty versions then (λ (p : P). p) else wait_stopped setup site versions) first

      third : P
      third = release_pools setup site versions second

  module _ (more : List DeletionFile) where
    abbrev files : List DeletionFile
    files = fixed_files setup site ++ more

    -- From the record that the runtime has stopped on.
    writes-Stopped-Holds :
        (r : Record) (w : Resources) (answers : List Answer)
        → r.is_done ≡ false
        → Before setup site w0 r w
        → Stopped setup site r.php_versions w
        → FitsRecord setup site w0 w
        → Safely setup site w0
            (write_record (with_stopped r) (erase setup site files (with_stopped r)))
            w
            answers
    writes-Stopped-Holds r w answers is_open before stopped s =
        step-Holds setup site w0 (λ a v. set_saved r1 v) (erase setup site files r1) w answers s
          (λ _. subst (λ b. InStage setup site w0 true b r1 w1) (sym is_open) after)
          (λ _ rest.
            erase-Holds setup site w0 r1 refl is_open before.owner apart more w1 rest refl after)
      where
        r1 : Record
        r1 = with_stopped r

        w1 : Resources
        w1 = set_saved r1 w

        after : After setup site w0 r1 w1
        after = record {
          owner = before.owner;
          rooted = before.rooted;
          stopped = Stopped-of setup site r.php_versions w w.account (some r1) stopped;
          spared = inl (record {
            files = before.spared.files;
            database = before.spared.database;
            database_user = before.spared.database_user;
          });
          account = inl before.account;
        }

    pub carry_out_deletion-Holds :
        (r : Record) (w : Resources) (answers : List Answer)
        → r.is_done ≡ false
        → w.saved ≡ some r
        → InStage setup site w0 r.is_runtime_stopped r.is_done r w
        → Safely setup site w0 (carry_out_deletion setup site files r) w answers
    unfolding carry_out_deletion
    carry_out_deletion-Holds r w answers is_open saved stage =
        stop_traffic-Holds setup site w0 apart body w answers safe
          (λ v rest l quiet. by_stage r.is_runtime_stopped refl v rest l quiet)
      where
        rest_of : Bool → P
        rest_of b =
            if b
            then erase setup site files r
            else stop_runtime setup site r.php_versions
                (write_record (with_stopped r) (erase setup site files (with_stopped r)))

        body : P
        body = rest_of r.is_runtime_stopped

        safe : Safe setup site w0 w
        safe v l =
            FitsRecord-of setup site w0 r v (l.quieter.saved ∙ saved)
              (InStage-stable setup site w0 r.is_runtime_stopped r.is_done r l stage)

        stage_at :
            (b : Bool) (v : Resources)
            → r.is_runtime_stopped ≡ b
            → Later setup site w v
            → InStage setup site w0 b false r v
        stage_at b v e l =
            subst (λ c. InStage setup site w0 c false r v) e
              (subst (λ c. InStage setup site w0 r.is_runtime_stopped c r v) is_open
                (InStage-stable setup site w0 r.is_runtime_stopped r.is_done r l stage))

        by_stage :
            (b : Bool)
            → r.is_runtime_stopped ≡ b
            → (v : Resources) (rest : List Answer) → Later setup site w v
            → NoTraffic setup site v
            → Safely setup site w0 (rest_of b) v rest
        by_stage true e v rest l quiet =
            erase-Holds setup site w0 r e is_open (stage_at true v e l).owner apart more v rest
              (l.quieter.saved ∙ saved) (stage_at true v e l)
        by_stage false e v rest l quiet =
            stop_runtime-Holds r.php_versions
              (write_record (with_stopped r) (erase setup site files (with_stopped r))) v rest quiet
              (stage_at false v e l).covered (stage_at false v e l).node
              (Safe-Later setup site w0 l safe)
              (λ u last m stopped.
                writes-Stopped-Holds r u last is_open
                  (stage_at false u e (Later-trans setup site l m)) stopped
                  (safe u (Later-trans setup site l m)))
