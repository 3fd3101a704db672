-- ===== src/Provision/Deletion/Erasure.antt =====
-- All that follows the record that the runtime has stopped (internal/provision/delete_site.go).
use mathlib.Core.Path.{subst}
use wpx.Prelude.{
  true, false, ◌≡◌, refl, sym, ◌∙◌, inl, inr, ◌⊎◌, Bool-cases, Option, none, some, List, [], ◌∷◌,
  ◌++◌, if◌then◌else◌,
}
use wpx.Model.Site.{Site}
use wpx.Provision.Attempt.{Answer}
use wpx.Provision.Deletion.Files.{DeletionFile}
use wpx.Provision.Deletion.Names.{
  Identity, Record, Setup, Resources, P, reads, site_dir, account_name,
}
use wpx.Provision.Deletion.Account.{stop_site}
use wpx.Provision.Deletion.Checks.{is_python}
use wpx.Provision.Deletion.Listing.{fixed_files}
use wpx.Provision.Deletion.Quiet.{Quieter-trans, Later, Later-refl}
use wpx.Provision.Deletion.Stages.{
  Apart, After, NoProcesses, FilesAbsent, Erased, HasAccount, Safely, reads-Holds,
}
use wpx.Provision.Deletion.Stability.{InStage-stable, NoDatabase-stable}
use wpx.Provision.Deletion.Stopping.{Safe}
use wpx.Provision.Deletion.Erasing.{in_stage, drop_database-Holds}
use wpx.Provision.Deletion.Unlinking.{remove_site_tree-Holds, remove_files-Holds}
use wpx.Provision.Deletion.Steps.{
  drop_database, remove_site_tree, remove_files, finish_account, erase, if_some,
}
use wpx.Provision.Deletion.Closing.{stop_site-Holds}
use wpx.Provision.Deletion.Conclusion.{InErasing, Concluding, fits, finish_account-Holds}

module _ (setup : Setup) (site : Site) (w0 : Resources) where
  module _ (r : Record) (is_stopped : r.is_runtime_stopped ≡ true) (is_open : r.is_done ≡ false)
      (owner : HasAccount setup site r.identity w0) where
    FilesAbsent-append :
        (files more : List DeletionFile) (w : Resources)
        → FilesAbsent setup site (files ++ more) w
        → FilesAbsent setup site files w
    FilesAbsent-append [] more w h = tt
    FilesAbsent-append (x ∷ xs) more w h = (h.0, FilesAbsent-append xs more w h.1)

    abbrev Last : P
    Last =
        (if is_python site.kind then reads else (λ (p : P). p))
          (finish_account setup site r (Concluding setup site w0 r is_stopped is_open owner))

    last-Holds :
        (w : Resources) (answers : List Answer)
        → InErasing setup site w0 r is_stopped is_open owner w
        → Erased setup site r w
        → Safely setup site w0 Last w answers
    last-Holds w answers e erased = elim (Bool-cases (is_python site.kind)) [
      | inl h ↦ rw h (
          reads-Holds setup site w0
            (finish_account setup site r (Concluding setup site w0 r is_stopped is_open owner)) w
            answers (fits setup site w0 r is_stopped is_open owner w e)
            (λ rest.
              (finish_account-Holds setup site w0 r is_stopped is_open owner) w rest e erased))
      | inr h ↦
          rw h (finish_account-Holds setup site w0 r is_stopped is_open owner w answers e erased)
    ]

    -- What follows the end of the processes.
    erases-Holds :
        (apart : Apart setup site) (more : List DeletionFile) (w : Resources)
        (answers : List Answer)
        → InErasing setup site w0 r is_stopped is_open owner w
        → Safely setup site w0
            (drop_database setup site r.database
              (remove_site_tree setup site (remove_files (fixed_files setup site ++ more) Last)))
            w
            answers
    erases-Holds apart more w answers e =
        drop_database-Holds setup site w0 r is_stopped is_open owner apart r.database
          (remove_site_tree setup site (remove_files (fixed_files setup site ++ more) Last)) w
          answers e
          (λ v rest _ e1 dropped.
            remove_site_tree-Holds setup site w0 r is_stopped is_open owner
              (remove_files (fixed_files setup site ++ more) Last) v rest e1
              (λ u rest q2 e2 tree.
                remove_files-Holds setup site w0 r is_stopped is_open owner
                  (fixed_files setup site ++ more) Last u rest e2 tree
                  (λ x rest q3 e3 gone. last-Holds x rest e3 (record {
                    tree = gone.0;
                    files = FilesAbsent-append (fixed_files setup site) more x gone.1;
                    database =
                        NoDatabase-stable setup site r.database (Quieter-trans setup site q2 q3)
                          dropped;
                    processes = e3.off;
                  }))))

    pub erase-Holds :
        (apart : Apart setup site) (more : List DeletionFile) (w : Resources)
        (answers : List Answer)
        → w.saved ≡ some r
        → After setup site w0 r w
        → Safely setup site w0 (erase setup site (fixed_files setup site ++ more) r) w answers
    unfolding erase
    erase-Holds apart more w answers saved after = by_identity r.identity refl
      where
        body : P
        body =
            drop_database setup site r.database
              (remove_site_tree setup site (remove_files (fixed_files setup site ++ more) Last))

        erasing :
            (v : Resources) (l : Later setup site w v)
            → NoProcesses setup site r.identity v
            → InErasing setup site w0 r is_stopped is_open owner v
        erasing v l off =
            let kept : After setup site w0 r v =
              InStage-stable setup site w0 true false r l after in
            record {
              saved = l.quieter.saved ∙ saved;
              rooted = kept.rooted;
              stopped = kept.stopped;
              off = off;
              account = kept.account;
            }

        safe : Safe setup site w0 w
        safe v l =
            in_stage setup site w0 r is_stopped is_open owner v
              (InStage-stable setup site w0 true false r l after) (l.quieter.saved ∙ saved)

        without_account :
            (i : Identity)
            → r.identity ≡ some i
            → w.account ≡ none
            → (w.account ≡ w0.account) ⊎ Erased setup site r w
            → NoProcesses setup site r.identity w
        without_account i same gone (inl kept) =
            absurd (subst (λ o. HasAccount setup site o w0) same owner (sym kept ∙ gone))
        without_account i same gone (inr erased) = erased.processes

        by_identity :
            (o : Option Identity)
            → r.identity ≡ o
            → Safely setup site w0
                (if_some o (stop_site (account_name setup site) (site_dir setup site)) body)
                w
                answers
        by_identity none same = erases-Holds apart more w answers (
            erasing w (Later-refl setup site w)
              (subst (λ o. NoProcesses setup site o w) (sym same) tt))
        by_identity (some i) same =
            stop_site-Holds setup site w0 (account_name setup site) (site_dir setup site) i body w
              answers safe
              (λ gone rest.
                erases-Holds apart more w rest
                  (erasing w (Later-refl setup site w) (without_account i same gone after.account)))
              (λ v rest l off.
                erases-Holds apart more v rest
                  (erasing v l (subst (λ o. NoProcesses setup site o v) (sym same) off)))
