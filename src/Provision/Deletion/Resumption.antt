-- ===== src/Provision/Deletion/Resumption.antt =====
-- The calls of a run of `DeleteSite` (internal/provision/delete_site.go) that resumes, counted.
use mathlib.Core.Path.{subst}
use wpx.Prelude.{
  ℕ, suc, ◌+◌, ◌≤◌, String, Bool, true, false, not, ◌≡◌, sym, some, List, arith, if◌then◌else◌,
}
use wpx.Text.{Text, length}
use wpx.Model.Site.{Site}
use wpx.Provision.Attempt.{Answer, returned, give_back}
use wpx.Provision.Deletion.Files.{DeletionFile, remove}
use wpx.Provision.Deletion.Names.{
  Record, Setup, Resources, P, deleted, failed, step, reads, check, remove_path, write_record,
  http_link, tls_link,
}
use wpx.Provision.Deletion.Checks.{deletion_configuration, is_journal_safe}
use wpx.Provision.Deletion.Listing.{site_deletion_files, is_own_record}
use wpx.Provision.Deletion.Refusals.{may_start}
use wpx.Provision.Deletion.{
  carry_out_deletion, is_verified, resume_record, is_recorded, inspection, resume_deletion,
  start_with, delete_site,
}
use wpx.Provision.Deletion.Steps.{load_links, stop_traffic, erase}
use wpx.Provision.Deletion.Steps.{stop_runtime, with_stopped}
use wpx.Provision.Deletion.Completion.{
  AllSucceed, Completes, weaken, step-Completes, reads-Completes, if-Completes,
}
use wpx.Provision.Deletion.Bound.{Recorded, CanDrop, erase-Completes}

module _ (setup : Setup) (site : Site) where
  -- What a run finds that carries on after the runtime has stopped.
  pub record Resumable (job_key : String) (w : Resources) : Type 0 where
    pub record_of : Record
    pub configuration : Text
    pub started : may_start setup site job_key ≡ true
    pub journal_safe : is_journal_safe setup site w.files ≡ true
    pub configured : deletion_configuration setup site w.files ≡ some configuration
    pub saved : w.saved ≡ some record_of
    pub own : is_own_record setup site configuration record_of ≡ true
    pub is_open : record_of.is_done ≡ false
    pub is_stopped : record_of.is_runtime_stopped ≡ true
    pub recorded : Recorded setup site record_of w
    pub verified : is_verified setup site record_of w ≡ true
    pub can_drop : CanDrop setup site record_of

  carry_out_deletion-Completes :
      (r : Record) (files : List DeletionFile) (w : Resources)
      → r.is_runtime_stopped ≡ true
      → CanDrop setup site r
      → Recorded setup site r w
      → Completes (length files + 20) (carry_out_deletion setup site files r) w
  unfolding carry_out_deletion stop_traffic
  carry_out_deletion-Completes r files w e can h =
      subst
        (λ b.
          Completes (length files + 20)
            (stop_traffic setup site (
              if b
              then erase setup site files r
              else stop_runtime setup site r.php_versions
                  (write_record (with_stopped r) (erase setup site files (with_stopped r)))))
            w)
        (sym e)
        (weaken (suc (suc (suc (suc (length files + 16))))) (length files + 20)
          (stop_traffic setup site (erase setup site files r)) w
          (step-Completes (suc (suc (suc (length files + 16))))
            (λ a v. record v { files = remove (http_link setup site) v.files })
            (remove_path (tls_link setup site) loading) w
            (λ a _.
              step-Completes (suc (suc (length files + 16)))
                (λ a v. record v { files = remove (tls_link setup site) v.files }) loading _
                (λ a _.
                  reads-Completes (suc (length files + 16))
                    (step (λ a v. load_links setup site v) (erase setup site files r)) _
                    (step-Completes (length files + 16) (λ a v. load_links setup site v)
                      (erase setup site files r) _
                      (λ a _. erase-Completes setup site r files _ can h)))))
          (omega arith))
    where
      loading : P
      loading = reads (step (λ a v. load_links setup site v) (erase setup site files r))

  resume_deletion-Completes :
      (job_key : String) (w : Resources) (x : Resumable job_key w)
      → Completes
          (length (site_deletion_files setup site w.files) + 21)
          (resume_deletion setup site x.configuration x.record_of)
          w
  unfolding resume_deletion resume_record
  resume_deletion-Completes job_key w x =
      subst (λ b. Completes k (if not b then give_back failed else decided r.is_done) w) (sym x.own)
        (subst (λ b. Completes k (decided b) w) (sym x.is_open)
          (weaken (suc (length files + 20)) k (decided false) w
            (reads-Completes (length files + 20)
              (check (λ v. is_recorded r.identity (inspection setup site v))
                (resume_record setup site r))
              w
              (if-Completes (length files + 20) (is_recorded r.identity (inspection setup site w))
                (resume_record setup site r) w x.recorded
                (if-Completes (length files + 20) (is_verified setup site r w)
                  (carry_out_deletion setup site files r) w x.verified
                  (carry_out_deletion-Completes r files w x.is_stopped x.can_drop x.recorded))))
            (omega arith)))
    where
      r : Record
      r = x.record_of

      files : List DeletionFile
      files = site_deletion_files setup site w.files

      k : ℕ
      k = length (site_deletion_files setup site w.files) + 21

      decided : Bool → P
      decided b =
          if b
          then give_back deleted
          else reads (
              check (λ v. is_recorded r.identity (inspection setup site v))
                (resume_record setup site r))

  -- A run that finds its own record saying that the runtime has stopped, with the checks passed and
  -- a database that may be dropped, reports the deletion within twenty-three calls and one for each
  -- file of the site, if all calls succeed and what is told to stop stops.
  pub delete_site_completes :
      (job_key : String) (w : Resources) (answers : List Answer)
      → Resumable job_key w
      → AllSucceed answers
      → length (site_deletion_files setup site w.files) + 23 ≤ length answers
      → (v : Resources) × (rest : List Answer) × (delete_site setup site job_key w answers
          ≡ returned deleted v rest)
  unfolding delete_site
  delete_site_completes job_key w answers x good enough =
      if-Completes (length (site_deletion_files setup site w.files) + 23)
        (may_start setup site job_key)
        (reads (check (λ v. is_journal_safe setup site v.files) (reads starts))) w x.started
        (weaken (suc (suc k)) (length (site_deletion_files setup site w.files) + 23)
          (reads (check (λ v. is_journal_safe setup site v.files) (reads starts))) w
          (reads-Completes (suc k) (check (λ v. is_journal_safe setup site v.files) (reads starts))
            w
            (if-Completes (suc k) (is_journal_safe setup site w.files) (reads starts) w
              x.journal_safe
              (reads-Completes k starts w (
                subst (λ o. Completes k (start_with setup site o w.saved) w) (sym x.configured)
                  (subst (λ o. Completes k (start_with setup site (some x.configuration) o) w)
                    (sym x.saved) (resume_deletion-Completes job_key w x))))))
          (omega arith))
        answers good enough
    where
      k : ℕ
      k = length (site_deletion_files setup site w.files) + 21

      starts : P
      starts v = start_with setup site (deletion_configuration setup site v.files) v.saved v
