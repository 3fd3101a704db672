-- ===== src/Provision/Deletion/Series.antt =====
-- Sequences of runs of `DeleteSite` of internal/provision/delete_site.go for one job.
use mathlib.Core.Path.{subst}
use wpx.Prelude.{
  String, true, false, ◌≡◌, ◌≢◌, refl, sym, ap, Option, none, some, List, [], ◌∷◌, ◌&&◌,
  if◌then◌else◌,
}
use wpx.Text.{Text}
use wpx.Model.Site.{Site, is_word_press, valid_site}
use wpx.Provision.Attempt.{Answer, Run, stopped, returned, Holds}
use wpx.Provision.Deletion.Names.{
  Identity, Account, Record, Setup, Resources, Verdict, deleted, failed, check, reads, write_record,
  set_saved, site_dir, account_name,
}
use wpx.Provision.Deletion.Account.{Inspection, refused, not_found, found, inspect_account}
use wpx.Provision.Deletion.Checks.{deletion_configuration, is_configured, is_journal_safe}
use wpx.Provision.Deletion.Listing.{site_deletion_files, site_versions, inspect_deletion_database}
use wpx.Provision.Deletion.Stages.{
  Apart, Before, InStage, HasAccount, FitsWith, FitsRecord, FitsRecord-of, Reported, Finished,
  Safely, step-Holds, reads-Holds, if-Holds,
}
use wpx.Provision.Deletion.Crash.{carry_out_deletion-Holds}
use wpx.Provision.Deletion.{
  carry_out_deletion, is_verified, begin_record, inspection, new_record, begin_with_identity,
  begin_deletion, start_with, awaits_deletion, valid_deletion_key, delete_site,
}
use wpx.Provision.Deletion.Runs.{
  Untouched, resources_of, after_deletions, Fits, resume_deletion-Holds,
}

module _ (setup : Setup) (site : Site) where
  module _ (w0 : Resources) (apart : Apart setup site) (untouched : Untouched setup site w0) where
    -- A run that begins: the first change is the record itself.
    begin_record-Holds :
        (r : Record) (w : Resources) (answers : List Answer)
        → w ≡ w0
        → r.is_runtime_stopped ≡ false
        → r.is_done ≡ false
        → HasAccount setup site r.identity w0
        → Safely setup site w0 (begin_record setup site r) w answers
    unfolding begin_record site_deletion_files
    begin_record-Holds r w answers same running is_open owner =
        if-Holds setup site w0 (is_verified setup site r w)
          (write_record r
            (carry_out_deletion setup site (site_deletion_files setup site w.files) r))
          w answers fits
          (λ _.
            step-Holds setup site w0 (λ a v. set_saved r v)
              (carry_out_deletion setup site (site_deletion_files setup site w.files) r) w answers
              fits (λ _. FitsRecord-of setup site w0 r w1 refl stage)
              (λ _ rest.
                carry_out_deletion-Holds setup site w0 apart _ r w1 rest is_open refl stage))
      where
        w1 : Resources
        w1 = set_saved r w

        fits : Fits setup site w0 apart untouched w
        fits =
            subst (λ o. FitsWith setup site w0 o w) (ap (λ (v : Resources). v.saved) (sym same))
              (subst (λ o. FitsWith setup site w0 o w) (sym untouched.saved) same)

        before_at : (v : Resources) → v ≡ w0 → Before setup site w0 r (set_saved r v)
        before_at v e =
            subst (λ u. Before setup site w0 r (set_saved r u)) (sym e)
              (record {
                owner = owner;
                rooted = untouched.rooted;
                spared = record { files = λ p h. refl; database = refl; database_user = refl };
                account = refl;
                covered = untouched.covered;
                node = untouched.node;
              })

        stage : InStage setup site w0 r.is_runtime_stopped r.is_done r w1
        stage =
            subst (λ b. InStage setup site w0 b r.is_done r w1) (sym running)
              (subst (λ b. InStage setup site w0 false b r w1) (sym is_open) (before_at w same))

    found-account :
        (name home : Text) (o : Option Account) (i : Identity)
        → inspect_account name home o ≡ found i
        → o ≢ none
    unfolding inspect_account
    found-account name home none i e = λ _. cc
    found-account name home (some a) i e = λ h. cc

    begin_with_identity-Holds :
        (configuration : Text) (x : Inspection) (name : Option Text) (w : Resources)
        (answers : List Answer)
        → inspection setup site w ≡ x
        → w ≡ w0
        → Fits setup site w0 apart untouched w
        → Safely setup site w0 (begin_with_identity setup site configuration x name) w answers
    begin_with_identity-Holds configuration refused name w answers e same s = s
    begin_with_identity-Holds configuration not_found none w answers e same s = s
    begin_with_identity-Holds configuration (found i) none w answers e same s = s
    begin_with_identity-Holds configuration not_found (some name) w answers e same s =
        begin_record-Holds
          (new_record setup site configuration none name (site_versions setup site w.files)) w
          answers same refl refl tt
    begin_with_identity-Holds configuration (found i) (some name) w answers e same s =
        begin_record-Holds
          (new_record setup site configuration (some i) name (site_versions setup site w.files)) w
          answers same refl refl
          (subst (λ v. v.account ≢ none) same
            (found-account (account_name setup site) (site_dir setup site) w.account i e))

    start_with-Holds :
        (configuration : Option Text) (saved : Option Record) (w : Resources)
        (answers : List Answer)
        → w.saved ≡ saved
        → Fits setup site w0 apart untouched w
        → Safely setup site w0 (start_with setup site configuration saved) w answers
    unfolding begin_deletion
    start_with-Holds none saved w answers e s = s
    start_with-Holds (some configuration) (some r) w answers e s =
        resume_deletion-Holds setup site w0 apart untouched configuration r w answers e s
    start_with-Holds (some configuration) none w answers e s =
        reads-Holds setup site w0
          (λ v.
            begin_with_identity setup site configuration (inspection setup site v)
              (if is_word_press site.kind
                then inspect_deletion_database setup site v.files
                else some [])
              v)
          w answers s
          (λ rest.
            begin_with_identity-Holds configuration (inspection setup site w) _ w rest refl
              (subst (λ o. FitsWith setup site w0 o w) e s) s)

    delete_site-Holds :
        (job_key : String) (w : Resources) (answers : List Answer)
        → Fits setup site w0 apart untouched w
        → Safely setup site w0 (delete_site setup site job_key) w answers
    unfolding delete_site
    delete_site-Holds job_key w answers s =
        if-Holds setup site w0
          (valid_site setup.parse_url site
            && awaits_deletion site.status
            && valid_deletion_key job_key
            && is_configured setup)
          (reads (
            check (λ v. is_journal_safe setup site v.files)
              (reads (λ v.
                start_with setup site (deletion_configuration setup site v.files) v.saved v))))
          w answers s
          (λ _.
            reads-Holds setup site w0
              (check (λ v. is_journal_safe setup site v.files)
                (reads (λ v.
                  start_with setup site (deletion_configuration setup site v.files) v.saved v)))
              w answers s
              (λ more.
                if-Holds setup site w0 (is_journal_safe setup site w.files)
                  (reads (λ v.
                    start_with setup site (deletion_configuration setup site v.files) v.saved v))
                  w more s
                  (λ _.
                    reads-Holds setup site w0
                      (λ v.
                        start_with setup site (deletion_configuration setup site v.files) v.saved v)
                      w more s
                      (λ rest.
                        start_with-Holds (deletion_configuration setup site w.files) w.saved w rest
                          refl s))))

    Finished-Fits : (w : Resources) → Finished setup site w → Fits setup site w0 apart untouched w
    Finished-Fits w f = FitsRecord-of setup site w0 f.record_of w f.saved (
        subst (λ b. InStage setup site w0 b f.record_of.is_done f.record_of w) (sym f.is_stopped)
          (subst (λ b. InStage setup site w0 true b f.record_of w) (sym f.done) f.gone))

    pub after_deletions-FitsRecord :
        (job_key : String) (runs : List (List Answer)) (w : Resources)
        → Fits setup site w0 apart untouched w
        → Fits setup site w0 apart untouched (after_deletions setup site job_key runs w)
    unfolding after_deletions
    after_deletions-FitsRecord job_key [] w s = s
    after_deletions-FitsRecord job_key (answers ∷ runs) w s =
        after_deletions-FitsRecord job_key runs _
          (left (delete_site setup site job_key w answers) (delete_site-Holds job_key w answers s))
      where
        left :
            (x : Run Resources Verdict)
            → Holds (Fits setup site w0 apart untouched) (Reported setup site w0) x
            → Fits setup site w0 apart untouched (resources_of setup site x)
        left (stopped v) h = h
        left (returned deleted v rest) h = Finished-Fits v h
        left (returned failed v rest) h = h

    -- Let the configured roots put no traffic link, PHP pool or Node unit among the tree and the
    -- database's secret, and no traffic link or PHP pool in the place of the Node unit, and let the
    -- host at the start have no record of the job, a source for every scheduled command that cron
    -- reads, no running Node service without its unit, and nothing below a site directory that is
    -- not there. After any sequence of runs of a deletion for one job, each cut short anywhere or
    -- not, and whatever a further run meets, where that run stops the host fits its record: without
    -- a record it is as it was; until the record says that the runtime has stopped, the tree, the
    -- secret, the database and the account are as they were; from then on traffic, runtimes, the
    -- Node service, scheduled commands and FTP users are gone; and where the record is done, so are
    -- the tree, the files that every site may have, the recorded database and account. A run that
    -- reports success leaves such a done record.
    pub delete_site-Reported :
        (job_key : String) (runs : List (List Answer)) (answers : List Answer)
        → Holds
            (FitsRecord setup site w0)
            (Reported setup site w0)
            (delete_site setup site job_key (after_deletions setup site job_key runs w0) answers)
    delete_site-Reported job_key runs answers =
        delete_site-Holds job_key (after_deletions setup site job_key runs w0) answers (
          after_deletions-FitsRecord job_key runs w0
            (subst (λ o. FitsWith setup site w0 o w0) (sym untouched.saved) refl))
