-- ===== src/Provision/Deletion/Order.antt =====
-- The order in which the runs of `DeleteSite` of internal/provision/delete_site.go take things away.
use mathlib.Core.Path.{subst}
use wpx.Prelude.{String, Bool, true, false, ◌≡◌, refl, sym, ◌⊎◌, inl, inr, some, Option-cases, List}
use wpx.Model.Site.{Site}
use wpx.Provision.Attempt.{Answer}
use wpx.Provision.Deletion.Names.{Record, Setup, Resources}
use wpx.Provision.Deletion.Quiet.{Spared, Spared-refl}
use wpx.Provision.Deletion.Stages.{
  Apart, InStage, Stopped, NoProcesses, Erased, FitsWith, FitsRecord,
}
use wpx.Provision.Deletion.Runs.{Untouched, after_deletions}
use wpx.Provision.Deletion.Series.{after_deletions-FitsRecord}

module _ (setup : Setup) (site : Site) where
  -- What has stopped, by the record that stands.
  pub record Halted (w : Resources) : Type 0 where
    pub record_of : Record
    pub saved : w.saved ≡ some record_of
    pub stopped : Stopped setup site record_of.php_versions w
    pub off : NoProcesses setup site record_of.identity w

  pub record Emptied (w : Resources) : Type 0 where
    pub record_of : Record
    pub saved : w.saved ≡ some record_of
    pub erased : Erased setup site record_of w

  module _ (w0 : Resources) (apart : Apart setup site) (untouched : Untouched setup site w0) where
    Spared-or_Halted :
        (r : Record) (w : Resources) (b d : Bool)
        → w.saved ≡ some r
        → InStage setup site w0 b d r w
        → Spared setup site w0 w ⊎ Halted w
    Spared-or_Halted r w false false e s = inl s.spared
    Spared-or_Halted r w false true e s = absurd s
    Spared-or_Halted r w true false e s = elim s.spared [
      | inl spared ↦ inl spared
      | inr off ↦ inr (record { record_of = r; saved = e; stopped = s.stopped; off = off })
    ]
    Spared-or_Halted r w true true e s =
        inr (record { record_of = r; saved = e; stopped = s.stopped; off = s.erased.processes })

    kept_or_Emptied :
        (r : Record) (w : Resources) (b d : Bool)
        → w.saved ≡ some r
        → InStage setup site w0 b d r w
        → (w.account ≡ w0.account) ⊎ Emptied w
    kept_or_Emptied r w false false e s = inl s.account
    kept_or_Emptied r w false true e s = absurd s
    kept_or_Emptied r w true false e s = elim s.account [
      | inl same ↦ inl same
      | inr erased ↦ inr (record { record_of = r; saved = e; erased = erased })
    ]
    kept_or_Emptied r w true true e s = inr (record { record_of = r; saved = e; erased = s.erased })

    after_fits :
        (job_key : String) (runs : List (List Answer))
        → FitsRecord setup site w0 (after_deletions setup site job_key runs w0)
    after_fits job_key runs =
        after_deletions-FitsRecord setup site w0 apart untouched job_key runs w0
          (subst (λ o. FitsWith setup site w0 o w0) (sym untouched.saved) refl)

    by_record :
        (Same Else : Resources → Type 0) (w : Resources)
        → FitsRecord setup site w0 w
        → (w ≡ w0 → Same w)
        → ((r : Record)
            → w.saved ≡ some r
            → InStage setup site w0 r.is_runtime_stopped r.is_done r w
            → Same w ⊎ Else w)
        → Same w ⊎ Else w
    by_record Same Else w s at_start at_record = elim (Option-cases w.saved) [
      | inl e ↦ inl (at_start (subst (λ o. FitsWith setup site w0 o w) e s))
      | inr (r, e) ↦ at_record r e (subst (λ o. FitsWith setup site w0 o w) e s)
    ]

    -- Let the configured roots put no traffic link, PHP pool or Node unit among the tree and the
    -- database's secret, and no traffic link or PHP pool in the place of the Node unit, and let the
    -- host at the start have no record of the job, a source for every scheduled command that cron
    -- reads, no running Node service without its unit, and nothing below a site directory that is
    -- not there. After any sequence of runs, either the tree, the secret, the database and its user
    -- are as they were, or by the record that stands the traffic, the runtimes, the Node service,
    -- the scheduled commands and the FTP users have stopped and, if the record has an identity, no
    -- process of the account is left.
    pub after_deletions-Spared :
        (job_key : String) (runs : List (List Answer))
        → Spared setup site w0 (after_deletions setup site job_key runs w0)
          ⊎ Halted (after_deletions setup site job_key runs w0)
    after_deletions-Spared job_key runs =
        by_record (Spared setup site w0) Halted (after_deletions setup site job_key runs w0)
          (after_fits job_key runs)
          (λ e. subst (λ v. Spared setup site w0 v) (sym e) (Spared-refl setup site w0))
          (λ r e s.
            Spared-or_Halted r (after_deletions setup site job_key runs w0) r.is_runtime_stopped
              r.is_done e s)

    -- Let the configured roots put no traffic link, PHP pool or Node unit among the tree and the
    -- database's secret, and no traffic link or PHP pool in the place of the Node unit, and let the
    -- host at the start have no record of the job, a source for every scheduled command that cron
    -- reads, no running Node service without its unit, and nothing below a site directory that is
    -- not there. After any sequence of runs, either the account is as it was, or by the record that
    -- stands the tree, the files that every site may have and the recorded database with its secret
    -- are gone, and no process of the account is left: the number of the account is not given away
    -- before its files.
    pub after_deletions-account :
        (job_key : String) (runs : List (List Answer))
        → ((after_deletions setup site job_key runs w0).account ≡ w0.account)
          ⊎ Emptied (after_deletions setup site job_key runs w0)
    after_deletions-account job_key runs =
        by_record (λ v. v.account ≡ w0.account) Emptied (after_deletions setup site job_key runs w0)
          (after_fits job_key runs) (λ e. subst (λ v. v.account ≡ w0.account) (sym e) refl)
          (λ r e s.
            kept_or_Emptied r (after_deletions setup site job_key runs w0) r.is_runtime_stopped
              r.is_done e s)
