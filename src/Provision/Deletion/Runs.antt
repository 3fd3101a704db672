-- ===== src/Provision/Deletion/Runs.antt =====
-- Sequences of runs of `DeleteSite` of internal/provision/delete_site.go for one job.
use mathlib.Core.Path.{subst}
use wpx.Prelude.{
  String, Bool, true, false, ◌≡◌, refl, sym, inl, inr, Bool-cases, none, some, List, [], ◌∷◌,
  if◌then◌else◌,
}
use wpx.Text.{Text}
use wpx.Model.Site.{Site}
use wpx.Provision.Attempt.{Answer, Run, stopped, returned, Holds, give_back}
use wpx.Provision.Deletion.Names.{Record, Setup, Resources, Verdict, P, deleted, check, reads}
use wpx.Provision.Deletion.Listing.{site_deletion_files, is_own_record}
use wpx.Provision.Deletion.Quiet.{SourcesCover, NodeKnown}
use wpx.Provision.Deletion.Stages.{
  Apart, InStage, Rooted, FitsWith, FitsRecord, Reported, Finished, Safely, reads-Holds, if-Holds,
}
use wpx.Provision.Deletion.Crash.{carry_out_deletion-Holds}
use wpx.Provision.Deletion.{
  carry_out_deletion, is_verified, resume_record, is_recorded, inspection, resume_deletion,
  delete_site,
}

module _ (setup : Setup) (site : Site) where
  abbrev pub resources_of : Run Resources Verdict → Resources
  resources_of (stopped w) = w
  resources_of (returned r w answers) = w

  -- The resources after a series of runs, each given by the answers of its host.
  unfoldable pub after_deletions : String → List (List Answer) → Resources → Resources
  unfolding delete_site
  after_deletions job_key [] w = w
  after_deletions job_key (answers ∷ runs) w =
      after_deletions job_key runs (resources_of (delete_site setup site job_key w answers))

  -- The resources before a deletion: no record, sources for all scheduled commands, no Node
  -- service without its unit, nothing below a directory that is not there.
  pub record Untouched (w : Resources) : Type 0 where
    pub saved : w.saved ≡ none
    pub covered : SourcesCover setup site w
    pub node : NodeKnown setup site w
    pub rooted : Rooted setup site w

  module _ (w0 : Resources) (apart : Apart setup site) (untouched : Untouched w0) where
    abbrev pub Fits : Resources → Type 0
    Fits w = FitsRecord setup site w0 w

    -- A run that carries on with its record.
    pub resume_deletion-Holds :
        (configuration : Text) (r : Record) (w : Resources) (answers : List Answer)
        → w.saved ≡ some r
        → Fits w
        → Safely setup site w0 (resume_deletion setup site configuration r) w answers
    unfolding resume_deletion resume_record site_deletion_files
    resume_deletion-Holds configuration r w answers saved s =
        elim (Bool-cases (is_own_record setup site configuration r)) [
          | inr e ↦ rw e s
          | inl e ↦ rw e (elim (Bool-cases r.is_done) [
            | inl done ↦
                subst
                  (λ b.
                    Holds Fits (Reported setup site w0)
                      ((if b then give_back deleted else open_run) w answers))
                  (sym done) (finished r.is_runtime_stopped refl done)
            | inr is_open ↦
                subst
                  (λ b.
                    Holds Fits (Reported setup site w0)
                      ((if b then give_back deleted else open_run) w answers))
                  (sym is_open)
                  (reads-Holds setup site w0
                    (check (λ v. is_recorded r.identity (inspection setup site v))
                      (resume_record setup site r))
                    w answers s
                    (λ rest.
                      if-Holds setup site w0 (is_recorded r.identity (inspection setup site w))
                        (resume_record setup site r) w rest s
                        (λ _.
                          if-Holds setup site w0 (is_verified setup site r w)
                            (carry_out_deletion setup site (site_deletion_files setup site w.files)
                              r)
                            w rest s
                            (λ _.
                              carry_out_deletion-Holds setup site w0 apart _ r w rest is_open saved
                                stage))))
          ])
        ]
      where
        open_run : P
        open_run = reads (
            check (λ v. is_recorded r.identity (inspection setup site v))
              (resume_record setup site r))

        stage : InStage setup site w0 r.is_runtime_stopped r.is_done r w
        stage = subst (λ o. FitsWith setup site w0 o w) saved s

        stage_at :
            (b : Bool)
            → r.is_runtime_stopped ≡ b
            → r.is_done ≡ true
            → InStage setup site w0 b true r w
        stage_at b e done =
            subst (λ c. InStage setup site w0 b c r w) done
              (subst (λ c. InStage setup site w0 c r.is_done r w) e stage)

        finished : (b : Bool) → r.is_runtime_stopped ≡ b → r.is_done ≡ true → Finished setup site w
        finished true e done = record {
          record_of = r;
          saved = saved;
          is_stopped = e;
          done = done;
          gone = stage_at true e done;
        }
        finished false e done = absurd (stage_at false e done)
