-- ===== src/Provision/Deletion/Refusals.antt =====
-- The runs of `DeleteSite` of internal/provision/delete_site.go that take nothing away.
use mathlib.Core.Path.{subst}
use wpx.Prelude.{
  String, Bool, true, false, ◌≡◌, refl, sym, inl, inr, Bool-cases, Option, none, some, List, ◌&&◌,
  if◌then◌else◌,
}
use wpx.Text.{Text}
use wpx.Model.Site.{Site, valid_site}
use wpx.Provision.Attempt.{Answer, Run, Holds, give_back, inspects-Holds}
use wpx.Provision.Deletion.Names.{
  Record, Setup, Resources, Verdict, P, deleted, failed, check, reads,
}
use wpx.Provision.Deletion.Checks.{deletion_configuration, is_configured, is_journal_safe}
use wpx.Provision.Deletion.Listing.{is_own_record, site_deletion_files}
use wpx.Provision.Deletion.{
  carry_out_deletion, is_verified, resume_record, is_recorded, inspection, resume_deletion,
  start_with, awaits_deletion, valid_deletion_key, delete_site,
}

abbrev Failing : Verdict → Type 0
Failing verdict = verdict ≡ failed

abbrev pub Any : Verdict → Type 0
Any verdict = Unit {0}

module _ (setup : Setup) (site : Site) where
  -- The tests of `DeleteSite` before it looks at the host.
  abbrev pub may_start : String → Bool
  may_start job_key =
      valid_site setup.parse_url site
      && awaits_deletion site.status
      && valid_deletion_key job_key
      && is_configured setup

  -- A run that changes nothing and reports what is allowed.
  abbrev pub Idles : (Verdict → Type 0) → Resources → Run Resources Verdict → Type 0
  Idles Allowed w = Holds (λ v. v ≡ w) (λ verdict v. Allowed verdict × (v ≡ w))

  -- A run that changes nothing and fails.
  abbrev pub Refuses : Resources → Run Resources Verdict → Type 0
  Refuses = Idles (λ verdict. verdict ≡ failed)

  module _ (Allowed : Verdict → Type 0) (may_fail : Allowed failed) where
    reads-Idles :
        (next : P) (w : Resources) (answers : List Answer)
        → ((rest : List Answer) → Idles Allowed w (next w rest))
        → Idles Allowed w (reads next w answers)
    reads-Idles next w answers n =
        inspects-Holds (λ v. v ≡ w) (λ verdict v. Allowed verdict × (v ≡ w)) (give_back failed) next
          w answers refl (λ _. (may_fail, refl)) n

    if-Idles :
        (b : Bool) (next : P) (w : Resources) (answers : List Answer)
        → (b ≡ true → Idles Allowed w (next w answers))
        → Idles Allowed w ((if b then next else give_back failed) w answers)
    if-Idles true next w answers n = n refl
    if-Idles false next w answers n = (may_fail, refl)

    abbrev starts : P
    starts w = start_with setup site (deletion_configuration setup site w.files) w.saved w

    start_with-Idles :
        (r : Record) (w : Resources) (answers : List Answer) (o : Option Record)
        → o ≡ some r
        → (c : Option Text)
        → ((configuration : Text)
            → c ≡ some configuration
            → Idles Allowed w (resume_deletion setup site configuration r w answers))
        → Idles Allowed w (start_with setup site c o w answers)
    start_with-Idles r w answers o e none resumes = (may_fail, refl)
    start_with-Idles r w answers o e (some configuration) resumes =
        subst (λ x. Idles Allowed w (start_with setup site (some configuration) x w answers))
          (sym e) (resumes configuration refl)

    -- The tests before the record is read change nothing.
    reaches-Idles :
        (job_key : String) (w : Resources) (answers : List Answer)
        → (may_start job_key ≡ true → (rest : List Answer) → Idles Allowed w (starts w rest))
        → Idles Allowed w (delete_site setup site job_key w answers)
    unfolding delete_site
    reaches-Idles job_key w answers n =
        if-Idles (may_start job_key)
          (reads (check (λ v. is_journal_safe setup site v.files) (reads starts))) w answers
          (λ started.
            reads-Idles (check (λ v. is_journal_safe setup site v.files) (reads starts)) w answers
              (λ more.
                if-Idles (is_journal_safe setup site w.files) (reads starts) w more
                  (λ _. reads-Idles starts w more (n started))))

    -- What a run does about a record that it finds.
    finds-Idles :
        (job_key : String) (r : Record) (w : Resources) (answers : List Answer)
        → w.saved ≡ some r
        → ((configuration : Text) (rest : List Answer)
            → deletion_configuration setup site w.files ≡ some configuration
            → Idles Allowed w (resume_deletion setup site configuration r w rest))
        → Idles Allowed w (delete_site setup site job_key w answers)
    finds-Idles job_key r w answers saved resumes = reaches-Idles job_key w answers (λ _ rest.
        start_with-Idles r w rest w.saved saved (deletion_configuration setup site w.files)
          (λ configuration e. resumes configuration rest e))

  -- Why a run is refused, in the tests of the code.
  pub data Flaw (job_key : String) (w : Resources) : Type 0 where
    not_started : may_start job_key ≡ false → Flaw job_key w
    other_operation :
        (r : Record)
        → w.saved ≡ some r
        → ((configuration : Text)
            → deletion_configuration setup site w.files ≡ some configuration
            → is_own_record setup site configuration r ≡ false)
        → Flaw job_key w
    other_account :
        (r : Record)
        → w.saved ≡ some r
        → r.is_done ≡ false
        → is_recorded r.identity (inspection setup site w) ≡ false
        → Flaw job_key w
    unverified :
        (r : Record)
        → w.saved ≡ some r
        → r.is_done ≡ false
        → is_verified setup site r w ≡ false
        → Flaw job_key w

  -- A record that is open wants its account and its verified files.
  open-Refuses :
      (configuration : Text) (r : Record) (w : Resources) (answers : List Answer)
      → r.is_done ≡ false
      → (is_recorded r.identity (inspection setup site w) ≡ true
          → is_verified setup site r w ≡ true
          → ⊥)
      → Refuses w (resume_deletion setup site configuration r w answers)
  unfolding resume_deletion resume_record site_deletion_files
  open-Refuses configuration r w answers is_open never =
      elim (Bool-cases (is_own_record setup site configuration r)) [
        | inr e ↦ rw e (refl, refl)
        | inl e ↦ rw e (
            subst (λ b. Refuses w ((if b then give_back deleted else checks) w answers))
              (sym is_open)
              (reads-Idles Failing refl
                (check (λ v. is_recorded r.identity (inspection setup site v))
                  (resume_record setup site r))
                w answers
                (λ rest.
                  if-Idles Failing refl (is_recorded r.identity (inspection setup site w))
                    (resume_record setup site r) w rest
                    (λ recorded.
                      if-Idles Failing refl (is_verified setup site r w)
                        (carry_out_deletion setup site (site_deletion_files setup site w.files) r) w
                        rest (λ can. absurd (never recorded can))))))
      ]
    where
      checks : P
      checks = reads (
          check (λ v. is_recorded r.identity (inspection setup site v))
            (resume_record setup site r))

  other_record :
      (configuration : Text) (r : Record) (w : Resources) (answers : List Answer)
      → is_own_record setup site configuration r ≡ false
      → Refuses w (resume_deletion setup site configuration r w answers)
  unfolding resume_deletion
  other_record configuration r w answers other = rw other (refl, refl)

  -- A run with a flaw changes nothing and fails.
  pub Flaw-Refuses :
      (job_key : String) (w : Resources) (answers : List Answer)
      → Flaw job_key w
      → Refuses w (delete_site setup site job_key w answers)
  Flaw-Refuses job_key w answers (not_started never) =
      reaches-Idles Failing refl job_key w answers (λ started rest. cc)
  Flaw-Refuses job_key w answers (other_operation r saved other) =
      finds-Idles Failing refl job_key r w answers saved
        (λ configuration rest e. other_record configuration r w rest (other configuration e))
  Flaw-Refuses job_key w answers (other_account r saved is_open other) =
      finds-Idles Failing refl job_key r w answers saved
        (λ configuration rest _. open-Refuses configuration r w rest is_open (λ h k. cc))
  Flaw-Refuses job_key w answers (unverified r saved is_open bad) =
      finds-Idles Failing refl job_key r w answers saved
        (λ configuration rest _. open-Refuses configuration r w rest is_open (λ h k. cc))

  -- A record that is done ends every run.
  over-Idles :
      (configuration : Text) (r : Record) (w : Resources) (answers : List Answer)
      → r.is_done ≡ true
      → Idles Any w (resume_deletion setup site configuration r w answers)
  unfolding resume_deletion
  over-Idles configuration r w answers done =
      elim (Bool-cases (is_own_record setup site configuration r)) [
        | inr e ↦ rw e (tt, refl)
        | inl e ↦ rw e (
            subst
              (λ b. Idles Any w (
                (if b
                    then give_back deleted
                    else reads (
                        check (λ v. is_recorded r.identity (inspection setup site v))
                          (resume_record setup site r)))
                  w answers))
              (sym done) (tt, refl))
      ]

  -- Once the record is done, a run changes nothing on the host, whatever its calls meet.
  pub delete_site_over :
      (job_key : String) (w : Resources) (answers : List Answer) (r : Record)
      → w.saved ≡ some r
      → r.is_done ≡ true
      → Idles Any w (delete_site setup site job_key w answers)
  delete_site_over job_key w answers r saved done =
      finds-Idles Any tt job_key r w answers saved
        (λ configuration rest _. over-Idles configuration r w rest done)
