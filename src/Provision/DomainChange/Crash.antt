-- ===== src/Provision/DomainChange/Crash.antt =====
-- One run of `ChangeDomain` of internal/provision/domain_change.go as a whole.
use mathlib.Core.Path.{subst}
use wpx.Prelude.{
  String, Bool, true, false, ◌≡◌, ◌&&◌, List, Option, none, some, refl, sym, ap, inl, inr, ◌∙◌,
  Bool-cases, arith, if◌then◌else◌,
}
use wpx.Model.Site.{Site, Url, is_word_press, valid_domain_change}
use wpx.Provision.Attempt.{Answer, Holds, give_back, inspects, inspects-Holds}
use wpx.Provision.Vhosts.{Vhost, SiteFile, inspect_vhost, file_of}
use wpx.Provision.Journal.{
  Host, Journal, JournalState, changing, rolling_back, restoring_traffic, activating, complete,
  restored, unknown_state, Reply, previous_restored, failed, P, set_journal, write_journal,
}
use wpx.Provision.Recovery.{recover, recover_in, in_state, is_changing, rollback}
use wpx.Provision.DomainChange.{
  carry_out, can_begin, new_journal, begin_with, begin, is_own, check_word_press, resume_in, resume,
  start, is_awaiting, valid_job_key, change_domain,
}
use wpx.Provision.DomainChange.Phases.{
  Case, AtRest, Phase, Fits, ConsistentWith, Consistent, Promised,
}
use wpx.Provision.DomainChange.Restoring.{S, Q, write_journal-Holds, restore_traffic-Holds}
use wpx.Provision.DomainChange.Rollback.{recover-Holds}
use wpx.Provision.DomainChange.Forward.{finish_activation-Holds, Underway, Underway-Consistent}
use wpx.Provision.DomainChange.Carrying.{carry_out-Holds}

-- What was inspected is what the file is.
file_of-inspect_vhost :
    (file : SiteFile) (v : Vhost) → inspect_vhost file ≡ some v → file_of v ≡ file
unfolding inspect_vhost
file_of-inspect_vhost file v e = ground arith

module _ (c : Case) where
  check_word_press-Holds :
      (site : Site) (preflight : Bool) (refusal : Reply) (next : P) (w : Host)
      (answers : List Answer)
      → Consistent c w
      → Promised c refusal w
      → ((rest : List Answer) → Holds (S c) (Q c) (next w rest))
      → Holds (S c) (Q c) (check_word_press site preflight refusal next w answers)
  unfolding check_word_press
  check_word_press-Holds site preflight refusal next w answers s r n =
      elim (Bool-cases (is_word_press site.kind)) [
        | inr e ↦ rw e (n answers)
        | inl e ↦ rw e (
            inspects-Holds (S c) (Q c) (give_back failed)
              (if preflight then inspects (give_back refusal) next else next) w answers s (λ _. s)
              (checked preflight))
      ]
    where
      checked :
          (p : Bool) (rest : List Answer)
          → Holds (S c) (Q c) ((if p then inspects (give_back refusal) next else next) w rest)
      checked true rest = inspects-Holds (S c) (Q c) (give_back refusal) next w rest s (λ _. r) n
      checked false rest = n rest

  -- The journal of a new change.
  begun-Holds :
      (job_key : String) (http tls : Vhost) (w : Host) (answers : List Answer)
      → w.journal ≡ none
      → AtRest c w
      → file_of http ≡ w.http
      → file_of tls ≡ w.tls
      → Holds
          (S c)
          (Q c)
          (begin_with c.render c.site c.change job_key (some http) (some tls) w answers)
  begun-Holds job_key http tls w answers fresh rest_of same_http same_tls =
      elim (Bool-cases (can_begin c.site http tls)) [
        | inr e ↦ rw e s
        | inl e ↦ rw e (
            write_journal-Holds c j (give_back failed) (carry_out c.render c.site c.change j) w
              answers s (Underway-Consistent c j (set_journal j w) u) (λ _. s)
              (λ _. Underway-Consistent c j (set_journal j w) u)
              (λ more. carry_out-Holds c j (set_journal j w) more u))
      ]
    where
      s : Consistent c w
      s = subst (λ o. ConsistentWith c o w) (sym fresh) rest_of

      j : Journal
      j = new_journal c.site c.change job_key http tls

      u : Underway c j (set_journal j w)
      u = record {
        journal = refl;
        state = refl;
        about = record {
          change = refl;
          http = same_http ∙ rest_of.http;
          tls = same_tls ∙ rest_of.tls;
        };
        pending = record {
          untouched = λ _. rest_of.database;
          copied = λ h. cc;
          has_copy = λ h. cc;
          paused = λ h. cc;
        };
      }

  begin-Holds :
      (job_key : String) (w : Host) (answers : List Answer)
      → w.journal ≡ none
      → AtRest c w
      → Holds (S c) (Q c) (begin c.render c.site c.change job_key w answers)
  unfolding begin
  begin-Holds job_key w answers fresh rest_of =
      inspects-Holds (S c) (Q c) (give_back failed)
        (λ v.
          begin_with c.render c.site c.change job_key (inspect_vhost v.http) (inspect_vhost v.tls)
            v)
        w answers s (λ _. s)
        (λ rest. inspected rest (inspect_vhost w.http) (inspect_vhost w.tls) refl refl)
    where
      s : Consistent c w
      s = subst (λ o. ConsistentWith c o w) (sym fresh) rest_of

      inspected :
          (rest : List Answer) (http tls : Option Vhost)
          → inspect_vhost w.http ≡ http
          → inspect_vhost w.tls ≡ tls
          → Holds (S c) (Q c) (begin_with c.render c.site c.change job_key http tls w rest)
      inspected rest none tls eh et = s
      inspected rest (some http) none eh et = s
      inspected rest (some http) (some tls) eh et =
          begun-Holds job_key http tls w rest fresh rest_of (file_of-inspect_vhost w.http http eh)
            (file_of-inspect_vhost w.tls tls et)

  resume-Holds :
      (j : Journal) (w : Host) (answers : List Answer)
      → w.journal ≡ some j
      → Fits c j w
      → Holds (S c) (Q c) (resume c.render c.site c.change j w answers)
  unfolding resume rollback recover
  resume-Holds j w answers journal fits = by_state j.state refl fits.1
    where
      s : Consistent c w
      s = subst (λ o. ConsistentWith c o w) (sym journal) fits

      recovered :
          (rest : List Answer)
          → is_changing j.state ≡ false
          → Holds (S c) (Q c) (recover j w rest)
          → Holds (S c) (Q c) (rollback j w rest)
      recovered rest e h =
          subst
            (λ b. Holds (S c) (Q c) (
              (if b
                  then write_journal (in_state rolling_back j) (give_back failed)
                      (recover (in_state rolling_back j))
                  else recover j)
                w rest))
            (sym e) h

      by_state :
          (state : JournalState)
          → j.state ≡ state
          → Phase c state j w
          → Holds (S c) (Q c) (resume_in c.render c.site c.change j state w answers)
      by_state complete e phase = (s, phase)
      by_state restored e phase = (s, phase)
      by_state activating e phase =
          finish_activation-Holds c j w answers
            (record { journal = journal; state = e; about = fits.0 })
      by_state changing e phase =
          check_word_press-Holds c.site true failed (carry_out c.render c.site c.change j) w answers
            s s
            (λ rest.
              carry_out-Holds c j w rest
                (record { journal = journal; state = e; about = fits.0; pending = phase }))
      by_state rolling_back e phase =
          check_word_press-Holds c.site false failed (rollback j) w answers s s (λ rest.
            recovered rest (ap is_changing e) (
              recover-Holds c j w rest
                (record { journal = journal; state = e; about = fits.0; pending = phase })))
      by_state restoring_traffic e phase =
          check_word_press-Holds c.site false failed (rollback j) w answers s s (λ rest.
            recovered rest (ap is_changing e) (
              subst (λ x. Holds (S c) (Q c) (recover_in j x w rest)) (sym e)
                (restore_traffic-Holds c j w rest
                  (record { journal = journal; state = e; about = fits.0; database = phase }))))
      by_state (unknown_state x) e phase = s

  start-Holds :
      (job_key : String) (w : Host) (answers : List Answer)
      → Consistent c w
      → Holds (S c) (Q c) (start c.render c.site c.change job_key w.journal w answers)
  start-Holds job_key w answers s = by_journal w.journal refl s
    where
      by_journal :
          (o : Option Journal)
          → w.journal ≡ o
          → ConsistentWith c o w
          → Holds (S c) (Q c) (start c.render c.site c.change job_key o w answers)
      by_journal none e at_rest =
          check_word_press-Holds c.site true previous_restored
            (begin c.render c.site c.change job_key) w answers s (s, at_rest)
            (λ rest. begin-Holds job_key w rest e at_rest)
      by_journal (some j) e fits = elim (Bool-cases (is_own c.site c.change job_key j)) [
        | inr foreign ↦ rw foreign s
        | inl own ↦ rw own (resume-Holds j w answers e fits)
      ]

  pub change_domain-Holds :
      (parse_url : String → Option Url) (job_key : String) (w : Host) (answers : List Answer)
      → Consistent c w
      → Holds
          (Consistent c)
          (Promised c)
          (change_domain parse_url c.render c.site c.change job_key w answers)
  unfolding change_domain
  change_domain-Holds parse_url job_key w answers s =
      elim (Bool-cases (
        valid_domain_change parse_url c.site c.change
        && is_awaiting c.site.status
        && valid_job_key job_key)) [
          | inr e ↦ rw e s
          | inl e ↦ rw e (
              inspects-Holds (S c) (Q c) (give_back failed)
                (λ v. start c.render c.site c.change job_key v.journal v) w answers s (λ _. s)
                (λ rest. start-Holds job_key w rest s))
        ]
