-- ===== src/Provision/DomainChange/Verdicts.antt =====
-- One run of `ChangeDomain` in internal/provision/domain_change.go by what it finds: refusals,
-- journals that are settled, and the boundary.
use mathlib.Core.Path.{subst}
use mathlib.Core.List.{Memᴰ}
use wpx.Prelude.{
  ℕ, String, Bool, true, false, ◌≡◌, ◌≢◌, ◌&&◌, ◌∙◌, ap, arith, eq_iff, leb, List, [], ◌∷◌, Option,
  none, some, refl, sym, inl, inr, Bool-cases, ◌⊎◌,
}
use wpx.Text.{Text, codes, contains, ◌=ᵗ◌}
use wpx.Text.Laws.{=ᵗ_eq, =ᵗ_refl}
use wpx.Model.Site.{
  Site, SiteStatus, domain_changing, DomainChange, Url, byte_length, valid_domain_change,
}
use wpx.Provision.Attempt.{Answer, succeeds, returned, Holds, give_back, inspects-Holds}
use wpx.Provision.Vhosts.{absent, file_of}
use wpx.Provision.Journal.{
  Host, Journal, JournalState, changing, rolling_back, restoring_traffic, activating, complete,
  restored, unknown_state, Reply, changed, previous_restored, failed, is_readable, write_vhosts,
  write_all, reload,
}
use wpx.Provision.Recovery.{in_state}
use wpx.Provision.DomainChange.{
  finish_activation, serve_with, is_own, resume_in, resume, start, is_awaiting, valid_job_key,
  change_domain,
}
use wpx.Provision.DomainChange.Phases.{Case, plain_vhost}

abbrev pub is_permitted : (String → Option Url) → Site → DomainChange → String → Bool
is_permitted parse_url site change job_key =
    valid_domain_change parse_url site change && is_awaiting site.status && valid_job_key job_key

module _ (parse_url : String → Option Url) (render : Site → Text → Option Text) (site : Site)
    (change : DomainChange) (job_key : String) where
  -- Why a run is refused: the change is not valid or the site not awaiting one, the key of the job
  -- is empty, too long or holds a character that it must not, or the journal is another operation's.
  pub data Objection (w : Host) : Type 0 where
    not_valid : valid_domain_change parse_url site change ≡ false → Objection w
    not_awaiting : site.status ≢ domain_changing → Objection w
    empty_key : job_key ≡ "" → Objection w
    long_key : leb (byte_length (codes job_key)) 160 ≡ false → Objection w
    broken_key :
        (character : ℕ)
        → Memᴰ character (0 ∷ (13 ∷ (10 ∷ [])))
        → contains character (codes job_key) ≡ true
        → Objection w
    other_format : (j : Journal) → w.journal ≡ some j → j.version ≢ 1 → Objection w
    other_site : (j : Journal) → w.journal ≡ some j → j.site_id ≢ site.id → Objection w
    other_job : (j : Journal) → w.journal ≡ some j → j.job_key ≢ job_key → Objection w
    other_domain :
        (j : Journal) → w.journal ≡ some j → j.change.domain ≢ change.domain → Objection w
    other_previous_domain :
        (j : Journal)
        → w.journal ≡ some j
        → j.change.previous_domain ≢ change.previous_domain
        → Objection w

  -- What an objection comes to in the tests of a run.
  abbrev Refused : Host → Type 0
  Refused w =
      (is_permitted parse_url site change job_key ≡ false)
      ⊎ ((j : Journal) × (w.journal ≡ some j) × (is_own site change job_key j ≡ false))

  waits_for : (status : SiteStatus) → status ≢ domain_changing → is_awaiting status ≡ false
  waits_for domain_changing h = absurd (h refl)
  waits_for _ h = refl

  broken-refused :
      (character : ℕ)
      → Memᴰ character (0 ∷ (13 ∷ (10 ∷ [])))
      → contains character (codes job_key) ≡ true
      → is_permitted parse_url site change job_key ≡ false
  broken-refused character (Memᴰ.head e) h =
      let found : contains 0 (codes job_key) ≡ true =
        ap (λ n. contains n (codes job_key)) (sym e) ∙ h in
      ground arith
  broken-refused character (Memᴰ.tail (Memᴰ.head e)) h =
      let found : contains 13 (codes job_key) ≡ true =
        ap (λ n. contains n (codes job_key)) (sym e) ∙ h in
      ground arith
  broken-refused character (Memᴰ.tail (Memᴰ.tail (Memᴰ.head e))) h =
      let found : contains 10 (codes job_key) ≡ true =
        ap (λ n. contains n (codes job_key)) (sym e) ∙ h in
      ground arith
  broken-refused character (Memᴰ.tail (Memᴰ.tail (Memᴰ.tail m))) h = elim m [ ]

  Objection-Refused : (w : Host) → Objection w → Refused w
  unfolding is_own
  Objection-Refused w (not_valid e) = inl (rw e refl)
  Objection-Refused w (not_awaiting other) =
      let e = waits_for site.status other in inl (ground arith)
  Objection-Refused w (empty_key e) =
      let nothing : (codes job_key =ᵗ []) ≡ true = ap (λ key. codes key =ᵗ []) e ∙ =ᵗ_refl [] in
      inl (ground arith)
  Objection-Refused w (long_key e) = inl (ground arith)
  Objection-Refused w (broken_key character m h) = inl (broken-refused character m h)
  Objection-Refused w (other_format j e other) = inr (j, e, ground arith)
  Objection-Refused w (other_site j e other) = inr (j, e, ground (arith, eq_iff j.site_id site.id))
  Objection-Refused w (other_job j e other) = inr (j, e, ground (arith, eq_iff j.job_key job_key))
  Objection-Refused w (other_domain j e other) =
      inr (j, e, ground (arith, =ᵗ_eq j.change.domain change.domain))
  Objection-Refused w (other_previous_domain j e other) =
      inr (j, e, ground (arith, =ᵗ_eq j.change.previous_domain change.previous_domain))

  refused :
      (w : Host) (answers : List Answer)
      → Refused w
      → Holds
          (λ v. v ≡ w)
          (λ r v. (r ≡ failed) × (v ≡ w))
          (change_domain parse_url render site change job_key w answers)
  unfolding change_domain
  refused w answers (inl e) = rw e (refl, refl)
  refused w answers (inr (j, recorded, foreign)) =
      elim (Bool-cases (is_permitted parse_url site change job_key)) [
        | inr e ↦ rw e (refl, refl)
        | inl e ↦ rw e (
            inspects-Holds (λ v. v ≡ w) (λ r v. (r ≡ failed) × (v ≡ w)) (give_back failed)
              (λ v. start render site change job_key v.journal v) w answers refl (λ _. (refl, refl))
              (λ rest. rw recorded (rw foreign (refl, refl))))
      ]

  -- A change that is not valid, a site that is not awaiting one, a job key that is empty, longer
  -- than 160 bytes or holds a zero byte or a line break, and a journal of another format, site,
  -- job, new domain or previous domain each make a run fail without changing the host.
  pub change_domain_refuses :
      (w : Host) (answers : List Answer)
      → Objection w
      → Holds
          (λ v. v ≡ w)
          (λ r v. (r ≡ failed) × (v ≡ w))
          (change_domain parse_url render site change job_key w answers)
  change_domain_refuses w answers why = refused w answers (Objection-Refused w why)

  -- What a journal says once and for all.
  abbrev pub verdict : JournalState → Option Reply
  verdict complete = some changed
  verdict restored = some previous_restored
  verdict _ = none

  -- With a journal that is complete, or restored, a run leaves the host as it is and reports that
  -- verdict or an error, never the other verdict.
  pub change_domain_final :
      (w : Host) (answers : List Answer) (j : Journal) (r : Reply)
      → w.journal ≡ some j
      → verdict j.state ≡ some r
      → Holds
          (λ v. v ≡ w)
          (λ x v. ((x ≡ r) ⊎ (x ≡ failed)) × (v ≡ w))
          (change_domain parse_url render site change job_key w answers)
  unfolding change_domain resume
  change_domain_final w answers j r recorded said =
      elim (Bool-cases (is_permitted parse_url site change job_key)) [
        | inr e ↦ rw e (inr refl, refl)
        | inl e ↦ rw e (
            inspects-Holds S0 Q0 (give_back failed)
              (λ v. start render site change job_key v.journal v) w answers refl
              (λ _. (inr refl, refl))
              (λ rest.
                subst (λ o. Holds S0 Q0 (start render site change job_key o w rest)) (sym recorded)
                  (found rest)))
      ]
    where
      S0 : Host → Type 0
      S0 v = v ≡ w

      Q0 : Reply → Host → Type 0
      Q0 x v = ((x ≡ r) ⊎ (x ≡ failed)) × (v ≡ w)

      by_state :
          (state : JournalState) (rest : List Answer)
          → verdict state ≡ some r
          → Holds S0 Q0 (resume_in render site change j state w rest)
      by_state complete rest h = (inl cc, refl)
      by_state restored rest h = (inl cc, refl)
      by_state changing rest h = cc
      by_state rolling_back rest h = cc
      by_state restoring_traffic rest h = cc
      by_state activating rest h = cc
      by_state (unknown_state x) rest h = cc

      found : (rest : List Answer) → Holds S0 Q0 (start render site change job_key (some j) w rest)
      found rest = elim (Bool-cases (is_own site change job_key j)) [
        | inr foreign ↦ rw foreign (inr refl, refl)
        | inl own ↦ rw own (by_state j.state rest said)
      ]

abbrev pub success : Text → Answer
success database = record {
  ending = succeeds;
  took_effect = true;
  database = database;
  remaining = false;
  leaves = λ _. false;
}

abbrev pub activated : Text → Journal → Host → Host
activated generated j w = record w {
  http = file_of (plain_vhost generated);
  tls = file_of absent;
  loaded = (file_of (plain_vhost generated), file_of absent);
  journal = some (in_state complete j);
}

-- A permitted run that finds its own journal activating, managed files and a configuration for the
-- new domain returns success within nine calls that all succeed, with that configuration in place
-- and loaded, no TLS and the journal complete.
pub change_domain_activates :
    (parse_url : String → Option Url) (c : Case) (job_key : String) (w : Host) (j : Journal)
    (generated a : Text) (rest : List Answer)
    → is_permitted parse_url c.site c.change job_key ≡ true
    → w.journal ≡ some j
    → is_own c.site c.change job_key j ≡ true
    → j.state ≡ activating
    → c.render c.site j.change.domain ≡ some generated
    → is_readable w.http && is_readable w.tls ≡ true
    → change_domain parse_url c.render c.site c.change job_key w (
        success a
        ∷ success a
        ∷ success a
        ∷ success a
        ∷ success a
        ∷ success a
        ∷ success a
        ∷ success a
        ∷ success a
        ∷ rest)
      ≡ returned changed (activated generated j w) rest
unfolding change_domain resume finish_activation serve_with write_vhosts write_all reload
change_domain_activates parse_url c job_key w j generated a rest permitted recorded own state
      rendered readable =
    rw permitted (rw recorded (rw own (rw state (rw rendered (rw readable refl)))))
