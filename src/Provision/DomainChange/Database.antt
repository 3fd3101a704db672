-- ===== src/Provision/DomainChange/Database.antt =====
-- The database behind the boundary: the runs of `ChangeDomain` in
-- internal/provision/domain_change.go that find a journal past its last look at the database.
use mathlib.Core.Path.{subst}
use wpx.Prelude.{
  String, Bool, true, false, ◌≡◌, ◌&&◌, List, Option, none, some, refl, sym, ap, inl, inr,
  Bool-cases, if◌then◌else◌,
}
use wpx.Text.{Text}
use wpx.Model.Site.{Site, DomainChange, Url, is_word_press, valid_domain_change}
use wpx.Provision.Attempt.{Answer, Holds, give_back, attempt, attempt-Holds, inspects-Holds}
use wpx.Provision.Vhosts.{Vhost, absent}
use wpx.Provision.Journal.{
  Host, Journal, JournalState, changing, rolling_back, restoring_traffic, activating, complete,
  restored, unknown_state, Reply, changed, previous_restored, failed, set_http, set_tls, load_files,
  set_journal, write_journal, write_vhosts, reload,
}
use wpx.Provision.Recovery.{recover, recover_in, in_state, is_changing, restore_traffic, rollback}
use wpx.Provision.DomainChange.{
  finish_activation, serve_with, is_own, check_word_press, resume_in, resume, start, is_awaiting,
  valid_job_key, change_domain,
}
use wpx.Provision.DomainChange.Writing.{write_vhosts-Holds}
use wpx.Provision.DomainChange.Restoring.{Closed-writes}

-- The states from which the database is left alone.
abbrev pub is_past : JournalState → Bool
is_past restoring_traffic = true
is_past activating = true
is_past complete = true
is_past restored = true
is_past _ = false

-- The host has this database, and a journal that is past it.
pub record PastDatabase (contents : Text) (w : Host) : Type 0 where
  pub database : w.database ≡ contents
  pub journal : Journal
  pub recorded : w.journal ≡ some journal
  pub is_over : is_past journal.state ≡ true

module _ (contents : Text) where
  abbrev pub D : Host → Type 0
  D = PastDatabase contents

  abbrev R : Reply → Host → Type 0
  R r w = PastDatabase contents w

  recorded-D : (j : Journal) (w : Host) → is_past j.state ≡ true → D w → D (set_journal j w)
  recorded-D j w over d = record {
    database = d.database;
    journal = j;
    recorded = refl;
    is_over = over;
  }

  -- Files, a reload of Nginx, and a journal that is past the database.
  served-Holds :
      (http tls : Vhost) (j : Journal) (r : Reply) (w : Host) (answers : List Answer)
      → is_past j.state ≡ true
      → D w
      → Holds D R (
          write_vhosts http tls
            (give_back failed)
            (reload (give_back failed) (write_journal j (give_back failed) (give_back r)))
            w
            answers)
  unfolding reload
  served-Holds http tls j r w answers over d =
      write_vhosts-Holds D R D http tls (give_back failed)
        (reload (give_back failed) (write_journal j (give_back failed) (give_back r))) w answers
        (Closed-writes D set_http http (λ f v e. record {
          database = e.database;
          journal = e.journal;
          recorded = e.recorded;
          is_over = e.is_over;
        }))
        (Closed-writes D set_tls tls (λ f v e. record {
          database = e.database;
          journal = e.journal;
          recorded = e.recorded;
          is_over = e.is_over;
        }))
        (λ _ e. e) (λ _ _ e. e)
        (λ v rest e _ _.
          inspects-Holds D R (give_back failed)
            (attempt (λ a x. load_files x) (give_back failed)
              (write_journal j (give_back failed) (give_back r)))
            v rest e (λ _. e)
            (λ more.
              attempt-Holds D R (λ a x. load_files x) (give_back failed)
                (write_journal j (give_back failed) (give_back r)) v more e (λ _. loaded v e)
                (λ _. e) (λ _ _. loaded v e)
                (λ _ most.
                  attempt-Holds D R (λ a x. set_journal j x) (give_back failed) (give_back r)
                    (load_files v) most (loaded v e)
                    (λ _. recorded-D j (load_files v) over (loaded v e)) (λ _. loaded v e)
                    (λ _ _. recorded-D j (load_files v) over (loaded v e))
                    (λ _ _. recorded-D j (load_files v) over (loaded v e)))))
        d
    where
      loaded : (v : Host) → D v → D (load_files v)
      loaded v e = record {
        database = e.database;
        journal = e.journal;
        recorded = e.recorded;
        is_over = e.is_over;
      }

  finish_activation-D :
      (render : Site → Text → Option Text) (site : Site) (j : Journal) (w : Host)
      (answers : List Answer)
      → D w
      → Holds D R (finish_activation render site j w answers)
  unfolding finish_activation serve_with
  finish_activation-D render site j w answers d = by_rendering (render site j.change.domain)
    where
      by_rendering : (o : Option Text) → Holds D R (serve_with j o w answers)
      by_rendering none = d
      by_rendering (some generated) =
          served-Holds (record { content = generated; exists = true; is_enabled = true }) absent
            (in_state complete j) changed w answers refl d

  rollback-D :
      (j : Journal) (w : Host) (answers : List Answer)
      → j.state ≡ restoring_traffic
      → D w
      → Holds D R (rollback j w answers)
  unfolding rollback recover restore_traffic
  rollback-D j w answers e d =
      subst
        (λ b. Holds D R (
          (if b
              then write_journal (in_state rolling_back j) (give_back failed)
                  (recover (in_state rolling_back j))
              else recover j)
            w answers))
        (sym (ap is_changing e))
        (subst (λ state. Holds D R (recover_in j state w answers)) (sym e)
          (served-Holds j.http j.tls (in_state restored j) previous_restored w answers refl d))

  resume-D :
      (render : Site → Text → Option Text) (site : Site) (change : DomainChange) (j : Journal)
      (w : Host) (answers : List Answer)
      → is_past j.state ≡ true
      → D w
      → Holds D R (resume render site change j w answers)
  unfolding resume check_word_press
  resume-D render site change j w answers over d = by_state j.state refl over
    where
      by_state :
          (state : JournalState)
          → j.state ≡ state
          → is_past state ≡ true
          → Holds D R (resume_in render site change j state w answers)
      by_state complete e p = d
      by_state restored e p = d
      by_state activating e p = finish_activation-D render site j w answers d
      by_state restoring_traffic e p = elim (Bool-cases (is_word_press site.kind)) [
        | inr k ↦ rw k (rollback-D j w answers e d)
        | inl k ↦ rw k (
            inspects-Holds D R (give_back failed) (rollback j) w answers d (λ _. d)
              (λ rest. rollback-D j w rest e d))
      ]
      by_state changing e p = cc
      by_state rolling_back e p = cc
      by_state (unknown_state x) e p = cc

  pub change_domain-D :
      (parse_url : String → Option Url) (render : Site → Text → Option Text) (site : Site)
      (change : DomainChange) (job_key : String) (w : Host) (answers : List Answer)
      → D w
      → Holds D R (change_domain parse_url render site change job_key w answers)
  unfolding change_domain
  change_domain-D parse_url render site change job_key w answers d =
      elim (Bool-cases (
        valid_domain_change parse_url site change
        && is_awaiting site.status
        && valid_job_key job_key)) [
          | inr e ↦ rw e d
          | inl e ↦ rw e (
              inspects-Holds D R (give_back failed)
                (λ v. start render site change job_key v.journal v) w answers d (λ _. d)
                (λ rest.
                  subst (λ o. Holds D R (start render site change job_key o w rest))
                    (sym d.recorded) (found rest)))
        ]
    where
      found :
          (rest : List Answer)
          → Holds D R (start render site change job_key (some d.journal) w rest)
      found rest = elim (Bool-cases (is_own site change job_key d.journal)) [
        | inr foreign ↦ rw foreign d
        | inl own ↦ rw own (resume-D render site change d.journal w rest d.is_over d)
      ]
