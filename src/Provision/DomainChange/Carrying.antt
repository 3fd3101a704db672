-- ===== src/Provision/DomainChange/Carrying.antt =====
-- The change itself: pausing the traffic, copying and rewriting the database (the body of
-- `ChangeDomain` in internal/provision/domain_change.go), and the phases of the host.
use mathlib.Core.Path.{subst}
use wpx.Prelude.{
  Bool, true, false, ◌≡◌, List, [], some, refl, sym, ap, inl, inr, ◌∙◌, Bool-cases, if◌then◌else◌,
}
use wpx.Text.{◌=ᵗ◌}
use wpx.Model.Site.{is_word_press}
use wpx.Provision.Attempt.{Answer, Holds, attempt-Holds, inspects-Holds}
use wpx.Provision.Vhosts.{SiteFile, file_of}
use wpx.Provision.Journal.{
  Host, Journal, P, set_http, set_tls, load_files, set_journal, reload, write_journal,
}
use wpx.Provision.Recovery.{rollback}
use wpx.Provision.DomainChange.{
  gate, maintenance_tls, activate, commands, run_commands, export_database, with_backup, with_start,
  rewrite_database, change_database, carry_out,
}
use wpx.Provision.DomainChange.Phases.{Case, Paused, Pending, Consistent}
use wpx.Provision.DomainChange.Writing.{write_vhosts-Holds}
use wpx.Provision.DomainChange.Restoring.{S, Q, reload-Holds, write_journal-Holds}
use wpx.Provision.DomainChange.Rollback.{Ready, rollback-Holds}
use wpx.Provision.DomainChange.Forward.{
  Closed-same, activate-Holds, Underway, Underway-Consistent, Underway-Ready, run_commands-Holds,
}

module _ (c : Case) where
  -- What is pending does not look at the journal on the host.
  set_journal-Pending : (j k : Journal) (w : Host) → Pending c j w → Pending c j (set_journal k w)
  set_journal-Pending j k w p = record {
    untouched = p.untouched;
    copied = p.copied;
    has_copy = p.has_copy;
    paused = λ h. let q = p.paused h in record { http = q.http; tls = q.tls; loaded = q.loaded };
  }

  -- A change under way whose next journal is not written yet, and the same with it written.
  Ready-Underway : (j : Journal) (w : Host) → Ready c j w → Underway c j (set_journal j w)
  Ready-Underway j w r = record {
    journal = refl;
    state = r.state;
    about = r.about;
    pending = set_journal-Pending j j w r.pending;
  }

  -- The journal is written, and the change goes on.
  next_journal-Holds :
      (j : Journal) (next : P) (w : Host) (answers : List Answer)
      → Ready c j w
      → ((rest : List Answer)
          → Underway c j (set_journal j w)
          → Holds (S c) (Q c) (next (set_journal j w) rest))
      → Holds (S c) (Q c) (write_journal j (rollback j) next w answers)
  next_journal-Holds j next w answers r n =
      let u = Ready-Underway j w r in
      write_journal-Holds c j (rollback j) next w answers r.consistent
        (Underway-Consistent c j (set_journal j w) u) (λ rest. rollback-Holds c j w rest r)
        (λ rest. rollback-Holds c j (set_journal j w) rest (Underway-Ready c j (set_journal j w) u))
        (λ rest. n rest u)

  rewrite_database-Holds :
      (j : Journal) (w : Host) (answers : List Answer)
      → Underway c j w
      → j.backup_ready ≡ true
      → Paused c j w
      → Holds (S c) (Q c) (rewrite_database c.render c.site c.change j w answers)
  unfolding rewrite_database
  rewrite_database-Holds j w answers u copied paused =
      next_journal-Holds (with_start j)
        (run_commands (commands c.site c.change) (rollback (with_start j))
          (activate c.render c.site (with_start j)))
        w answers started
        (λ rest v.
          run_commands-Holds c (with_start j) (commands c.site c.change)
            (activate c.render c.site (with_start j)) (set_journal (with_start j) w) rest refl
            (λ x more d.
              activate-Holds c (with_start j) x more (Underway-Ready c (with_start j) x d))
            v)
    where
      started : Ready c (with_start j) w
      started = record {
        state = u.state;
        about = record { change = u.about.change; http = u.about.http; tls = u.about.tls };
        pending = record {
          untouched = λ h. cc;
          copied = u.pending.copied;
          has_copy = λ _. copied;
          paused = λ _. record { http = paused.http; tls = paused.tls; loaded = paused.loaded };
        };
        consistent = Underway-Consistent c j w u;
      }

  -- The copy has been taken.
  copied_once-Holds :
      (j : Journal) (w : Host) (answers : List Answer)
      → Underway c j w
      → w.snapshot ≡ some c.database
      → Paused c j w
      → Holds (S c) (Q c) (
          write_journal
            (with_backup j)
            (rollback (with_backup j))
            (rewrite_database c.render c.site c.change (with_backup j))
            w
            answers)
  copied_once-Holds j w answers u copied paused =
      next_journal-Holds (with_backup j) (rewrite_database c.render c.site c.change (with_backup j))
        w answers backed_up
        (λ rest v.
          rewrite_database-Holds (with_backup j) (set_journal (with_backup j) w) rest v refl
            (record { http = paused.http; tls = paused.tls; loaded = paused.loaded }))
    where
      backed_up : Ready c (with_backup j) w
      backed_up = record {
        state = u.state;
        about = record { change = u.about.change; http = u.about.http; tls = u.about.tls };
        pending = record {
          untouched = u.pending.untouched;
          copied = λ _. copied;
          has_copy = λ _. refl;
          paused = λ h.
              let q = u.pending.paused h in
              record { http = q.http; tls = q.tls; loaded = q.loaded };
        };
        consistent = Underway-Consistent c j w u;
      }

  export_database-Holds :
      (j : Journal) (w : Host) (answers : List Answer)
      → Underway c j w
      → j.backup_ready ≡ false
      → Paused c j w
      → Holds (S c) (Q c) (
          export_database
            (rollback j)
            (write_journal
              (with_backup j)
              (rollback (with_backup j))
              (rewrite_database c.render c.site c.change (with_backup j)))
            w
            answers)
  unfolding export_database
  export_database-Holds j w answers u fresh paused = elim (Bool-cases (w.database =ᵗ [])) [
    | inl e ↦ rw e (
        inspects-Holds (S c) (Q c) (rollback j) (rollback j) w answers s
          (λ rest. rollback-Holds c j w rest (Underway-Ready c j w u))
          (λ rest. rollback-Holds c j w rest (Underway-Ready c j w u)))
    | inr e ↦ rw e (
        attempt-Holds (S c) (Q c) (λ a v. record v { snapshot = some v.database }) (rollback j)
          (write_journal (with_backup j) (rollback (with_backup j))
            (rewrite_database c.render c.site c.change (with_backup j)))
          w answers s (λ _. Underway-Consistent c j _ exported)
          (λ rest. rollback-Holds c j w rest (Underway-Ready c j w u))
          (λ _ rest. rollback-Holds c j _ rest (Underway-Ready c j _ exported))
          (λ _ rest.
            copied_once-Holds j _ rest exported (ap some untouched)
              (record { http = paused.http; tls = paused.tls; loaded = paused.loaded })))
  ]
    where
      s : Consistent c w
      s = Underway-Consistent c j w u

      untouched : w.database ≡ c.database
      untouched = elim (Bool-cases j.database_started) [
        | inr e ↦ u.pending.untouched e
        | inl e ↦ let copied = u.pending.has_copy e in cc
      ]

      exported : Underway c j (record w { snapshot = some w.database })
      exported = record {
        journal = u.journal;
        state = u.state;
        about = u.about;
        pending = record {
          untouched = u.pending.untouched;
          copied = λ _. ap some untouched;
          has_copy = u.pending.has_copy;
          paused = λ h.
              let q = u.pending.paused h in
              record { http = q.http; tls = q.tls; loaded = q.loaded };
        };
      }

  change_database-Holds :
      (j : Journal) (w : Host) (answers : List Answer)
      → Underway c j w
      → Paused c j w
      → Holds (S c) (Q c) (change_database c.render c.site c.change j w answers)
  unfolding change_database
  change_database-Holds j w answers u paused = elim (Bool-cases (is_word_press c.site.kind)) [
    | inr e ↦ rw e (activate-Holds c j w answers (Underway-Ready c j w u))
    | inl e ↦ elim (Bool-cases j.backup_ready) [
      | inl b ↦ rw e (subst by_copy (sym b) (rewrite_database-Holds j w answers u b paused))
      | inr b ↦ rw e (subst by_copy (sym b) (export_database-Holds j w answers u b paused))
    ]
  ]
    where
      by_copy : Bool → Type 0
      by_copy is_copied = Holds (S c) (Q c) (
          (if is_copied
              then rewrite_database c.render c.site c.change j
              else export_database (rollback j) (
                  write_journal (with_backup j) (rollback (with_backup j))
                    (rewrite_database c.render c.site c.change (with_backup j))))
            w answers)

  pub carry_out-Holds :
      (j : Journal) (w : Host) (answers : List Answer)
      → Underway c j w
      → Holds (S c) (Q c) (carry_out c.render c.site c.change j w answers)
  unfolding carry_out
  carry_out-Holds j w answers u =
      write_vhosts-Holds (S c) (Q c) (Underway c j) (gate c.site c.change) (maintenance_tls j.tls)
        (rollback j) (reload (rollback j) (change_database c.render c.site c.change j)) w answers
        (Closed-same (Underway c j) set_http (gate c.site c.change)
          (λ f v same d. written f (λ x. x) v same refl d))
        (Closed-same (Underway c j) set_tls (maintenance_tls j.tls)
          (λ f v same d. written (λ x. x) f v refl same d))
        (Underway-Consistent c j) (λ v rest d. rollback-Holds c j v rest (Underway-Ready c j v d))
        reloaded u
    where
      written :
          (f g : SiteFile → SiteFile) (v : Host)
          → f (file_of (gate c.site c.change)) ≡ file_of (gate c.site c.change)
          → g (file_of (maintenance_tls j.tls)) ≡ file_of (maintenance_tls j.tls)
          → Underway c j v
          → Underway c j (record v { http = f v.http; tls = g v.tls })
      written f g v sf sg d = record {
        journal = d.journal;
        state = d.state;
        about = d.about;
        pending = record {
          untouched = d.pending.untouched;
          copied = d.pending.copied;
          has_copy = d.pending.has_copy;
          paused = λ h.
              let q = d.pending.paused h in
              record { http = ap f q.http ∙ sf; tls = ap g q.tls ∙ sg; loaded = q.loaded };
        };
      }

      reloaded :
          (v : Host) (rest : List Answer)
          → Underway c j v
          → v.http ≡ file_of (gate c.site c.change)
          → v.tls ≡ file_of (maintenance_tls j.tls)
          → Holds
              (S c)
              (Q c)
              (reload (rollback j) (change_database c.render c.site c.change j) v rest)
      reloaded v rest d h t =
          let paused : Paused c j (load_files v) = record {
            http = h;
            tls = t;
            loaded = rw h (rw t refl);
          } in
          let d1 : Underway c j (load_files v) = record {
            journal = d.journal;
            state = d.state;
            about = d.about;
            pending = record {
              untouched = d.pending.untouched;
              copied = d.pending.copied;
              has_copy = d.pending.has_copy;
              paused = λ _. paused;
            };
          } in
          reload-Holds c (change_database c.render c.site c.change j) (rollback j) v rest
            (Underway-Consistent c j v d) (Underway-Consistent c j (load_files v) d1)
            (λ more. rollback-Holds c j v more (Underway-Ready c j v d))
            (λ more. rollback-Holds c j (load_files v) more (Underway-Ready c j (load_files v) d1))
            (λ more. change_database-Holds j (load_files v) more d1 paused)
