-- ===== src/Provision/DomainChange/Rollback.antt =====
-- `rollbackDomainChange` of internal/provision/domain_change.go and the phases of the host.
use wpx.Prelude.{true, ◌≡◌, List, some, refl, sym, inl, inr, Bool-cases}
use mathlib.Core.Path.{subst}
use wpx.Text.{Text}
use wpx.Provision.Attempt.{
  Answer, Holds, give_back, inspects, attempt, attempt-Holds_succeeds, inspects-Holds,
}
use wpx.Provision.Journal.{
  Host, Journal, JournalState, changing, rolling_back, restoring_traffic, failed, P, set_journal,
  write_journal,
}
use wpx.Provision.Recovery.{
  in_state, restore_traffic, import_database, import_from, import_copy, recover, rollback,
}
use wpx.Provision.DomainChange.Phases.{Case, Pending, Phase, IsAbout, Consistent}
use wpx.Provision.DomainChange.Restoring.{
  S, Q, IsAbout-state, Consistent-Fits, Restoring-Consistent, restore_traffic-Holds,
  write_journal-Holds, Restoring,
}

module _ (c : Case) where
  pub pending_state :
      (j : Journal) (state : JournalState) (w : Host)
      → Pending c j w
      → Pending c (in_state state j) w
  pending_state j state w p = record {
    untouched = p.untouched;
    copied = p.copied;
    has_copy = p.has_copy;
    paused = λ h. let q = p.paused h in record { http = q.http; tls = q.tls; loaded = q.loaded };
  }

  -- On the way back, with the database still to be taken care of.
  pub record Undoing (j : Journal) (w : Host) : Type 0 where
    pub journal : w.journal ≡ some j
    pub state : j.state ≡ rolling_back
    pub about : IsAbout c j
    pub pending : Pending c j w

  pub Undoing-Consistent : (j : Journal) (w : Host) → Undoing j w → Consistent c w
  Undoing-Consistent j w u =
      Consistent-Fits c j w u.journal
        (u.about, subst (λ state. Phase c state j w) (sym u.state) u.pending)

  -- Whatever a command leaves in the database of a paused site, the host still fits.
  pub pending-database :
      (j : Journal) (w : Host) (data1 : Text)
      → j.database_started ≡ true
      → Pending c j w
      → Pending c j (record w { database = data1 })
  pending-database j w data1 started p = record {
    untouched = λ h. cc;
    copied = p.copied;
    has_copy = p.has_copy;
    paused = λ h. let q = p.paused h in record { http = q.http; tls = q.tls; loaded = q.loaded };
  }

  import_database-Holds :
      (j : Journal) (next : P) (w : Host) (answers : List Answer)
      → Undoing j w
      → ((v : Host) (rest : List Answer)
          → Undoing j v
          → v.database ≡ c.database
          → Holds (S c) (Q c) (next v rest))
      → Holds (S c) (Q c) (import_database j next w answers)
  unfolding import_database
  import_database-Holds j next w answers u n = elim (Bool-cases j.database_started) [
    | inr e ↦ rw e (n w answers u (u.pending.untouched e))
    | inl e ↦
        let s = Undoing-Consistent j w u in
        let copy : w.snapshot ≡ some c.database = u.pending.copied (u.pending.has_copy e) in
        rw e (
          inspects-Holds (S c) (Q c) (give_back failed) (λ v. import_from v.snapshot next v) w
            answers s (λ _. s)
            (λ rest.
              subst (λ o. Holds (S c) (Q c) (import_from o next w rest)) (sym copy)
                (imported e rest)))
  ]
    where
      after : j.database_started ≡ true → (a : Answer) → Undoing j (import_copy c.database a w)
      after e a = record {
        journal = u.journal;
        state = u.state;
        about = u.about;
        pending = pending-database j w _ e u.pending;
      }

      imported :
          j.database_started ≡ true
          → (rest : List Answer)
          → Holds (S c) (Q c) (
              attempt
                (import_copy c.database)
                (give_back failed)
                (inspects (give_back failed) next)
                w
                rest)
      imported e rest =
          attempt-Holds_succeeds (S c) (Q c) (import_copy c.database) (give_back failed)
            (inspects (give_back failed) next) w rest (Undoing-Consistent j w u)
            (λ a. Undoing-Consistent j _ (after e a)) (λ _. Undoing-Consistent j w u)
            (λ a _. Undoing-Consistent j _ (after e a))
            (λ a done more.
              inspects-Holds (S c) (Q c) (give_back failed) next (import_copy c.database a w) more
                (Undoing-Consistent j _ (after e a)) (λ _. Undoing-Consistent j _ (after e a))
                (λ most. n (import_copy c.database a w) most (after e a) (rw done refl)))

  pub recover-Holds :
      (j : Journal) (w : Host) (answers : List Answer)
      → Undoing j w
      → Holds (S c) (Q c) (recover j w answers)
  unfolding recover
  recover-Holds j w answers u = rw (u.state) (
      import_database-Holds j
        (write_journal (in_state restoring_traffic j) (give_back failed)
          (restore_traffic (in_state restoring_traffic j)))
        w answers u
        (λ v rest d same.
          let back : Restoring c (in_state restoring_traffic j)
              (set_journal (in_state restoring_traffic j) v) =
            record {
              journal = refl;
              state = refl;
              about = IsAbout-state c j restoring_traffic d.about;
              database = same;
            } in
          let s = Undoing-Consistent j v d in
          let s1 = Restoring-Consistent c (in_state restoring_traffic j) _ back in
          write_journal-Holds c (in_state restoring_traffic j) (give_back failed)
            (restore_traffic (in_state restoring_traffic j)) v rest s s1 (λ _. s) (λ _. s1)
            (λ more.
              restore_traffic-Holds c (in_state restoring_traffic j)
                (set_journal (in_state restoring_traffic j) v) more back)))

  -- A change that is under way, by what the program knows of it; the journal on the host may be an
  -- earlier one.
  pub record Ready (j : Journal) (w : Host) : Type 0 where
    pub state : j.state ≡ changing
    pub about : IsAbout c j
    pub pending : Pending c j w
    pub consistent : Consistent c w

  pub rollback-Holds :
      (j : Journal) (w : Host) (answers : List Answer)
      → Ready j w
      → Holds (S c) (Q c) (rollback j w answers)
  unfolding rollback
  rollback-Holds j w answers r =
      let undoing : Undoing (in_state rolling_back j) (set_journal (in_state rolling_back j) w) =
        record {
          journal = refl;
          state = refl;
          about = IsAbout-state c j rolling_back r.about;
          pending = p1;
        } in
      let s1 = Undoing-Consistent (in_state rolling_back j) _ undoing in
      rw (r.state) (
        write_journal-Holds c (in_state rolling_back j) (give_back failed)
          (recover (in_state rolling_back j)) w answers r.consistent s1 (λ _. r.consistent)
          (λ _. s1)
          (λ rest.
            recover-Holds (in_state rolling_back j) (set_journal (in_state rolling_back j) w) rest
              undoing))
    where
      p1 : Pending c (in_state rolling_back j) (set_journal (in_state rolling_back j) w)
      p1 =
          let p = r.pending in
          record {
            untouched = p.untouched;
            copied = p.copied;
            has_copy = p.has_copy;
            paused =
                λ h. let q = p.paused h in record { http = q.http; tls = q.tls; loaded = q.loaded };
          }
