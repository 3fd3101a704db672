-- ===== src/Provision/DomainChange/Forward.antt =====
-- The steps of `ChangeDomain` of internal/provision/domain_change.go towards the new domain, and the
-- phases of the host.
use mathlib.Core.Path.{subst}
use wpx.Prelude.{true, ◌≡◌, List, [], ◌∷◌, some, refl, sym, inl, inr, Bool-cases, Option-cases}
use wpx.Text.{Text}
use wpx.Provision.Attempt.{Answer, Holds, give_back, attempt-Holds}
use wpx.Provision.Vhosts.{
  Vhost, absent, SiteFile, file_of, writes, put_content, put_link, remove_file,
}
use wpx.Provision.Journal.{
  Host, Journal, changing, activating, complete, changed, failed, P, set_http, set_tls, load_files,
  set_journal, reload, write_journal, write_vhosts,
}
use wpx.Provision.Recovery.{in_state, rollback}
use wpx.Provision.DomainChange.{
  finish_activation, serve_with, activate, Command, command_effect, run_commands,
}
use wpx.Provision.DomainChange.Phases.{
  Case, Pending, plain_vhost, Activated, Phase, IsAbout, Consistent,
}
use wpx.Provision.DomainChange.Writing.{Closed, write_vhosts-Holds}
use wpx.Provision.DomainChange.Restoring.{
  S, Q, Closed-writes, reload-Holds, write_journal-Holds, IsAbout-state, Consistent-Fits,
}
use wpx.Provision.DomainChange.Rollback.{pending-database, Ready, rollback-Holds}

-- Writing a state over itself.
pub Closed-same :
    (D : Host → Type 0) (set : (SiteFile → SiteFile) → Host → Host) (v : Vhost)
    → ((f : SiteFile → SiteFile) (w : Host) → f (file_of v) ≡ file_of v → D w → D (set f w))
    → Closed D set (writes v)
Closed-same D set v k = elim (Bool-cases v.exists) [
  | inl e ↦
      let content : put_content v.content (file_of v) ≡ file_of v = rw e refl in
      rw e (
        λ w d. k (put_content v.content) w content d,
        (λ w d. k (put_link v.is_enabled) w refl d, tt),
      )
  | inr e ↦
      let content : remove_file (file_of v) ≡ file_of v = rw e refl in
      rw e (λ w d. k (put_link v.is_enabled) w refl d, (λ w d. k remove_file w content d, tt))
]

module _ (c : Case) where
  pub record Activating (j : Journal) (w : Host) : Type 0 where
    pub journal : w.journal ≡ some j
    pub state : j.state ≡ activating
    pub about : IsAbout c j

  Activating-Consistent : (j : Journal) (w : Host) → Activating j w → Consistent c w
  Activating-Consistent j w r =
      Consistent-Fits c j w r.journal (r.about, subst (λ state. Phase c state j w) (sym r.state) tt)

  pub finish_activation-Holds :
      (j : Journal) (w : Host) (answers : List Answer)
      → Activating j w
      → Holds (S c) (Q c) (finish_activation c.render c.site j w answers)
  unfolding finish_activation serve_with
  finish_activation-Holds j w answers r = elim (Option-cases (c.render c.site j.change.domain)) [
    | inl e ↦
        subst (λ o. Holds (S c) (Q c) (serve_with j o w answers)) (sym e)
          (Activating-Consistent j w r)
    | inr (generated, e) ↦
        subst (λ o. Holds (S c) (Q c) (serve_with j o w answers)) (sym e) (serve generated e)
  ]
    where
      done : Text → P
      done generated = write_journal (in_state complete j) (give_back failed) (give_back changed)

      after :
          (generated : Text) (v : Host) (rest : List Answer)
          → c.render c.site j.change.domain ≡ some generated
          → Activating j v
          → v.http ≡ file_of (plain_vhost generated)
          → v.tls ≡ file_of absent
          → Holds (S c) (Q c) (reload (give_back failed) (done generated) v rest)
      after generated v rest e d h t =
          let d1 : Activating j (load_files v) = record {
            journal = d.journal;
            state = d.state;
            about = d.about;
          } in
          let s = Activating-Consistent j v d in
          let s1 = Activating-Consistent j (load_files v) d1 in
          let new : Activated c (set_journal (in_state complete j) (load_files v)) = record {
            generated = generated;
            rendered = subst (λ x. c.render c.site x.domain ≡ some generated) d.about.change e;
            http = h;
            tls = t;
            loaded = rw h (rw t refl);
          } in
          let s2 : Consistent c (set_journal (in_state complete j) (load_files v)) =
            (IsAbout-state c j complete d.about, new) in
          reload-Holds c (done generated) (give_back failed) v rest s s1 (λ _. s) (λ _. s1)
            (λ more.
              write_journal-Holds c (in_state complete j) (give_back failed) (give_back changed)
                (load_files v) more s1 s2 (λ _. s1) (λ _. s2) (λ _. (s2, new)))

      serve :
          (generated : Text)
          → c.render c.site j.change.domain ≡ some generated
          → Holds (S c) (Q c) (
              write_vhosts
                (plain_vhost generated)
                absent
                (give_back failed)
                (reload (give_back failed) (done generated))
                w
                answers)
      serve generated e =
          write_vhosts-Holds (S c) (Q c) (Activating j) (plain_vhost generated) absent
            (give_back failed) (reload (give_back failed) (done generated)) w answers
            (Closed-writes (Activating j) set_http (plain_vhost generated)
              (λ f v d. record { journal = d.journal; state = d.state; about = d.about }))
            (Closed-writes (Activating j) set_tls absent
              (λ f v d. record { journal = d.journal; state = d.state; about = d.about }))
            (Activating-Consistent j) (λ v rest d. Activating-Consistent j v d)
            (λ v rest d h t. after generated v rest e d h t) r

  pub activate-Holds :
      (j : Journal) (w : Host) (answers : List Answer)
      → Ready c j w
      → Holds (S c) (Q c) (activate c.render c.site j w answers)
  unfolding activate
  activate-Holds j w answers r =
      let j1 = in_state activating j in
      let d : Activating j1 (set_journal j1 w) = record {
        journal = refl;
        state = refl;
        about = IsAbout-state c j activating r.about;
      } in
      let s1 = Activating-Consistent j1 (set_journal j1 w) d in
      write_journal-Holds c j1 (give_back failed) (finish_activation c.render c.site j1) w answers
        r.consistent s1 (λ _. r.consistent) (λ _. s1)
        (λ rest. finish_activation-Holds j1 (set_journal j1 w) rest d)

  -- A change that is under way, with its journal on the host.
  pub record Underway (j : Journal) (w : Host) : Type 0 where
    pub journal : w.journal ≡ some j
    pub state : j.state ≡ changing
    pub about : IsAbout c j
    pub pending : Pending c j w

  pub Underway-Consistent : (j : Journal) (w : Host) → Underway j w → Consistent c w
  Underway-Consistent j w u =
      Consistent-Fits c j w u.journal
        (u.about, subst (λ state. Phase c state j w) (sym u.state) u.pending)

  pub Underway-Ready : (j : Journal) (w : Host) → Underway j w → Ready c j w
  Underway-Ready j w u = record {
    state = u.state;
    about = u.about;
    pending = u.pending;
    consistent = Underway-Consistent j w u;
  }

  pub run_commands-Holds :
      (j : Journal) (cs : List Command) (next : P) (w : Host) (answers : List Answer)
      → j.database_started ≡ true
      → ((v : Host) (rest : List Answer) → Underway j v → Holds (S c) (Q c) (next v rest))
      → Underway j w
      → Holds (S c) (Q c) (run_commands cs (rollback j) next w answers)
  unfolding run_commands
  run_commands-Holds j [] next w answers started n u = n w answers u
  run_commands-Holds j (x ∷ cs) next w answers started n u =
      attempt-Holds (S c) (Q c) (command_effect x) (rollback j) (run_commands cs (rollback j) next)
        w answers (Underway-Consistent j w u) (λ a. Underway-Consistent j _ (after a))
        (λ rest. rollback-Holds c j w rest (Underway-Ready j w u))
        (λ a rest. rollback-Holds c j _ rest (Underway-Ready j _ (after a)))
        (λ a rest. run_commands-Holds j cs next (command_effect x a w) rest started n (after a))
    where
      after : (a : Answer) → Underway j (command_effect x a w)
      after a = record {
        journal = u.journal;
        state = u.state;
        about = u.about;
        pending = pending-database c j w a.database started u.pending;
      }
