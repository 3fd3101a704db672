-- ===== src/Provision/DomainChange/Restoring.antt =====
-- Serving the former domain again (`rollbackDomainChange` of internal/provision/domain_change.go), and
-- the rules of the steps that the phases rest on.
use wpx.Prelude.{◌≡◌, List, some, refl, sym, inl, inr, ◌∙◌, Bool-cases}
use mathlib.Core.Path.{subst}
use wpx.Provision.Attempt.{Answer, Holds, give_back, attempt, attempt-Holds, inspects-Holds}
use wpx.Provision.Vhosts.{Vhost, SiteFile, file_of, writes}
use wpx.Provision.Journal.{
  Host, Journal, JournalState, restoring_traffic, restored, Reply, previous_restored, failed, P,
  set_http, set_tls, load_files, set_journal, reload, write_journal,
}
use wpx.Provision.Recovery.{in_state, restore_traffic}
use wpx.Provision.DomainChange.Phases.{
  Case, AtRest, Phase, IsAbout, Fits, ConsistentWith, Consistent, Promised,
}
use wpx.Provision.DomainChange.Writing.{Closed, write_vhosts-Holds}

pub Closed-writes :
    (D : Host → Type 0) (set : (SiteFile → SiteFile) → Host → Host) (v : Vhost)
    → ((f : SiteFile → SiteFile) (w : Host) → D w → D (set f w))
    → Closed D set (writes v)
Closed-writes D set v k = elim (Bool-cases v.exists) [
  | inl e ↦ rw e (k _, (k _, tt))
  | inr e ↦ rw e (k _, (k _, tt))
]

module _ (c : Case) where
  abbrev pub S : Host → Type 0
  S = Consistent c

  abbrev pub Q : Reply → Host → Type 0
  Q = Promised c

  pub reload-Holds :
      (next : P) (on_failure : P) (w : Host) (answers : List Answer)
      → S w
      → S (load_files w)
      → ((rest : List Answer) → Holds S Q (on_failure w rest))
      → ((rest : List Answer) → Holds S Q (on_failure (load_files w) rest))
      → ((rest : List Answer) → Holds S Q (next (load_files w) rest))
      → Holds S Q (reload on_failure next w answers)
  unfolding reload
  reload-Holds next on_failure w answers s s1 f f1 n =
      inspects-Holds S Q on_failure (attempt (λ a v. load_files v) on_failure next) w answers s f
        (λ rest.
          attempt-Holds S Q (λ a v. load_files v) on_failure next w rest s (λ a. s1) f (λ a. f1)
            (λ a. n))

  pub write_journal-Holds :
      (j : Journal) (on_failure next : P) (w : Host) (answers : List Answer)
      → S w
      → S (set_journal j w)
      → ((rest : List Answer) → Holds S Q (on_failure w rest))
      → ((rest : List Answer) → Holds S Q (on_failure (set_journal j w) rest))
      → ((rest : List Answer) → Holds S Q (next (set_journal j w) rest))
      → Holds S Q (write_journal j on_failure next w answers)
  write_journal-Holds j on_failure next w answers s s1 f f1 n =
      attempt-Holds S Q (λ a v. set_journal j v) on_failure next w answers s (λ a. s1) f (λ a. f1)
        (λ a. n)

  pub IsAbout-state :
      (j : Journal) (state : JournalState) → IsAbout c j → IsAbout c (in_state state j)
  IsAbout-state j state a = record { change = a.change; http = a.http; tls = a.tls }

  pub Consistent-Fits : (j : Journal) (w : Host) → w.journal ≡ some j → Fits c j w → Consistent c w
  Consistent-Fits j w journal fits = subst (λ o. ConsistentWith c o w) (sym journal) fits

  -- On the way back, with the database as it was.
  pub record Restoring (j : Journal) (w : Host) : Type 0 where
    pub journal : w.journal ≡ some j
    pub state : j.state ≡ restoring_traffic
    pub about : IsAbout c j
    pub database : w.database ≡ c.database

  pub Restoring-Consistent : (j : Journal) (w : Host) → Restoring j w → Consistent c w
  Restoring-Consistent j w r =
      Consistent-Fits j w r.journal
        (r.about, subst (λ state. Phase c state j w) (sym r.state) r.database)

  pub restore_traffic-Holds :
      (j : Journal) (w : Host) (answers : List Answer)
      → Restoring j w
      → Holds S Q (restore_traffic j w answers)
  unfolding restore_traffic
  restore_traffic-Holds j w answers r =
      write_vhosts-Holds S Q (Restoring j) j.http j.tls (give_back failed)
        (reload (give_back failed)
          (write_journal (in_state restored j) (give_back failed) (give_back previous_restored)))
        w answers
        (Closed-writes (Restoring j) set_http j.http (λ f v d. record {
          journal = d.journal;
          state = d.state;
          about = d.about;
          database = d.database;
        }))
        (Closed-writes (Restoring j) set_tls j.tls (λ f v d. record {
          journal = d.journal;
          state = d.state;
          about = d.about;
          database = d.database;
        }))
        (Restoring-Consistent j) (λ v rest d. Restoring-Consistent j v d) written r
    where
      written :
          (v : Host) (rest : List Answer)
          → Restoring j v
          → v.http ≡ file_of j.http
          → v.tls ≡ file_of j.tls
          → Holds S Q (
              reload
                (give_back failed)
                (write_journal
                  (in_state restored j)
                  (give_back failed)
                  (give_back previous_restored))
                v
                rest)
      written v rest d h t =
          let d1 : Restoring j (load_files v) = record {
            journal = d.journal;
            state = d.state;
            about = d.about;
            database = d.database;
          } in
          let s = Restoring-Consistent j v d in
          let s1 = Restoring-Consistent j (load_files v) d1 in
          let back : AtRest c (set_journal (in_state restored j) (load_files v)) = record {
            http = h ∙ d.about.http;
            tls = t ∙ d.about.tls;
            loaded = rw h (rw t (rw d.about.http (rw d.about.tls refl)));
            database = d.database;
          } in
          let s2 : Consistent c (set_journal (in_state restored j) (load_files v)) =
            (IsAbout-state j restored d.about, back) in
          reload-Holds
            (write_journal (in_state restored j) (give_back failed) (give_back previous_restored))
            (give_back failed) v rest s s1 (λ _. s) (λ _. s1)
            (λ more.
              write_journal-Holds (in_state restored j) (give_back failed)
                (give_back previous_restored) (load_files v) more s1 s2 (λ _. s1) (λ _. s2)
                (λ _. (s2, back)))
