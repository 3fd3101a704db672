-- ===== src/Provision/DomainChange/Runs.antt =====
-- Runs of `ChangeDomain` in internal/provision/domain_change.go for one job, each of which may be
-- cut short anywhere, with restarts of Nginx between them.
use mathlib.Core.Path.{subst}
use wpx.Prelude.{String, Bool, true, false, ◌≡◌, List, [], ◌∷◌, Option, none, some, refl, sym}
use wpx.Text.{Text}
use wpx.Model.Site.{Site, DomainChange, Url}
use wpx.Provision.Attempt.{Answer, Run, stopped, returned, Holds}
use wpx.Provision.Journal.{
  Host, Journal, JournalState, changing, rolling_back, restoring_traffic, activating, complete,
  restored, unknown_state, Reply, changed, previous_restored, failed, load_files,
}
use wpx.Provision.Vhosts.{file_of}
use wpx.Provision.DomainChange.{change_domain, maintenance_tls}
use wpx.Provision.DomainChange.Gate.{Gated, Closed, gate-Gated, maintenance_tls-Closed}
use wpx.Provision.DomainChange.Phases.{
  Case, AtRest, Paused, Pending, Phase, ConsistentWith, Consistent, Promised,
}
use wpx.Provision.DomainChange.Crash.{change_domain-Holds}
use wpx.Provision.DomainChange.Database.{PastDatabase, change_domain-D}

-- A run of the program against these answers, or a restart of Nginx.
pub data Event : Type 0 where
  run : List Answer → Event
  restart : Event

abbrev pub host_of : Run Host Reply → Host
host_of (stopped w) = w
host_of (returned r w answers) = w

module _ (parse_url : String → Option Url) (render : Site → Text → Option Text) (site : Site)
    (change : DomainChange) (job_key : String) where
  unfoldable pub after_events : List Event → Host → Host
  unfolding change_domain
  after_events [] w = w
  after_events (run answers ∷ events) w =
      after_events events (host_of (change_domain parse_url render site change job_key w answers))
  after_events (restart ∷ events) w = after_events events (load_files w)

  after_events-Kept :
      (I : Host → Type 0)
      → ((w : Host) (answers : List Answer)
          → I w
          → Holds I (λ _ v. I v) (change_domain parse_url render site change job_key w answers))
      → ((w : Host) → I w → I (load_files w))
      → (events : List Event) (w : Host) → I w
      → I (after_events events w)
  unfolding after_events
  after_events-Kept I by_run by_restart [] w i = i
  after_events-Kept I by_run by_restart (run answers ∷ events) w i =
      after_events-Kept I by_run by_restart events _
        (left (change_domain parse_url render site change job_key w answers) (by_run w answers i))
    where
      left : (x : Run Host Reply) → Holds I (λ _ v. I v) x → I (host_of x)
      left (stopped v) h = h
      left (returned r v answers) h = h
  after_events-Kept I by_run by_restart (restart ∷ events) w i =
      after_events-Kept I by_run by_restart events (load_files w) (by_restart w i)

  -- Once the journal of a domain change is restoring traffic, activating, complete or restored, no
  -- sequence of runs and restarts changes the database: neither the copy is imported nor a command
  -- run again.
  pub after_events-database :
      (events : List Event) (w : Host)
      → PastDatabase w.database w
      → (after_events events w).database ≡ w.database
  after_events-database events w past =
      (after_events-Kept (PastDatabase w.database)
        (λ v answers i. change_domain-D w.database parse_url render site change job_key v answers i)
        (λ v i. record {
          database = i.database;
          journal = i.journal;
          recorded = i.recorded;
          is_over = i.is_over;
        })
        events w past).database

module _ (c : Case) (parse_url : String → Option Url) (job_key : String) where
  restart-Consistent : (w : Host) → Consistent c w → Consistent c (load_files w)
  restart-Consistent w s = by_journal w.journal s
    where
      at_rest : AtRest c w → AtRest c (load_files w)
      at_rest p = record {
        http = p.http;
        tls = p.tls;
        loaded = rw (p.http) (rw (p.tls) refl);
        database = p.database;
      }

      pending : (j : Journal) → Pending c j w → Pending c j (load_files w)
      pending j p = record {
        untouched = p.untouched;
        copied = p.copied;
        has_copy = p.has_copy;
        paused = λ h.
            let q = p.paused h in
            record { http = q.http; tls = q.tls; loaded = rw (q.http) (rw (q.tls) refl) };
      }

      by_state :
          (state : JournalState) (j : Journal) → Phase c state j w → Phase c state j (load_files w)
      by_state changing j p = pending j p
      by_state rolling_back j p = pending j p
      by_state restoring_traffic j p = p
      by_state activating j p = p
      by_state restored j p = at_rest p
      by_state complete j p = record {
        generated = p.generated;
        rendered = p.rendered;
        http = p.http;
        tls = p.tls;
        loaded = rw (p.http) (rw (p.tls) refl);
      }
      by_state (unknown_state x) j p = p

      by_journal : (o : Option Journal) → ConsistentWith c o w → ConsistentWith c o (load_files w)
      by_journal none s = at_rest s
      by_journal (some j) s = (s.0, by_state j.state j s.1)

  after_events-Consistent :
      (events : List Event) (w : Host)
      → Consistent c w
      → Consistent c (after_events parse_url c.render c.site c.change job_key events w)
  after_events-Consistent events w s =
      after_events-Kept parse_url c.render c.site c.change job_key (Consistent c)
        (λ v answers i.
          weaken (change_domain parse_url c.render c.site c.change job_key v answers)
            (change_domain-Holds c parse_url job_key v answers i))
        restart-Consistent events w s
    where
      by_reply : (r : Reply) (v : Host) → Promised c r v → Consistent c v
      by_reply changed v p = p.0
      by_reply previous_restored v p = p.0
      by_reply failed v p = p

      weaken :
          (x : Run Host Reply)
          → Holds (Consistent c) (Promised c) x
          → Holds (Consistent c) (λ _ v. Consistent c v) x
      weaken (stopped v) h = h
      weaken (returned r v answers) h = by_reply r v h

  -- Start from a host whose files, loaded configuration and database are those of the case and that
  -- has no journal. After any sequence of runs of a domain change for one job, each cut short
  -- anywhere or not, with restarts of Nginx between them, and whatever a further run meets: where
  -- that run stops, the host fits the state of its journal; where it reports success, it also
  -- serves the new domain from the configuration rendered for it; where it reports the previous
  -- domain restored, files, loaded configuration and database are the former ones.
  pub change_domain-Promised :
      (w : Host) (events : List Event) (answers : List Answer)
      → w.journal ≡ none
      → AtRest c w
      → Holds (Consistent c) (Promised c) (
          change_domain parse_url c.render c.site c.change job_key
            (after_events parse_url c.render c.site c.change job_key events w)
            answers)
  change_domain-Promised w events answers fresh at_rest =
      change_domain-Holds c parse_url job_key _ answers
        (after_events-Consistent events w (subst (λ o. ConsistentWith c o w) (sym fresh) at_rest))

  abbrev pub is_before : JournalState → Bool
  is_before changing = true
  is_before rolling_back = true
  is_before _ = false

  -- The files, and what Nginx has loaded, name both domains in one server that answers 503, and the
  -- TLS file answers it where the former one had a server.
  pub record Answers503 (w : Host) : Type 0 where
    pub http : Gated c.site c.change w.http
    pub tls : Closed c.tls w.tls
    pub loaded_http : Gated c.site c.change w.loaded.0
    pub loaded_tls : Closed c.tls w.loaded.1

  -- From a host at rest without a journal, after any sequence of runs and restarts: if the journal
  -- is changing or rolling back and says that the commands on the database have started, then the
  -- site's file is linked, names both domains and answers 503, its TLS file is linked as before and
  -- answers 503 where it had a server, what Nginx has loaded does so too, and the copy is the
  -- original database.
  pub after_events-Paused :
      (w : Host) (events : List Event) (j : Journal)
      → w.journal ≡ none
      → AtRest c w
      → (after_events parse_url c.render c.site c.change job_key events w).journal ≡ some j
      → is_before j.state ≡ true
      → j.database_started ≡ true
      → Answers503 (after_events parse_url c.render c.site c.change job_key events w)
        × ((after_events parse_url c.render c.site c.change job_key events w).snapshot
            ≡ some c.database)
  after_events-Paused w events j fresh at_rest recorded before started =
      let fits =
        subst (λ o. ConsistentWith c o v) recorded
          (after_events-Consistent events w
            (subst (λ o. ConsistentWith c o w) (sym fresh) at_rest)) in
      let (paused, copied) = by_state j.state before fits.1 in (answers fits.0.tls paused, copied)
    where
      v : Host
      v = after_events parse_url c.render c.site c.change job_key events w

      answers : file_of j.tls ≡ c.tls → Paused c j v → Answers503 v
      answers same p =
          let gated = gate-Gated c.site c.change in
          let closes : Closed c.tls (file_of (maintenance_tls j.tls)) =
            subst (λ f. Closed f (file_of (maintenance_tls j.tls))) same
              (maintenance_tls-Closed j.tls) in
          record {
            http = subst (λ f. Gated c.site c.change f) (sym p.http) gated;
            tls = subst (λ f. Closed c.tls f) (sym p.tls) closes;
            loaded_http = subst (λ l. Gated c.site c.change l.0) (sym p.loaded) gated;
            loaded_tls = subst (λ l. Closed c.tls l.1) (sym p.loaded) closes;
          }

      pending : Pending c j v → Paused c j v × (v.snapshot ≡ some c.database)
      pending p = (p.paused started, p.copied (p.has_copy started))

      by_state :
          (state : JournalState)
          → is_before state ≡ true
          → Phase c state j v
          → Paused c j v × (v.snapshot ≡ some c.database)
      by_state changing b p = pending p
      by_state rolling_back b p = pending p
      by_state restoring_traffic b p = cc
      by_state activating b p = cc
      by_state complete b p = cc
      by_state restored b p = cc
      by_state (unknown_state x) b p = cc
