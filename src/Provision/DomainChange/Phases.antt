-- ===== src/Provision/DomainChange/Phases.antt =====
-- What the host may look like between the steps of `ChangeDomain` of
-- internal/provision/domain_change.go, by the state of the journal.
use wpx.Prelude.{true, false, ◌≡◌, Option, none, some}
use wpx.Text.{Text}
use wpx.Model.Site.{Site, DomainChange}
use wpx.Provision.Vhosts.{Vhost, absent, SiteFile, file_of}
use wpx.Provision.Journal.{
  JournalState, changing, rolling_back, restoring_traffic, activating, complete, restored,
  unknown_state, Journal, Host, Reply, changed, previous_restored, failed,
}
use wpx.Provision.DomainChange.{gate, maintenance_tls}

-- A change, and the site's files and database as they were before it.
pub record Case : Type 0 where
  pub site : Site
  pub change : DomainChange
  pub render : Site → Text → Option Text
  pub http : SiteFile
  pub tls : SiteFile
  pub database : Text

-- Everything is as it was before.
pub record AtRest (c : Case) (w : Host) : Type 0 where
  pub http : w.http ≡ c.http
  pub tls : w.tls ≡ c.tls
  pub loaded : w.loaded ≡ (c.http, c.tls)
  pub database : w.database ≡ c.database

-- Both names are answered by the gate, and what TLS there was by its paused form.
pub record Paused (c : Case) (j : Journal) (w : Host) : Type 0 where
  pub http : w.http ≡ file_of (gate c.site c.change)
  pub tls : w.tls ≡ file_of (maintenance_tls j.tls)
  pub loaded : w.loaded ≡ (file_of (gate c.site c.change), file_of (maintenance_tls j.tls))

-- Before the boundary: the database is untouched until its commands are recorded as started, and
-- from then on there is a copy of it and the traffic is paused.
pub record Pending (c : Case) (j : Journal) (w : Host) : Type 0 where
  pub untouched : j.database_started ≡ false → w.database ≡ c.database
  pub copied : j.backup_ready ≡ true → w.snapshot ≡ some c.database
  pub has_copy : j.database_started ≡ true → j.backup_ready ≡ true
  pub paused : j.database_started ≡ true → Paused c j w

abbrev pub plain_vhost : Text → Vhost
plain_vhost generated = record { content = generated; exists = true; is_enabled = true }

-- The new domain is served, without TLS, from the configuration rendered for it.
pub record Activated (c : Case) (w : Host) : Type 0 where
  pub generated : Text
  pub rendered : c.render c.site c.change.domain ≡ some generated
  pub http : w.http ≡ file_of (plain_vhost generated)
  pub tls : w.tls ≡ file_of absent
  pub loaded : w.loaded ≡ (file_of (plain_vhost generated), file_of absent)

abbrev pub Phase : Case → JournalState → Journal → Host → Type 0
Phase c changing j w = Pending c j w
Phase c rolling_back j w = Pending c j w
Phase c restoring_traffic j w = w.database ≡ c.database
Phase c restored j w = AtRest c w
Phase c activating j w = Unit {0}
Phase c complete j w = Activated c w
Phase c (unknown_state _) j w = ⊥

-- The journal is about this change and keeps the former files.
pub record IsAbout (c : Case) (j : Journal) : Type 0 where
  pub change : j.change ≡ c.change
  pub http : file_of j.http ≡ c.http
  pub tls : file_of j.tls ≡ c.tls

abbrev pub Fits : Case → Journal → Host → Type 0
Fits c j w = IsAbout c j × Phase c j.state j w

abbrev pub ConsistentWith : Case → Option Journal → Host → Type 0
ConsistentWith c none w = AtRest c w
ConsistentWith c (some j) w = Fits c j w

abbrev pub Consistent : Case → Host → Type 0
Consistent c w = ConsistentWith c w.journal w

-- What a reply promises of the host.
abbrev pub Promised : Case → Reply → Host → Type 0
Promised c changed w = Consistent c w × Activated c w
Promised c previous_restored w = Consistent c w × AtRest c w
Promised c failed w = Consistent c w

-- The journal on the host is this one, and the host fits it.
abbrev pub At : Case → Journal → Host → Type 0
At c j w = (w.journal ≡ some j) × Fits c j w
