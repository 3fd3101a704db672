-- ===== src/Worker/Outcomes.antt =====
-- The site in the store after the outcome of a domain change (internal/store/site_changes.go).
use mathlib.Core.Path.{subst}
use wpx.Prelude.{
  String, Bool, true, false, ◌≡◌, ◌&&◌, Option, some, List, [], ◌∷◌, Result, ok, refl, sym, ap, inl,
  inr, ◌⊎◌, ◌∙◌, Bool-cases, arith, eq_iff, eq_refl, ◌=?◌, ◌+◌,
}
use wpx.Prelude.Table
use wpx.Stamp.{Stamp}
use wpx.Model.Site.{
  Site, SiteStatus, active, domain_changing, domain_change_failed, not_configured, Url,
}
use wpx.Provision.Journal.{Host}
use wpx.Provision.DomainChange.Phases.{Case, AtRest, Activated, Consistent}
use wpx.Store.Rows.{Db, Job, Error}
use wpx.Store.Jobs.{is_running, queued_as, is_site_change}
use wpx.Store.Statements.{has_site, update_domain}
use wpx.Store.Sites.Enqueue.{load_site, status_eq}
use wpx.Store.Sites.Finish.{
  Outcome, success, failure, plain_error, domain_change_error, php_change_error,
  decode_domain_change, leave_status, finish_domain_change,
}
use wpx.Worker.{told}
use wpx.Worker.Replies.{Tells}

pub ok_eq : {x y : Db} → Path (Result Error Db) (ok x) (ok y) → x ≡ y
ok_eq e = cc

some_eq : {x y : Site} → some x ≡ some y → x ≡ y
some_eq e = cc

-- What is left of the first row that an update meets.
first-update_found :
    (p q : Site → Bool) (f : Site → Site) (rows : List Site) (s : Site)
    → Table.first p rows ≡ some s
    → q s ≡ true
    → ((x : Site) → q x ≡ true → p x ≡ true)
    → ((x : Site) → p (f x) ≡ p x)
    → Table.first p (Table.update q f rows) ≡ some (f s)
unfolding Table.first Table.update
first-update_found p q f [] s e h into keeps = cc
first-update_found p q f (x ∷ rows) s e h into keeps = elim (Bool-cases (p x)) [
  | inl px ↦
      let here : Table.first p (x ∷ rows) ≡ some x = rw px refl in
      let same : x ≡ s = some_eq (sym here ∙ e) in
      let qx : q x ≡ true = ap q same ∙ h in
      let pf : p (f x) ≡ true = keeps x ∙ px in rw qx (rw pf (ap (λ y. some (f y)) same))
  | inr px ↦
      let later : Table.first p (x ∷ rows) ≡ Table.first p rows = rw px refl in
      let qx : q x ≡ false = outside x px in
      rw qx (rw px (first-update_found p q f rows s (sym later ∙ e) h into keeps))
]
  where
    outside : (y : Site) → p y ≡ false → q y ≡ false
    outside y py = elim (Bool-cases (q y)) [ inr e ↦ e | inl e ↦ let py1 = into y e in cc ]

-- What the store says of the site, and what the host does.
abbrev pub Agrees : Case → Site → Host → Type 0
Agrees c site host =
    ((site.status ≡ active) × (site.domain ≡ c.change.domain) × Activated c host)
    ⊎ ((site.status ≡ active) × (site.domain ≡ c.site.domain) × AtRest c host)
    ⊎ ((site.status ≡ domain_change_failed) × (site.domain ≡ c.site.domain) × Consistent c host)

-- The rows of a job that a run of the worker holds.
abbrev pub held_as : String → Job → Bool
held_as id j = j.id =? id && is_site_change j.kind && is_running j

-- The job waits in the queue for another run, its reservation is kept, and the host fits its journal.
abbrev pub Waits : Case → Job → Db → Db → Host → Type 0
Waits c job db db' host =
    (db'.sites ≡ db.sites)
    × (db'.reservations ≡ db.reservations)
    × (Table.any (held_as job.id) db'.jobs ≡ false)
    × (Table.count (queued_as job.id) db'.jobs
        ≡ Table.count (queued_as job.id) db.jobs + Table.count (held_as job.id) db.jobs)
    × Consistent c host

-- The store has the site, and agrees with the host about it.
abbrev pub FoundAgrees : Case → Job → Db → Host → Type 0
FoundAgrees c job db host =
    (site : Site) × (load_site job.target_id db ≡ some site) × Agrees c site host

module _ (c : Case) (parse_url : String → Option Url) (job : Job) (now : Stamp) (db db2 : Db)
    (found : load_site job.target_id db ≡ some c.site) (awaiting : c.site.status ≡ domain_changing)
    (payload : decode_domain_change job.payload ≡ some c.change) where
  at_target : has_site job.target_id c.site ≡ true
  at_target = Table.first-holds (has_site job.target_id) db.sites c.site found

  into_target : (x : Site) → has_site c.site.id x ≡ true → has_site job.target_id x ≡ true
  into_target x h =
      let own : c.site.id ≡ job.target_id =
        ground (arith, at_target, eq_iff c.site.id job.target_id) in
      subst (λ id. (x.id =? id) ≡ true) own h

  -- The site with another status.
  abbrev pub settled : SiteStatus → Site → Site
  settled status site = record site { status = status; updated_at = now }

  left_site :
      (status : SiteStatus)
      → Table.first (has_site job.target_id) (
          Table.update
            (λ (s : Site). s.id =? job.target_id && status_eq s.status domain_changing)
            (settled status)
            db.sites)
        ≡ some (settled status c.site)
  unfolding status_eq
  left_site status =
      let is_changing : status_eq c.site.status domain_changing ≡ true = rw awaiting refl in
      first-update_found (has_site job.target_id)
        (λ (s : Site). s.id =? job.target_id && status_eq s.status domain_changing) (settled status)
        db.sites c.site found (rw at_target (rw is_changing refl)) (λ x h. ground (arith, h))
        (λ x. refl)

  failed_change :
      (host : Host)
      → Consistent c host
      → Path
          (Result Error Db)
          (ok (leave_status job.target_id domain_changing domain_change_failed now db))
          (ok db2)
      → FoundAgrees c job db2 host
  failed_change host t k = (
    settled domain_change_failed c.site,
    ap (λ (d : Db). load_site job.target_id d) (sym (ok_eq k)) ∙ left_site domain_change_failed,
    inr (inr (refl, refl, t)),
  )

  -- The site under its new domain.
  abbrev moved : Site → Site
  moved site = record site {
    domain = c.change.domain;
    tls_status = not_configured;
    status = active;
    updated_at = now;
  }

  moved_sites :
      finish_domain_change parse_url job now success db ≡ ok db2
      → db2.sites ≡ Table.update (has_site c.site.id) moved db.sites
  unfolding finish_domain_change update_domain
  moved_sites k = ground (arith, k, found, payload)

  pub by_outcome :
      (host : Host) (outcome : Outcome)
      → Tells c (host, told outcome)
      → finish_domain_change parse_url job now outcome db ≡ ok db2
      → FoundAgrees c job db2 host
  unfolding finish_domain_change
  by_outcome host success t k = (
    moved c.site,
    ap (λ sites. Table.first (has_site job.target_id) sites) (moved_sites k)
        ∙ first-update_found (has_site job.target_id) (has_site c.site.id) moved db.sites c.site
            found (eq_refl c.site.id) into_target (λ x. refl),
    inl (refl, refl, t.1),
  )
  by_outcome host (failure text (domain_change_error true)) t k = (
    settled active c.site,
    ap (λ (d : Db). load_site job.target_id d) (sym (ok_eq k)) ∙ left_site active,
    inr (inl (refl, refl, t.1)),
  )
  by_outcome host (failure text (domain_change_error false)) t k = failed_change host t k
  by_outcome host (failure text plain_error) t k = failed_change host t k
  by_outcome host (failure text (php_change_error b)) t k = failed_change host t k
