-- ===== src/Tests/Domain.antt =====
-- Runs of the domain change on a host with one WordPress site.
use wpx.Prelude.{
  ℕ, zero, suc, ◌≡◌, refl, Option, some, none, List, [], ◌∷◌, ◌++◌, true, false, ◌⊎◌, ◌&&◌,
}
use wpx.Text.{Text, codes}
use wpx.Model.Site.{Site, DomainChange, domain_changing, not_configured}
use wpx.Provision.Attempt.{Answer, fails, Run, stopped, returned, Holds}
use wpx.Provision.Vhosts.{Vhost, ownership_marker, inspect_vhost, file_of, absent}
use wpx.Provision.Journal.{
  Host, Journal, activating, complete, Reply, changed, previous_restored, failed, is_readable,
}
use wpx.Provision.Recovery.{in_state}
use wpx.Provision.DomainChange.{change_domain, is_own, new_journal, gate, with_backup, with_start}
use wpx.Provision.DomainChange.Phases.{Case, AtRest, Consistent, Promised}
use wpx.Provision.DomainChange.Database.{PastDatabase}
use wpx.Provision.DomainChange.Runs.{
  Event, run, restart, after_events, change_domain-Promised, Answers503, after_events-Paused,
  after_events-database,
}
use wpx.Provision.DomainChange.Verdicts.{
  is_permitted, other_job, success, activated, change_domain_refuses, change_domain_final,
  change_domain_activates,
}
use wpx.Tests.Data.{shop, no_url}

abbrev pub moving : Site
moving = record shop { status = domain_changing }

abbrev pub change : DomainChange
change = record {
  previous_domain = codes "shop.example.org";
  domain = codes "store.example.org";
  previous_tls_status = not_configured;
}

abbrev content : Text
content =
    ownership_marker ++ codes "server {\n    listen 80;\n    server_name shop.example.org;\n}\n"

abbrev former : Vhost
former = record { content = content; exists = true; is_enabled = true }

abbrev pub render_plainly : Site → Text → Option Text
render_plainly site domain =
    some (ownership_marker ++ (codes "server {\n    server_name " ++ (domain ++ codes ";\n}\n")))

abbrev rows : Text
rows = codes "home=http://shop.example.org"

abbrev pub case : Case
case = record {
  site = moving;
  change = change;
  render = render_plainly;
  http = file_of former;
  tls = file_of absent;
  database = rows;
}

abbrev pub host : Host
host = record {
  http = file_of former;
  tls = file_of absent;
  loaded = (file_of former, file_of absent);
  database = rows;
  snapshot = none;
  journal = none;
}

pub host-AtRest : AtRest case host
host-AtRest = record { http = refl; tls = refl; loaded = refl; database = refl }

abbrev pub successes : ℕ → List Answer
successes zero = []
successes (suc n) = success (codes "home=http://store.example.org") ∷ successes n

abbrev failure : Answer
failure = record {
  ending = fails;
  took_effect = true;
  database = [];
  remaining = true;
  leaves = λ _. false;
}

abbrev verdict_of : Run Host Reply → Option Reply
verdict_of (stopped w) = none
verdict_of (returned r w answers) = some r

-- All goes well.
change_domain_changed :
    verdict_of (change_domain no_url render_plainly moving change "job" host (successes 40))
    ≡ some changed
unfolding change_domain wpx.Model.Site.valid_domain_change wpx.Model.Site.valid_site
    wpx.Model.SiteId.valid_site_id wpx.Model.Site.valid_domain wpx.Text.◌=ᵗ◌ wpx.Text.contains
    inspect_vhost wpx.Text.Search.has_prefix wpx.Provision.DomainChange.can_begin gate
    wpx.Provision.DomainChange.maintenance_tls
change_domain_changed = refl

-- A command on the database fails after the traffic has been paused.
change_domain_restored :
    verdict_of (
      change_domain no_url render_plainly moving change "job" host
        (successes 18 ++ (failure ∷ successes 20)))
    ≡ some previous_restored
unfolding change_domain wpx.Model.Site.valid_domain_change wpx.Model.Site.valid_site
    wpx.Model.SiteId.valid_site_id wpx.Model.Site.valid_domain wpx.Text.◌=ᵗ◌ wpx.Text.contains
    inspect_vhost wpx.Text.Search.has_prefix wpx.Provision.DomainChange.can_begin gate
    wpx.Provision.DomainChange.maintenance_tls
change_domain_restored = refl

abbrev at_start : Journal
at_start = with_start (with_backup (new_journal moving change "job" former absent))

abbrev host_in : Journal → Host
host_in j = record host { journal = some j }

abbrev cut_short : List Event
cut_short = run (successes 17) ∷ restart ∷ []

change_domain-Promised_example : Holds (Consistent case) (Promised case) (
    change_domain no_url case.render case.site case.change "job"
      (after_events no_url case.render case.site case.change "job" cut_short host)
      (successes 40))
change_domain-Promised_example =
    change_domain-Promised case no_url "job" host cut_short (successes 40) refl host-AtRest

recorded_at_start :
    (after_events no_url case.render case.site case.change "job" cut_short host).journal
    ≡ some at_start
unfolding after_events wpx.Model.Site.valid_domain_change wpx.Model.Site.valid_site
    wpx.Model.SiteId.valid_site_id wpx.Model.Site.valid_domain wpx.Text.◌=ᵗ◌ wpx.Text.contains
    inspect_vhost wpx.Text.Search.has_prefix wpx.Provision.DomainChange.can_begin gate
    wpx.Provision.DomainChange.maintenance_tls
recorded_at_start = refl

after_events-Paused_example :
    Answers503 case no_url "job"
      (after_events no_url case.render case.site case.change "job" cut_short host)
    × ((after_events no_url case.render case.site case.change "job" cut_short host).snapshot
        ≡ some rows)
after_events-Paused_example =
    after_events-Paused case no_url "job" host cut_short at_start refl host-AtRest recorded_at_start
      refl refl

abbrev at_boundary : Host
at_boundary = host_in (in_state activating at_start)

at_boundary-PastDatabase : PastDatabase rows at_boundary
at_boundary-PastDatabase = record {
  database = refl;
  journal = in_state activating at_start;
  recorded = refl;
  is_over = refl;
}

after_events-database_example :
    (after_events no_url render_plainly moving change "job"
      (run (successes 5) ∷ cut_short)
      at_boundary).database
    ≡ rows
after_events-database_example =
    after_events-database no_url render_plainly moving change "job" (run (successes 5) ∷ cut_short)
      at_boundary at_boundary-PastDatabase

change_domain_refuses_example :
    Holds
      (λ v. v ≡ host_in at_start)
      (λ r v. (r ≡ failed) × (v ≡ host_in at_start))
      (change_domain no_url render_plainly moving change "another job"
        (host_in at_start)
        (successes 5))
change_domain_refuses_example =
    change_domain_refuses no_url render_plainly moving change "another job" (host_in at_start)
      (successes 5) (other_job at_start refl (λ e. cc))

change_domain_final_example :
    Holds
      (λ v. v ≡ host_in (in_state complete at_start))
      (λ x v. ((x ≡ changed) ⊎ (x ≡ failed)) × (v ≡ host_in (in_state complete at_start)))
      (change_domain no_url render_plainly moving change "job"
        (host_in (in_state complete at_start))
        (successes 5))
change_domain_final_example =
    change_domain_final no_url render_plainly moving change "job"
      (host_in (in_state complete at_start)) (successes 5) (in_state complete at_start) changed refl
      refl

is_permitted_job : is_permitted no_url case.site case.change "job" ≡ true
unfolding change_domain wpx.Model.Site.valid_domain_change wpx.Model.Site.valid_site
    wpx.Model.SiteId.valid_site_id wpx.Model.Site.valid_domain wpx.Text.◌=ᵗ◌ wpx.Text.contains
is_permitted_job = refl

own_boundary : is_own case.site case.change "job" (in_state activating at_start) ≡ true
unfolding is_own wpx.Text.◌=ᵗ◌
own_boundary = refl

readable_boundary : is_readable at_boundary.http && is_readable at_boundary.tls ≡ true
unfolding inspect_vhost wpx.Text.Search.has_prefix
readable_boundary = refl

abbrev new_content : Text
new_content =
    ownership_marker ++ (codes "server {\n    server_name " ++ (change.domain ++ codes ";\n}\n"))

change_domain_activates_example :
    change_domain no_url case.render case.site case.change "job" at_boundary (
      success rows
      ∷ success rows
      ∷ success rows
      ∷ success rows
      ∷ success rows
      ∷ success rows
      ∷ success rows
      ∷ success rows
      ∷ success rows
      ∷ [])
    ≡ returned changed (activated new_content (in_state activating at_start) at_boundary) []
change_domain_activates_example =
    change_domain_activates no_url case "job" at_boundary (in_state activating at_start) new_content
      rows [] is_permitted_job refl own_boundary refl refl readable_boundary
