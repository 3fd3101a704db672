-- ===== src/Provision/DomainChange.antt =====
-- `ChangeDomain` of internal/provision/domain_change.go: the files, the database and the journal of
-- one site under one job. Checks of directories, permissions and handles only read the host, and are
-- taken together where nothing stands between them; the rendering of a site's configuration is an
-- argument.
pub mod Phases
pub mod Writing
pub mod Restoring
pub mod Rollback
pub mod Forward
pub mod Carrying
pub mod Database
pub mod Crash
pub mod Gate
pub mod Runs
pub mod Verdicts
use wpx.Prelude.{
  ℕ, String, Bool, true, false, not, ◌&&◌, ◌||◌, ◌=?◌, ◌==◌, Option, none, some, List, [], ◌∷◌,
  ◌++◌, leb, if◌then◌else◌,
}
use wpx.Text.{Text, codes, ◌=ᵗ◌, contains}
use wpx.Text.Search.{contains_text, count_text, replace_first}
use wpx.Model.Site.{
  Site, SiteStatus, domain_changing, TlsStatus, tls_active, DomainChange, Url, tls_index,
  byte_length, is_word_press, valid_domain_change,
}
use wpx.Provision.Attempt.{Ending, succeeds, Answer, Program, give_back, attempt, inspects}
use wpx.Provision.Vhosts.{ownership_marker, Vhost, absent, SiteFile, inspect_vhost, file_of, writes}
use wpx.Provision.Journal.{
  JournalState, Journal, Host, Reply, P, set_http, set_tls, write_all, is_readable, write_vhosts,
  load_files, reload, set_journal, write_journal, changing, rolling_back, restoring_traffic,
  activating, complete, restored, unknown_state, changed, previous_restored, failed,
}
use wpx.Provision.Recovery.{
  is_succeeding, import_copy, is_changing, import_from, import_database, in_state, restore_traffic,
  recover_in, recover, rollback,
}

-- `domainMaintenanceTLS`
unfoldable pub maintenance_tls : Vhost → Vhost
unfolding replace_first
maintenance_tls v = if not v.is_enabled then v else record v {
  content =
      replace_first (codes "server {\n")
        (codes "server {\n    add_header Retry-After 60 always;\n    return 503;\n") v.content;
}

-- The virtual host that answers 503 for both names.
unfoldable pub gate : Site → DomainChange → Vhost
gate site change = record {
  content =
      ownership_marker
      ++ (codes "server {\n    listen 80;\n    listen [::]:80;\n    server_name "
          ++ (site.domain
              ++ (codes " "
                  ++ (change.domain
                      ++ codes ";\n    add_header Retry-After 60 always;\n    return 503;\n}\n"))));
  exists = true;
  is_enabled = true;
}

unfoldable pub serve_with : Journal → Option Text → P
unfolding write_vhosts reload
serve_with j none = give_back failed
serve_with j (some generated) =
    write_vhosts (record { content = generated; exists = true; is_enabled = true }) absent
      (give_back failed)
      (reload (give_back failed)
        (write_journal (in_state complete j) (give_back failed) (give_back changed)))

-- `finishDomainActivation`; `render` is the configuration of a site under a domain, without TLS.
unfoldable pub finish_activation : (Site → Text → Option Text) → Site → Journal → P
unfolding serve_with
finish_activation render site j = serve_with j (render site j.change.domain)

-- The commands that rewrite the names in the database, each by what WP-CLI is asked for. What a
-- command leaves in the database is not the program's.
pub data Command : Type 0 where
  search_replace : Text → Text → Command
  clear_cache : Command
  update_home update_site_url : Text → Command
  check_database : Command

abbrev pub commands : Site → DomainChange → List Command
commands site change =
    let url = codes "http://" ++ change.domain in
    search_replace site.domain url
    ∷ clear_cache
    ∷ update_home url
    ∷ update_site_url url
    ∷ clear_cache
    ∷ check_database
    ∷ []

abbrev pub command_effect : Command → Answer → Host → Host
command_effect c a w = record w { database = a.database }

unfoldable pub run_commands : List Command → P → P → P
run_commands [] on_failure next = next
run_commands (c ∷ cs) on_failure next =
    attempt (command_effect c) on_failure (run_commands cs on_failure next)

-- `exportDomainDatabase`; an empty export is an error.
unfoldable pub export_database : P → P → P
export_database on_failure next w =
    (if w.database =ᵗ []
        then inspects on_failure on_failure
        else attempt (λ a v. record v { snapshot = some v.database }) on_failure next)
      w

-- The journal with the copy, and with the start of the commands, recorded.
abbrev pub with_backup : Journal → Journal
with_backup j = record j { backup_ready = true }

abbrev pub with_start : Journal → Journal
with_start j = record j { database_started = true }

-- From the durable boundary on.
unfoldable pub activate : (Site → Text → Option Text) → Site → Journal → P
unfolding finish_activation
activate render site j =
    write_journal (in_state activating j) (give_back failed)
      (finish_activation render site (in_state activating j))

unfoldable pub rewrite_database : (Site → Text → Option Text) → Site → DomainChange → Journal → P
unfolding rollback run_commands activate
rewrite_database render site change j = write_journal (with_start j) (rollback (with_start j)) (
    run_commands (commands site change) (rollback (with_start j))
      (activate render site (with_start j)))

unfoldable pub change_database : (Site → Text → Option Text) → Site → DomainChange → Journal → P
unfolding export_database rewrite_database
change_database render site change j =
    if not (is_word_press site.kind)
    then activate render site j
    else if j.backup_ready
    then rewrite_database render site change j
    else export_database (rollback j) (
        write_journal (with_backup j) (rollback (with_backup j))
          (rewrite_database render site change (with_backup j)))

-- The change itself, with its journal written.
unfoldable pub carry_out : (Site → Text → Option Text) → Site → DomainChange → Journal → P
unfolding write_vhosts reload change_database
carry_out render site change j =
    write_vhosts (gate site change) (maintenance_tls j.tls) (rollback j)
      (reload (rollback j) (change_database render site change j))

abbrev server_name_of : Site → Text
server_name_of site = codes "    server_name " ++ (site.domain ++ codes ";")

abbrev is_tls_active : TlsStatus → Bool
is_tls_active tls_active = true
is_tls_active _ = false

-- What the virtual hosts must be before a change begins.
unfoldable pub can_begin : Site → Vhost → Vhost → Bool
unfolding contains_text count_text
can_begin site http tls =
    (http.exists && http.is_enabled && contains_text (server_name_of site) http.content)
    && not (is_tls_active site.tls_status && not (tls.exists && tls.is_enabled))
    && not (
        tls.is_enabled
        && (not (contains_text (server_name_of site) tls.content)
            || not (count_text (codes "server {\n") tls.content == 1)))

abbrev pub new_journal : Site → DomainChange → String → Vhost → Vhost → Journal
new_journal site change job_key http tls = record {
  version = 1;
  site_id = site.id;
  job_key = job_key;
  change = change;
  http = http;
  tls = tls;
  backup_ready = false;
  database_started = false;
  state = changing;
}

abbrev pub begin_with :
    (Site → Text → Option Text) → Site → DomainChange → String → Option Vhost → Option Vhost → P
begin_with render site change job_key (some http) (some tls) =
    if can_begin site http tls
    then write_journal (new_journal site change job_key http tls) (give_back failed)
        (carry_out render site change (new_journal site change job_key http tls))
    else give_back failed
begin_with render site change job_key _ _ = give_back failed

unfoldable pub begin : (Site → Text → Option Text) → Site → DomainChange → String → P
unfolding carry_out
begin render site change job_key =
    inspects (give_back failed)
      (λ w. begin_with render site change job_key (inspect_vhost w.http) (inspect_vhost w.tls) w)

abbrev pub same_change : DomainChange → DomainChange → Bool
same_change a b =
    a.previous_domain =ᵗ b.previous_domain
    && a.domain =ᵗ b.domain
    && tls_index a.previous_tls_status == tls_index b.previous_tls_status

-- The journal is this operation's.
unfoldable pub is_own : Site → DomainChange → String → Journal → Bool
is_own site change job_key j =
    j.version == 1 && j.site_id =? site.id && j.job_key =? job_key && same_change j.change change

-- The checks of a WordPress installation: the tools, the identity and, where `preflight` says so,
-- a run of WordPress itself.
unfoldable pub check_word_press : Site → Bool → Reply → P → P
check_word_press site preflight refusal next =
    if not (is_word_press site.kind)
    then next
    else inspects (give_back failed) (if preflight then inspects (give_back refusal) next else next)

-- What a run does about a journal of its own, by its state.
abbrev pub resume_in :
    (Site → Text → Option Text) → Site → DomainChange → Journal → JournalState → P
resume_in render site change j complete = give_back changed
resume_in render site change j restored = give_back previous_restored
resume_in render site change j activating = finish_activation render site j
resume_in render site change j changing =
    check_word_press site true failed (carry_out render site change j)
resume_in render site change j rolling_back = check_word_press site false failed (rollback j)
resume_in render site change j restoring_traffic = check_word_press site false failed (rollback j)
resume_in render site change j (unknown_state _) = give_back failed

unfoldable pub resume : (Site → Text → Option Text) → Site → DomainChange → Journal → P
unfolding finish_activation rollback carry_out check_word_press
resume render site change j = resume_in render site change j j.state

abbrev pub start : (Site → Text → Option Text) → Site → DomainChange → String → Option Journal → P
start render site change job_key none =
    check_word_press site true previous_restored (begin render site change job_key)
start render site change job_key (some j) =
    if is_own site change job_key j then resume render site change j else give_back failed

abbrev pub is_awaiting : SiteStatus → Bool
is_awaiting domain_changing = true
is_awaiting _ = false

abbrev valid_job_key : String → Bool
valid_job_key key =
    let text = codes key in
    not (text =ᵗ [])
    && leb (byte_length text) 160
    && not (contains 0 text || contains 13 text || contains 10 text)

unfoldable pub change_domain :
    (String → Option Url) → (Site → Text → Option Text) → Site → DomainChange → String → P
unfolding begin resume check_word_press is_own
change_domain parse_url render site change job_key =
    if not (
      valid_domain_change parse_url site change && is_awaiting site.status && valid_job_key job_key)
    then give_back failed
    else inspects (give_back failed) (λ w. start render site change job_key w.journal w)
