-- ===== src/Provision/Journal.antt =====
-- The journal of a domain change, the host it is about, and the single steps upon it
-- (internal/provision/domain_change.go): writing the virtual hosts, reloading Nginx, writing the
-- journal.
use wpx.Prelude.{
  ℕ, String, Bool, true, false, ◌&&◌, Option, none, some, List, [], ◌∷◌, if◌then◌else◌,
}
use wpx.Text.{Text}
use wpx.Model.Site.{DomainChange}
use wpx.Provision.Attempt.{Program, attempt, inspects}
use wpx.Provision.Vhosts.{Vhost, SiteFile, inspect_vhost, writes}

-- The `State` of a journal.
pub data JournalState : Type 0 where
  changing rolling_back restoring_traffic activating complete restored : JournalState
  unknown_state : String → JournalState

-- `domainChangeJournal`
pub record Journal : Type 0 where
  pub version : ℕ
  pub site_id : String
  pub job_key : String
  pub change : DomainChange
  pub http : Vhost
  pub tls : Vhost
  pub backup_ready : Bool
  pub database_started : Bool
  pub state : JournalState

-- The part of the host that belongs to the site and the job: the files of the two virtual hosts,
-- what Nginx has loaded of them, the database, its recovery copy and the journal.
pub record Host : Type 0 where
  pub http : SiteFile
  pub tls : SiteFile
  pub loaded : SiteFile × SiteFile
  pub database : Text
  pub snapshot : Option Text
  pub journal : Option Journal

-- What the caller learns: success, the error that says that the previous domain is restored, or
-- another error.
pub data Reply : Type 0 where
  changed previous_restored failed : Reply

abbrev pub P : Type 0
P = Program Host Reply

abbrev pub set_http : (SiteFile → SiteFile) → Host → Host
set_http f w = record w { http = f w.http }

abbrev pub set_tls : (SiteFile → SiteFile) → Host → Host
set_tls f w = record w { tls = f w.tls }

unfoldable pub write_all :
    ((SiteFile → SiteFile) → Host → Host) → List (SiteFile → SiteFile) → P → P → P
write_all set [] on_failure next = next
write_all set (f ∷ fs) on_failure next =
    attempt (λ a w. set f w) on_failure (write_all set fs on_failure next)

abbrev pub is_readable : SiteFile → Bool
is_readable file = elim (inspect_vhost file) [ none ↦ false | some v ↦ true ]

-- `writeDomainVhosts`: both files are inspected before either is changed.
unfoldable pub write_vhosts : Vhost → Vhost → P → P → P
unfolding write_all
write_vhosts http tls on_failure next = inspects on_failure (λ w.
    (if is_readable w.http && is_readable w.tls
        then write_all set_http (writes http) on_failure
            (write_all set_tls (writes tls) on_failure next)
        else on_failure)
      w)

abbrev pub load_files : Host → Host
load_files w = record w { loaded = (w.http, w.tls) }

-- `reloadDomainNginx`
unfoldable pub reload : P → P → P
reload on_failure next = inspects on_failure (attempt (λ a w. load_files w) on_failure next)

abbrev pub set_journal : Journal → Host → Host
set_journal j w = record w { journal = some j }

abbrev pub write_journal : Journal → P → P → P
write_journal j on_failure next = attempt (λ a w. set_journal j w) on_failure next
