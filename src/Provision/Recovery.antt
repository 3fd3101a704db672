-- ===== src/Provision/Recovery.antt =====
-- `rollbackDomainChange` of internal/provision/domain_change.go.
use wpx.Prelude.{Bool, true, false, not, Option, none, some, if◌then◌else◌}
use wpx.Text.{Text}
use wpx.Provision.Attempt.{Ending, succeeds, Answer, give_back, attempt, inspects}
use wpx.Provision.Journal.{
  JournalState, Journal, Host, P, write_vhosts, reload, write_journal, changing, rolling_back,
  restoring_traffic, restored, previous_restored, failed,
}

abbrev pub is_succeeding : Ending → Bool
is_succeeding succeeds = true
is_succeeding _ = false

-- An import that succeeds leaves the copy; one that does not may leave anything.
abbrev pub import_copy : Text → Answer → Host → Host
import_copy copy a w = record w { database = if is_succeeding a.ending then copy else a.database }

abbrev pub is_changing : JournalState → Bool
is_changing changing = true
is_changing _ = false

abbrev pub import_from : Option Text → P → P
import_from none next = give_back failed
import_from (some copy) next =
    attempt (import_copy copy) (give_back failed) (inspects (give_back failed) next)

-- `openPrivate`, and the import of what it opens. The site's cache is cleared after it, which
-- leaves the database alone.
unfoldable pub import_database : Journal → P → P
import_database j next =
    if not j.database_started
    then next
    else inspects (give_back failed) (λ w. import_from w.snapshot next w)

abbrev pub in_state : JournalState → Journal → Journal
in_state state j = record j { state = state }

unfoldable pub restore_traffic : Journal → P
unfolding write_vhosts reload
restore_traffic j = write_vhosts j.http j.tls (give_back failed) (
    reload (give_back failed)
      (write_journal (in_state restored j) (give_back failed) (give_back previous_restored)))

-- `rollbackDomainChange` once the intent is recorded.
abbrev pub recover_in : Journal → JournalState → P
recover_in j rolling_back = import_database j (
    write_journal (in_state restoring_traffic j) (give_back failed)
      (restore_traffic (in_state restoring_traffic j)))
recover_in j restoring_traffic = restore_traffic j
recover_in j _ = give_back failed

unfoldable pub recover : Journal → P
unfolding import_database restore_traffic
recover j = recover_in j j.state

unfoldable pub rollback : Journal → P
unfolding recover
rollback j =
    if is_changing j.state
    then write_journal (in_state rolling_back j) (give_back failed)
        (recover (in_state rolling_back j))
    else recover j
