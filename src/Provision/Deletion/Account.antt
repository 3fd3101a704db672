-- ===== src/Provision/Deletion/Account.antt =====
-- The account of a site (internal/provision/delete_site_identity.go).
use wpx.Prelude.{Bool, not, ◌&&◌, Option, none, some, ◌==◌, ltb, if◌then◌else◌}
use wpx.Text.{Text, ◌=ᵗ◌}
use wpx.Provision.Attempt.{Answer, give_back}
use wpx.Provision.Deletion.Names.{
  Identity, Account, Resources, P, processes, failed, step, reads, check, turned_off,
}

-- What an inspection comes to; the lookup itself may fail, which is another call's answer.
pub data Inspection : Type 0 where
  refused not_found : Inspection
  found : Identity → Inspection

abbrev pub identity_in : Account → Identity
identity_in a = record { name = a.username; uid = a.uid; gid = a.gid }

-- `InspectSite`, after `ValidateSiteID`
unfoldable pub inspect_account : Text → Text → Option Account → Inspection
inspect_account name home none = not_found
inspect_account name home (some a) =
    if ltb 0 a.uid && ltb 0 a.gid && a.username =ᵗ name && a.home =ᵗ home && a.group =ᵗ name
    then found (identity_in a)
    else refused

unfoldable pub same_identity : Identity → Identity → Bool
same_identity a b = a.name =ᵗ b.name && a.uid == b.uid && a.gid == b.gid

abbrev pub kill_processes : Answer → Resources → Resources
kill_processes a w = record w { runs = turned_off processes a.remaining w.runs }

-- What is done about a verified account, once `pkill` and `pgrep` have been asked.
unfoldable pub kill_all : P → P
kill_all next = step kill_processes (reads (check (λ w. not (w.runs processes)) next))

-- What follows an inspection: nothing about an account that is not there.
abbrev pub if_same : Identity → Inspection → P → P → P
if_same expected refused absent next = give_back failed
if_same expected not_found absent next = absent
if_same expected (found actual) absent next =
    if same_identity actual expected then next else give_back failed

-- `StopSite`; `name` and `home` are what the site's account must have.
unfoldable pub stop_site : Text → Text → Identity → P → P
unfolding kill_all inspect_account
stop_site name home expected next =
    reads (λ w. if_same expected (inspect_account name home w.account) next (kill_all next) w)

abbrev pub delete_account : Answer → Resources → Resources
delete_account a w = record w { account = none }

-- `RemoveSite`
unfoldable pub remove_site : Text → Text → Identity → P → P
unfolding stop_site inspect_account
remove_site name home expected next = reads (λ w.
    if_same expected (inspect_account name home w.account) next
      (stop_site name home expected (step delete_account next)) w)
