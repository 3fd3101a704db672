-- ===== src/Provision/Deletion/Closing.antt =====
-- The account of the site, and the whole of what follows the record that the runtime has stopped
-- (internal/provision/delete_site.go, delete_site_identity.go).
use wpx.Prelude.{
  Bool, true, false, not, ◌≡◌, refl, inl, inr, Bool-cases, Option, none, some, List, ◌&&◌, arith,
  ltb,
}
use wpx.Text.{Text, ◌=ᵗ◌}
use wpx.Model.Site.{Site}
use wpx.Provision.Attempt.{Answer}
use wpx.Provision.Deletion.Names.{Identity, Account, Setup, Resources, P, processes, reads, check}
use wpx.Provision.Deletion.Account.{
  inspect_account, same_identity, identity_in, kill_processes, kill_all, if_same, stop_site,
}
use wpx.Provision.Deletion.Quiet.{Off, Later}
use wpx.Provision.Deletion.Effects.{turned_off-Later}
use wpx.Provision.Deletion.Stages.{FitsRecord, Safely, if-Holds}
use wpx.Provision.Deletion.Stopping.{
  Safe, Continues, Safe-Later, Safe-here, Later-step, Later-reads,
}

module _ (setup : Setup) (site : Site) (w0 : Resources) where
  pub if_same-Holds :
      (name home : Text) (expected : Identity) (o : Option Account) (absent next : P)
      (w : Resources) (answers : List Answer)
      → w.account ≡ o
      → FitsRecord setup site w0 w
      → (w.account ≡ none → Safely setup site w0 absent w answers)
      → Safely setup site w0 next w answers
      → Safely setup site w0 (if_same expected (inspect_account name home o) absent next) w answers
  unfolding inspect_account
  if_same-Holds name home expected none absent next w answers e s a n = a e
  if_same-Holds name home expected (some x) absent next w answers e s a n = elim (Bool-cases test) [
    | inl h ↦
        rw h (
          if-Holds setup site w0 (same_identity (identity_in x) expected) next w answers s (λ _. n))
    | inr h ↦ rw h s
  ]
    where
      test : Bool
      test = ltb 0 x.uid && ltb 0 x.gid && x.username =ᵗ name && x.home =ᵗ home && x.group =ᵗ name

  off_of_test : (b : Bool) → not b ≡ true → b ≡ false
  off_of_test b h = ground arith

  kill_all-Holds :
      (next : P) (w : Resources) (answers : List Answer)
      → Safe setup site w0 w
      → Continues setup site w0 w (Off processes) next
      → Safely setup site w0 (kill_all next) w answers
  unfolding kill_all
  kill_all-Holds next w answers safe n =
      Later-step setup site w0 kill_processes (reads (check (λ v. not (v.runs processes)) next)) w
        answers safe later
        (λ a more.
          let v : Resources = kill_processes a w in
          let safe_v : Safe setup site w0 v = Safe-Later setup site w0 (later a) safe in
          Later-reads setup site w0 (check (λ u. not (u.runs processes)) next) v more safe_v
            (λ more.
              if-Holds setup site w0 (not (v.runs processes)) next v more
                (Safe-here setup site w0 v safe_v)
                (λ h. n v more (later a) (off_of_test (v.runs processes) h))))
    where
      later : (a : Answer) → Later setup site w (kill_processes a w)
      later a = turned_off-Later setup site processes a.remaining w refl refl

  pub stop_site-Holds :
      (name home : Text) (expected : Identity) (next : P) (w : Resources) (answers : List Answer)
      → Safe setup site w0 w
      → (w.account ≡ none → (rest : List Answer) → Safely setup site w0 next w rest)
      → Continues setup site w0 w (Off processes) next
      → Safely setup site w0 (stop_site name home expected next) w answers
  unfolding stop_site
  stop_site-Holds name home expected next w answers safe a n =
      Later-reads setup site w0
        (λ v. if_same expected (inspect_account name home v.account) next (kill_all next) v) w
        answers safe
        (λ more.
          if_same-Holds name home expected w.account next (kill_all next) w more refl
            (Safe-here setup site w0 w safe) (λ gone. a gone more)
            (kill_all-Holds next w more safe n))
