-- ===== src/Provision/Deletion/Completion.antt =====
-- How many calls a run of `DeleteSite` of internal/provision/delete_site.go takes at most, once its
-- record says that the runtime has stopped.
use mathlib.Core.Path.{subst}
use wpx.Prelude.{
  ℕ, suc, ◌≤◌, Bool, true, false, not, ◌≡◌, refl, sym, Option, none, some, List, [], ◌∷◌, arith,
  if◌then◌else◌,
}
use wpx.Text.{length}
use wpx.Model.Site.{Site}
use wpx.Provision.Attempt.{
  Answer, Ending, succeeds, fails, ends_process, stopped, returned, give_back,
}
use wpx.Provision.Deletion.Names.{
  Identity, Account, Record, Setup, Resources, P, deleted, failed, processes, step, reads, check,
  write_record, set_saved, site_dir, account_name,
}
use wpx.Provision.Deletion.Account.{
  Inspection, refused, not_found, found, inspect_account, same_identity, kill_processes, kill_all,
  if_same, stop_site, delete_account, remove_site,
}
use wpx.Provision.Deletion.{is_recorded, inspection}
use wpx.Provision.Deletion.Steps.{if_some, with_done, finish_account}

-- Every call succeeds, and what is told to stop stops.
abbrev pub AllSucceed : List Answer → Type 0
AllSucceed [] = Unit {0}
AllSucceed (a ∷ answers) = (a.ending ≡ succeeds) × (a.remaining ≡ false) × AllSucceed answers

-- The program reports the deletion within `k` such calls.
abbrev pub Completes : ℕ → P → Resources → Type 0
Completes k program w =
    (answers : List Answer)
    → AllSucceed answers
    → k ≤ length answers
    → (v : Resources) × (rest : List Answer) × (program w answers ≡ returned deleted v rest)

pub weaken :
    (k n : ℕ) (program : P) (w : Resources) → Completes k program w → k ≤ n → Completes n program w
weaken k n program w c h answers good enough = c answers good (omega arith)

pub step-Completes :
    (k : ℕ) (effect : Answer → Resources → Resources) (next : P) (w : Resources)
    → ((a : Answer) → a.remaining ≡ false → Completes k next (effect a w))
    → Completes (suc k) (step effect next) w
step-Completes k effect next w n [] good enough = absurd (omega arith)
step-Completes k effect next w n (a ∷ rest) good enough =
    let (v, last, e) = n a good.1 rest good.2 (omega arith) in
    (
      v,
      last,
      subst
          (λ (x : Ending).
            elim x [
              | succeeds ↦ next (effect a w) rest
              | fails ↦ returned failed (if a.took_effect then effect a w else w) rest
              | ends_process ↦ stopped (if a.took_effect then effect a w else w)
            ]
            ≡ returned deleted v last)
          (sym good.0) e,
    )

pub reads-Completes :
    (k : ℕ) (next : P) (w : Resources) → Completes k next w → Completes (suc k) (reads next) w
reads-Completes k next w n = step-Completes k (λ a v. v) next w (λ _ _. n)

pub if-Completes :
    (k : ℕ) (b : Bool) (next : P) (w : Resources)
    → b ≡ true
    → Completes k next w
    → Completes k (if b then next else give_back failed) w
if-Completes k b next w e n =
    subst (λ c. Completes k (if c then next else give_back failed) w) (sym e) n

module _ (setup : Setup) (site : Site) where
  -- The account is the recorded one, or gone.
  abbrev pub IsRecorded : Identity → Option Account → Type 0
  IsRecorded i account =
      is_recorded (some i) (inspect_account (account_name setup site) (site_dir setup site) account)
      ≡ true

  if_same-Completes :
      (k : ℕ) (i : Identity) (x : Inspection) (absent next : P) (w : Resources)
      → is_recorded (some i) x ≡ true
      → Completes k absent w
      → Completes k next w
      → Completes k (if_same i x absent next) w
  if_same-Completes k i refused absent next w h a n = cc
  if_same-Completes k i not_found absent next w h a n = a
  if_same-Completes k i (found actual) absent next w h a n =
      if-Completes k (same_identity actual i) next w h n

  off :
      (a : Answer) (w : Resources)
      → a.remaining ≡ false
      → not ((kill_processes a w).runs processes) ≡ true
  off a w h = ground arith

  pub stop_site-Completes :
      (k : ℕ) (i : Identity) (next : P) (w : Resources)
      → IsRecorded i w.account
      → Completes k next w
      → ((a : Answer) → Completes k next (kill_processes a w))
      → Completes
          (suc (suc (suc k)))
          (stop_site (account_name setup site) (site_dir setup site) i next)
          w
  unfolding stop_site kill_all
  stop_site-Completes k i next w h now after =
      reads-Completes (suc (suc k))
        (λ v.
          if_same i (inspect_account (account_name setup site) (site_dir setup site) v.account) next
            (kill_all next) v)
        w
        (if_same-Completes (suc (suc k)) i
          (inspect_account (account_name setup site) (site_dir setup site) w.account) next
          (kill_all next) w h (weaken k (suc (suc k)) next w now (omega arith))
          (step-Completes (suc k) kill_processes (reads (check (λ v. not (v.runs processes)) next))
            w
            (λ a quiet.
              reads-Completes k (check (λ v. not (v.runs processes)) next) (kill_processes a w) (
                if-Completes k (not ((kill_processes a w).runs processes)) next (kill_processes a w)
                  (off a w quiet) (after a)))))

  abbrev pub Concluding : Record → P
  Concluding r = write_record (with_done r) (give_back deleted)

  concluding-Completes : (r : Record) (w : Resources) → Completes 1 (Concluding r) w
  concluding-Completes r w =
      step-Completes 0 (λ a v. set_saved (with_done r) v) (give_back deleted) w
        (λ _ _ answers good enough. (_, _, refl))

  pub finish_account-Completes :
      (r : Record) (w : Resources)
      → is_recorded r.identity (inspection setup site w) ≡ true
      → Completes 6 (finish_account setup site r (Concluding r)) w
  unfolding finish_account remove_site
  finish_account-Completes r w h = by_identity r.identity h
    where
      by_identity :
          (o : Option Identity)
          → is_recorded o (inspection setup site w) ≡ true
          → Completes 6
              (if_some o
                (remove_site (account_name setup site) (site_dir setup site))
                (Concluding r))
              w
      by_identity none h = weaken 1 6 (Concluding r) w (concluding-Completes r w) (omega arith)
      by_identity (some i) h =
          reads-Completes 5
            (λ v.
              if_same i (inspection setup site v) (Concluding r)
                (stop_site (account_name setup site) (site_dir setup site) i
                  (step delete_account (Concluding r)))
                v)
            w
            (if_same-Completes 5 i (inspection setup site w) (Concluding r)
              (stop_site (account_name setup site) (site_dir setup site) i
                (step delete_account (Concluding r)))
              w h (weaken 1 5 (Concluding r) w (concluding-Completes r w) (omega arith))
              (stop_site-Completes 2 i (step delete_account (Concluding r)) w h
                (step-Completes 1 delete_account (Concluding r) w (λ a _. concluding-Completes r _))
                (λ x.
                  step-Completes 1 delete_account (Concluding r) (kill_processes x w)
                    (λ a _. concluding-Completes r _))))
