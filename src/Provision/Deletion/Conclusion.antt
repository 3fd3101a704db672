-- ===== src/Provision/Deletion/Conclusion.antt =====
-- The end of a deletion (internal/provision/delete_site.go): the account and the last record.
use mathlib.Core.Path.{subst}
use wpx.Prelude.{true, false, ◌≡◌, refl, sym, inr, Option, none, some, List}
use wpx.Text.{Text}
use wpx.Model.Site.{Site}
use wpx.Provision.Attempt.{Answer, give_back}
use wpx.Provision.Deletion.Names.{
  Identity, Record, Setup, Resources, P, deleted, step, write_record, set_saved, site_dir,
  account_name,
}
use wpx.Provision.Deletion.Account.{
  inspect_account, if_same, stop_site, delete_account, remove_site,
}
use wpx.Provision.Deletion.Quiet.{Quieter}
use wpx.Provision.Deletion.Stages.{
  InStage, Stopped, NoAccount, Erased, Gone, HasAccount, FitsRecord, Safely, step-Holds,
}
use wpx.Provision.Deletion.Stability.{Stopped-of, Erased-of, Erased-stable}
use wpx.Provision.Deletion.Stopping.{Safe, Later-reads}
use wpx.Provision.Deletion.Erasing.{Erasing, Erasing-stable, Erasing-FitsRecord, in_stage}
use wpx.Provision.Deletion.Steps.{finish_account, with_done, if_some}
use wpx.Provision.Deletion.Closing.{if_same-Holds, stop_site-Holds}

module _ (setup : Setup) (site : Site) (w0 : Resources) where
  module _ (r : Record) (is_stopped : r.is_runtime_stopped ≡ true) (is_open : r.is_done ≡ false)
      (owner : HasAccount setup site r.identity w0) where
    abbrev pub InErasing : Resources → Type 0
    InErasing w = Erasing setup site w0 r is_stopped is_open owner w

    abbrev pub Concluding : P
    Concluding = write_record (with_done r) (give_back deleted)

    -- The record that the site is gone.
    ending-Holds :
        (w : Resources) (answers : List Answer)
        → FitsRecord setup site w0 w
        → Stopped setup site r.php_versions w
        → Erased setup site r w
        → NoAccount setup site r.identity w
        → Safely setup site w0 Concluding w answers
    ending-Holds w answers s stopped erased gone =
        step-Holds setup site w0 (λ a v. set_saved (with_done r) v) (give_back deleted) w answers s
          (λ _. subst (λ b. InStage setup site w0 b true (with_done r) after) (sym is_stopped) all)
          (λ _ rest. record {
            record_of = with_done r;
            saved = refl;
            is_stopped = is_stopped;
            done = refl;
            gone = all;
          })
      where
        after : Resources
        after = set_saved (with_done r) w

        erased_after : Erased setup site r after
        erased_after = Erased-of setup site r w w.account (some (with_done r)) erased

        all : Gone setup site (with_done r) after
        all = record {
          stopped = Stopped-of setup site r.php_versions w w.account (some (with_done r)) stopped;
          erased = record {
            tree = erased_after.tree;
            files = erased_after.files;
            database = erased_after.database;
            processes = erased_after.processes;
          };
          account = gone_after r.identity gone;
        }
          where
            gone_after :
                (o : Option Identity) → NoAccount setup site o w → NoAccount setup site o after
            gone_after none h = tt
            gone_after (some i) h = h

    pub fits : (w : Resources) → InErasing w → FitsRecord setup site w0 w
    fits w e = Erasing-FitsRecord setup site w0 r is_stopped is_open owner w e

    stable :
        {w v : Resources}
        → Quieter setup site w v
        → Erased setup site r w
        → InErasing w
        → InErasing v
    stable q erased e =
        Erasing-stable setup site w0 r is_stopped is_open owner q
          (λ _ p h. q.files p (erased.tree p h)) e

    -- The account goes when all else is gone.
    deletes-Holds :
        (i : Identity) (w : Resources) (answers : List Answer)
        → r.identity ≡ some i
        → InErasing w
        → Erased setup site r w
        → Safely setup site w0 (step delete_account Concluding) w answers
    deletes-Holds i w answers same e erased =
        step-Holds setup site w0 delete_account Concluding w answers (fits w e) (λ _. fits_after)
          (λ _ rest.
            ending-Holds after rest fits_after stopped_after erased_after
              (subst (λ o. NoAccount setup site o after) (sym same) refl))
      where
        after : Resources
        after = record w { account = none }

        stopped_after : Stopped setup site r.php_versions after
        stopped_after = Stopped-of setup site r.php_versions w none w.saved e.stopped

        erased_after : Erased setup site r after
        erased_after = Erased-of setup site r w none w.saved erased

        fits_after : FitsRecord setup site w0 after
        fits_after =
            in_stage setup site w0 r is_stopped is_open owner after
              (record {
                owner = owner;
                rooted = e.rooted;
                stopped = stopped_after;
                spared = inr erased_after.processes;
                account = inr erased_after;
              })
              e.saved

    remove_site-Holds :
        (i : Identity) (w : Resources) (answers : List Answer)
        → r.identity ≡ some i
        → InErasing w
        → Erased setup site r w
        → Safely setup site w0
            (remove_site (account_name setup site) (site_dir setup site) i Concluding)
            w
            answers
    unfolding remove_site
    remove_site-Holds i w answers same e erased =
        Later-reads setup site w0
          (λ v. if_same i (inspect_account name home v.account) Concluding stops v) w answers safe
          (λ more.
            if_same-Holds setup site w0 name home i w.account Concluding stops w more refl
              (fits w e)
              (λ gone.
                ending-Holds w more (fits w e) e.stopped erased
                  (subst (λ o. NoAccount setup site o w) (sym same) gone))
              (stop_site-Holds setup site w0 name home i (step delete_account Concluding) w more
                safe (λ _ rest. deletes-Holds i w rest same e erased)
                (λ v rest l _.
                  deletes-Holds i v rest same (stable l.quieter erased e)
                    (Erased-stable setup site r l.quieter erased))))
      where
        name : Text
        name = account_name setup site

        home : Text
        home = site_dir setup site

        stops : P
        stops =
            stop_site (account_name setup site) (site_dir setup site) i
              (step delete_account Concluding)

        safe : Safe setup site w0 w
        safe v l = fits v (stable l.quieter erased e)

    pub finish_account-Holds :
        (w : Resources) (answers : List Answer)
        → InErasing w
        → Erased setup site r w
        → Safely setup site w0 (finish_account setup site r Concluding) w answers
    unfolding finish_account
    finish_account-Holds w answers e erased = by_identity r.identity refl
      where
        by_identity :
            (o : Option Identity)
            → r.identity ≡ o
            → Safely setup site w0
                (if_some o (remove_site (account_name setup site) (site_dir setup site)) Concluding)
                w
                answers
        by_identity none same =
            ending-Holds w answers (fits w e) e.stopped erased
              (subst (λ o. NoAccount setup site o w) (sym same) tt)
        by_identity (some i) same = remove_site-Holds i w answers same e erased
