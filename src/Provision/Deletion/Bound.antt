-- ===== src/Provision/Deletion/Bound.antt =====
-- The calls of the last part of `DeleteSite` of internal/provision/delete_site.go, counted.
use mathlib.Core.Path.{subst}
use wpx.Prelude.{
  suc, ◌+◌, Bool, true, false, ◌≡◌, refl, inl, inr, Bool-cases, Option, none, some, List, [], ◌∷◌,
  ◌&&◌, arith, if◌then◌else◌,
}
use wpx.Text.{◌=ᵗ◌, length}
use wpx.Model.Site.{Site}
use wpx.Provision.Deletion.Files.{DeletionFile, remove, is_present}
use wpx.Provision.Deletion.Names.{
  Identity, Record, Setup, Resources, P, database, database_user, step, reads, stop, remove_path,
  turned_off, site_dir, secret_path, database_name, account_name,
}
use wpx.Provision.Deletion.Account.{kill_processes, stop_site}
use wpx.Provision.Deletion.Checks.{is_python}
use wpx.Provision.Deletion.{is_recorded, inspection}
use wpx.Provision.Deletion.Steps.{
  if_some, drop_database, erase_tree, remove_site_tree, remove_files, finish_account, erase,
}
use wpx.Provision.Deletion.Completion.{
  Completes, weaken, step-Completes, reads-Completes, stop_site-Completes, finish_account-Completes,
  Concluding,
}

module _ (setup : Setup) (site : Site) where
  abbrev pub Recorded : Record → Resources → Type 0
  Recorded r w = is_recorded r.identity (inspection setup site w) ≡ true

  abbrev Last : Record → P
  Last r =
      (if is_python site.kind then reads else (λ (p : P). p))
        (finish_account setup site r (Concluding setup site r))

  last-Completes : (r : Record) (w : Resources) → Recorded r w → Completes 7 (Last r) w
  last-Completes r w h = elim (Bool-cases (is_python site.kind)) [
    | inl e ↦ rw e (
        reads-Completes 6 (finish_account setup site r (Concluding setup site r)) w
          (finish_account-Completes setup site r w h))
    | inr e ↦ rw e (
        weaken 6 7 (finish_account setup site r (Concluding setup site r)) w
          (finish_account-Completes setup site r w h) (omega arith))
  ]

  remove_files-Completes :
      (r : Record) (files : List DeletionFile) (w : Resources)
      → Recorded r w
      → Completes (length files + 7) (remove_files files (Last r)) w
  unfolding remove_files
  remove_files-Completes r [] w h = weaken 7 (0 + 7) (Last r) w (last-Completes r w h) (omega arith)
  remove_files-Completes r (x ∷ xs) w h =
      weaken (suc (length xs + 7)) (suc (length xs) + 7)
        (remove_path x.path (remove_files xs (Last r))) w
        (step-Completes (length xs + 7) (λ a v. record v { files = remove x.path v.files })
          (remove_files xs (Last r)) w
          (λ a _. remove_files-Completes r xs (record w { files = remove x.path w.files }) h))
        (omega arith)

  -- A database is dropped only by its manager and under the generated name.
  abbrev pub CanDrop : Record → Type 0
  CanDrop r =
      (r.database =ᵗ []) ≡ false
      → (setup.has_database && r.database =ᵗ database_name setup site) ≡ true

  module _ (r : Record) (files : List DeletionFile) where
    abbrev Unlinking : P
    Unlinking = remove_files files (Last r)

    remove_site_tree-Completes :
        (w : Resources)
        → Recorded r w
        → Completes (length files + 10) (remove_site_tree setup site Unlinking) w
    unfolding remove_site_tree
    remove_site_tree-Completes w h =
        weaken (suc (suc (suc (length files + 7)))) (length files + 10)
          (remove_site_tree setup site Unlinking) w
          (reads-Completes (suc (suc (length files + 7)))
            (λ v.
              (if is_present (site_dir setup site) v.files
                  then reads (step (erase_tree setup site) Unlinking)
                  else Unlinking)
                v)
            w (by_presence (is_present (site_dir setup site) w.files)))
          (omega arith)
      where
        by_presence :
            (b : Bool)
            → Completes
                (suc (suc (length files + 7)))
                (if b then reads (step (erase_tree setup site) Unlinking) else Unlinking)
                w
        by_presence true =
            reads-Completes (suc (length files + 7)) (step (erase_tree setup site) Unlinking) w (
              step-Completes (length files + 7) (erase_tree setup site) Unlinking w
                (λ a _. remove_files-Completes r files (erase_tree setup site a w) h))
        by_presence false =
            weaken (length files + 7) (suc (suc (length files + 7))) Unlinking w
              (remove_files-Completes r files w h) (omega arith)

    abbrev Dropping : P
    Dropping = drop_database setup site r.database (remove_site_tree setup site Unlinking)

    drop_database-Completes :
        (w : Resources) → CanDrop r → Recorded r w → Completes (length files + 13) Dropping w
    unfolding drop_database
    drop_database-Completes w can h = elim (Bool-cases (r.database =ᵗ [])) [
      | inl e ↦ rw e (
          weaken (length files + 10) (length files + 13) (remove_site_tree setup site Unlinking) w
            (remove_site_tree-Completes w h) (omega arith))
      | inr e ↦
          rw (e, can e)
            (weaken (suc (suc (suc (length files + 10)))) (length files + 13)
              (stop database (
                stop database_user
                  (remove_path (secret_path setup site) (remove_site_tree setup site Unlinking))))
              w
              (step-Completes (suc (suc (length files + 10)))
                (λ a v. record v { runs = turned_off database false v.runs })
                (stop database_user
                  (remove_path (secret_path setup site) (remove_site_tree setup site Unlinking)))
                w
                (λ a _.
                  step-Completes (suc (length files + 10))
                    (λ a v. record v { runs = turned_off database_user false v.runs })
                    (remove_path (secret_path setup site) (remove_site_tree setup site Unlinking)) _
                    (λ a _.
                      step-Completes (length files + 10)
                        (λ a v. record v { files = remove (secret_path setup site) v.files })
                        (remove_site_tree setup site Unlinking) _
                        (λ a _. remove_site_tree-Completes _ h))))
              (omega arith))
    ]

    pub erase-Completes :
        (w : Resources)
        → CanDrop r
        → Recorded r w
        → Completes (length files + 16) (erase setup site files r) w
    unfolding erase
    erase-Completes w can h = by_identity r.identity refl
      where
        by_identity :
            (o : Option Identity)
            → r.identity ≡ o
            → Completes
                (length files + 16)
                (if_some o (stop_site (account_name setup site) (site_dir setup site)) Dropping)
                w
        by_identity none e =
            weaken (length files + 13) (length files + 16) Dropping w
              (drop_database-Completes w can h) (omega arith)
        by_identity (some i) e =
            weaken (suc (suc (suc (length files + 13)))) (length files + 16)
              (stop_site (account_name setup site) (site_dir setup site) i Dropping) w
              (stop_site-Completes setup site (length files + 13) i Dropping w
                (subst (λ o. is_recorded o (inspection setup site w) ≡ true) e h)
                (drop_database-Completes w can h)
                (λ a. drop_database-Completes (kill_processes a w) can h))
              (omega arith)
