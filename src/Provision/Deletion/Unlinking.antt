-- ===== src/Provision/Deletion/Unlinking.antt =====
-- The steps of internal/provision/delete_site.go that remove the tree and the files of a site.
use wpx.Prelude.{
  true, false, ◌≡◌, refl, sym, ◌∙◌, ◌⊎◌, inl, inr, Option, none, some, List, [], ◌∷◌, if◌then◌else◌,
}
use wpx.Text.{Text}
use wpx.Text.Paths.{is_within}
use wpx.Model.Site.{Site}
use wpx.Provision.Attempt.{Answer, attempt-Holds_succeeds, give_back}
use wpx.Provision.Deletion.Files.{DeletionFile, Entry, lookup, remove, is_present}
use wpx.Provision.Deletion.Names.{Record, Setup, Resources, P, failed, step, reads, site_dir}
use wpx.Provision.Deletion.Removal.{
  lookup-remove, lookup-remove_tree_kept, lookup-remove_tree, lookup-remove_tree-none,
}
use wpx.Provision.Deletion.Quiet.{Absent, Quieter, Quieter-refl, Quieter-trans}
use wpx.Provision.Deletion.Effects.{remove-Quieter, remove_tree-Quieter}
use wpx.Provision.Deletion.Stages.{
  FilesAbsent, Rooted, HasAccount, FitsRecord, Reported, Safely, reads-Holds,
}
use wpx.Provision.Deletion.Steps.{left_by, erase_tree, remove_site_tree, remove_files}
use wpx.Provision.Deletion.Erasing.{
  left_by_cases, Erasing, Erasing-FitsRecord, Erasing-stable, Goes, Erasing-step,
}

module _ (setup : Setup) (site : Site) (w0 : Resources) (r : Record) where
  module _ (is_stopped : r.is_runtime_stopped ≡ true) (is_open : r.is_done ≡ false)
      (owner : HasAccount setup site r.identity w0) where
    abbrev pub NoTree : Resources → Type 0
    NoTree w = (path : Text) → is_within (site_dir setup site) path ≡ true → Absent path w

    -- A removal that was cut short leaves the directory, or nothing.
    erased-Rooted :
        (a : Answer) (w : Resources)
        → Rooted setup site w
        → Rooted setup site (erase_tree setup site a w)
    erased-Rooted a w rooted gone path h = by_left (left_by_cases (site_dir setup site) a)
      where
        by_left :
            ((p : Text) → left_by (site_dir setup site) a p ≡ false)
              ⊎ (left_by (site_dir setup site) a (site_dir setup site) ≡ true)
            → Absent path (erase_tree setup site a w)
        by_left (inl nothing) =
            lookup-remove_tree (site_dir setup site) (left_by (site_dir setup site) a) path w.files
              nothing h
        by_left (inr root) =
            lookup-remove_tree-none (site_dir setup site) (left_by (site_dir setup site) a) path
              w.files
              (rooted
                (sym (
                    lookup-remove_tree_kept (site_dir setup site) (left_by (site_dir setup site) a)
                      (site_dir setup site) w.files root)
                  ∙ gone)
                path h)

    pub remove_site_tree-Holds :
        (next : P) (w : Resources) (answers : List Answer)
        → Erasing setup site w0 r is_stopped is_open owner w
        → Goes setup site w0 r is_stopped is_open owner w NoTree next
        → Safely setup site w0 (remove_site_tree setup site next) w answers
    unfolding remove_site_tree
    remove_site_tree-Holds next w answers e n =
        reads-Holds setup site w0
          (λ v.
            (if is_present (site_dir setup site) v.files
                then reads (step (erase_tree setup site) next)
                else next)
              v)
          w answers (Erasing-FitsRecord setup site w0 r is_stopped is_open owner w e)
          (λ rest. by_presence (lookup (site_dir setup site) w.files) refl rest)
      where
        erased :
            (a : Answer)
            → Erasing setup site w0 r is_stopped is_open owner (erase_tree setup site a w)
        erased a =
            Erasing-stable setup site w0 r is_stopped is_open owner
              (remove_tree-Quieter setup site (site_dir setup site)
                (left_by (site_dir setup site) a) w)
              (erased-Rooted a w e.rooted) e

        erases :
            (more : List Answer) → Safely setup site w0 (step (erase_tree setup site) next) w more
        erases more =
            attempt-Holds_succeeds (FitsRecord setup site w0) (Reported setup site w0)
              (erase_tree setup site) (give_back failed) next w more
              (Erasing-FitsRecord setup site w0 r is_stopped is_open owner w e)
              (λ a. (Erasing-FitsRecord setup site w0 r is_stopped is_open owner) _ (erased a))
              (λ _. (Erasing-FitsRecord setup site w0 r is_stopped is_open owner) w e)
              (λ a _. (Erasing-FitsRecord setup site w0 r is_stopped is_open owner) _ (erased a))
              (λ a done rest.
                n (erase_tree setup site a w) rest
                  (remove_tree-Quieter setup site (site_dir setup site)
                    (left_by (site_dir setup site) a) w)
                  (erased a)
                  (λ path h.
                    lookup-remove_tree (site_dir setup site) (left_by (site_dir setup site) a) path
                      w.files (λ p. rw done) h))

        by_presence :
            (o : Option Entry)
            → lookup (site_dir setup site) w.files ≡ o
            → (more : List Answer)
            → Safely setup site w0
                (if (elim o [ none ↦ false | some x ↦ true ])
                  then reads (step (erase_tree setup site) next)
                  else next)
                w
                more
        by_presence none gone more = n w more (Quieter-refl setup site w) e (e.rooted gone)
        by_presence (some x) there more =
            reads-Holds setup site w0 (step (erase_tree setup site) next) w more
              (Erasing-FitsRecord setup site w0 r is_stopped is_open owner w e) erases

    abbrev pub AllAbsent : List DeletionFile → Resources → Type 0
    AllAbsent files w = NoTree w × FilesAbsent setup site files w

    -- The files go when the tree is gone.
    pub remove_files-Holds :
        (files : List DeletionFile) (next : P) (w : Resources) (answers : List Answer)
        → Erasing setup site w0 r is_stopped is_open owner w
        → NoTree w
        → Goes setup site w0 r is_stopped is_open owner w (AllAbsent files) next
        → Safely setup site w0 (remove_files files next) w answers
    unfolding remove_files
    remove_files-Holds [] next w answers e gone n =
        n w answers (Quieter-refl setup site w) e (gone, tt)
    remove_files-Holds (x ∷ xs) next w answers e gone n =
        Erasing-step setup site w0 r is_stopped is_open owner
          (λ a v. record v { files = remove x.path v.files }) (remove_files xs next) w answers e
          (λ _. e1)
          (λ _ rest. remove_files-Holds xs next w1 rest e1 gone1 (λ v last m k absent.
            n v last (Quieter-trans setup site q m) k
              (absent.0, (m.files _ (lookup-remove x.path w.files), absent.1))))
      where
        w1 : Resources
        w1 = record w { files = remove x.path w.files }

        q : Quieter setup site w w1
        q = remove-Quieter setup site x.path w

        gone1 : NoTree w1
        gone1 path h = q.files path (gone path h)

        e1 : Erasing setup site w0 r is_stopped is_open owner w1
        e1 = Erasing-stable setup site w0 r is_stopped is_open owner q (λ _. gone1) e
