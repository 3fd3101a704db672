-- ===== src/Provision/Deletion/Erasing.antt =====
-- The steps of internal/provision/delete_site.go after the processes have stopped: the database, the
-- tree and the files.
use mathlib.Core.Path.{subst}
use wpx.Prelude.{
  Bool, true, false, ◌≡◌, sym, ◌∙◌, ◌⊎◌, inl, inr, Bool-cases, some, List, [], ◌&&◌, arith,
}
use wpx.Text.{Text, ◌=ᵗ◌}
use wpx.Text.Laws.{=ᵗ_refl}
use wpx.Model.Site.{Site}
use wpx.Provision.Attempt.{Answer}
use wpx.Provision.Deletion.Files.{remove}
use wpx.Provision.Deletion.Names.{
  Record, Setup, Resources, P, database, database_user, step, stop, remove_path, turned_off,
  site_dir, secret_path, database_name, Activity,
}
use wpx.Provision.Deletion.Removal.{lookup-remove, lookup-remove_ne}
use wpx.Provision.Deletion.Quiet.{Absent, Off, Quieter, Quieter-refl, Quieter-trans}
use wpx.Provision.Deletion.Effects.{remove-Quieter, turned_off-Quieter}
use wpx.Provision.Deletion.Stages.{
  Apart, After, InStage, Stopped, NoProcesses, NoDatabase, Erased, Rooted, HasAccount, FitsRecord,
  FitsRecord-of, Safely, step-Holds, if-Holds,
}
use wpx.Provision.Deletion.Stability.{Stopped-stable, NoProcesses-stable, Erased-stable}
use wpx.Provision.Deletion.Steps.{left_by, drop_database}

-- Either nothing is left, or the directory is.
pub left_by_cases :
    (root : Text) (a : Answer)
    → ((p : Text) → left_by root a p ≡ false) ⊎ (left_by root a root ≡ true)
left_by_cases root a = elim (Bool-cases (left_by root a root)) [
  | inl e ↦ inr e
  | inr e ↦ inl (λ p. ground (arith, =ᵗ_refl root))
]

module _ (setup : Setup) (site : Site) (w0 : Resources) (r : Record) where
  module _ (is_stopped : r.is_runtime_stopped ≡ true) (is_open : r.is_done ≡ false)
      (owner : HasAccount setup site r.identity w0) where
    -- With the processes stopped, on the way to the removal of the tree.
    pub record Erasing (w : Resources) : Type 0 where
      pub saved : w.saved ≡ some r
      pub rooted : Rooted setup site w
      pub stopped : Stopped setup site r.php_versions w
      pub off : NoProcesses setup site r.identity w
      pub account : (w.account ≡ w0.account) ⊎ Erased setup site r w

    pub in_stage :
        (w : Resources) → After setup site w0 r w → w.saved ≡ some r → FitsRecord setup site w0 w
    in_stage w after saved = FitsRecord-of setup site w0 r w saved (
        subst (λ b. InStage setup site w0 b r.is_done r w) (sym is_stopped)
          (subst (λ b. InStage setup site w0 true b r w) (sym is_open) after))

    pub Erasing-FitsRecord : (w : Resources) → Erasing w → FitsRecord setup site w0 w
    Erasing-FitsRecord w e = in_stage w after e.saved
      where
        after : After setup site w0 r w
        after = record {
          owner = owner;
          rooted = e.rooted;
          stopped = e.stopped;
          spared = inr e.off;
          account = e.account;
        }

    pub Erasing-stable :
        {w v : Resources} → Quieter setup site w v → Rooted setup site v → Erasing w → Erasing v
    Erasing-stable q rooted e = record {
      saved = q.saved ∙ e.saved;
      rooted = rooted;
      stopped = Stopped-stable setup site r.php_versions q e.stopped;
      off = NoProcesses-stable setup site r.identity q e.off;
      account = elim e.account [
        | inl same ↦ inl (q.account ∙ same)
        | inr erased ↦ inr (Erased-stable setup site r q erased)
      ];
    }

    -- What follows is safe wherever the steps may end.
    abbrev pub Goes : Resources → (Resources → Type 0) → P → Type 0
    Goes w Fact next =
        (v : Resources) (rest : List Answer)
        → Quieter setup site w v
        → Erasing v
        → Fact v
        → Safely setup site w0 next v rest

    -- A step that keeps all this.
    pub Erasing-step :
        (effect : Answer → Resources → Resources) (next : P) (w : Resources) (answers : List Answer)
        → Erasing w
        → ((a : Answer) → Erasing (effect a w))
        → ((a : Answer) (rest : List Answer) → Safely setup site w0 next (effect a w) rest)
        → Safely setup site w0 (step effect next) w answers
    Erasing-step effect next w answers e l n =
        step-Holds setup site w0 effect next w answers (Erasing-FitsRecord w e)
          (λ a. Erasing-FitsRecord (effect a w) (l a)) n

    turned-off : (x : Activity) (runs : Activity → Bool) → turned_off x false runs x ≡ false
    turned-off x runs = ground arith

    drops-Holds :
        (apart : Apart setup site) (next : P) (w : Resources) (answers : List Answer)
        → Erasing w
        → Goes w
            (λ v. Off database v × Off database_user v × Absent (secret_path setup site) v)
            next
        → Safely setup site w0
            (stop database (stop database_user (remove_path (secret_path setup site) next)))
            w
            answers
    drops-Holds apart next w answers e n =
        Erasing-step (λ a v. record v { runs = turned_off database false v.runs })
          (stop database_user (remove_path (secret_path setup site) next)) w answers e (λ _. e1)
          (λ _ more.
            Erasing-step (λ a v. record v { runs = turned_off database_user false v.runs })
              (remove_path (secret_path setup site) next) w1 more e1 (λ _. e2)
              (λ _ more.
                Erasing-step (λ a v. record v { files = remove (secret_path setup site) v.files })
                  next w2 more e2 (λ _. e3)
                  (λ _ rest.
                    n w3 rest (Quieter-trans setup site (Quieter-trans setup site q1 q2) q3) e3 (
                      q3.runs database (q2.runs database (turned-off database w.runs)),
                      q3.runs database_user (turned-off database_user w1.runs),
                      lookup-remove (secret_path setup site) w.files,
                    ))))
      where
        w1 : Resources
        w1 = record w { runs = turned_off database false w.runs }

        w2 : Resources
        w2 = record w1 { runs = turned_off database_user false w1.runs }

        w3 : Resources
        w3 = record w2 { files = remove (secret_path setup site) w2.files }

        q1 : Quieter setup site w w1
        q1 = turned_off-Quieter setup site database false w

        q2 : Quieter setup site w1 w2
        q2 = turned_off-Quieter setup site database_user false w1

        q3 : Quieter setup site w2 w3
        q3 = remove-Quieter setup site (secret_path setup site) w2

        e1 : Erasing w1
        e1 = Erasing-stable q1 e.rooted e

        e2 : Erasing w2
        e2 = Erasing-stable q2 e.rooted e1

        e3 : Erasing w3
        e3 =
            Erasing-stable q3
              (λ gone path h. q3.files path (
                e.rooted
                  (sym (
                      lookup-remove_ne (secret_path setup site) (site_dir setup site) w.files
                        apart.secret)
                    ∙ gone)
                  path h))
              e2

    pub drop_database-Holds :
        (apart : Apart setup site) (name : Text) (next : P) (w : Resources) (answers : List Answer)
        → Erasing w
        → Goes w (NoDatabase setup site name) next
        → Safely setup site w0 (drop_database setup site name next) w answers
    unfolding drop_database
    drop_database-Holds apart name next w answers e n = elim (Bool-cases (name =ᵗ [])) [
      | inl h ↦ rw h (n w answers (Quieter-refl setup site w) e (λ k. cc))
      | inr h ↦ rw h (
          if-Holds setup site w0 (setup.has_database && name =ᵗ database_name setup site)
            (stop database (stop database_user (remove_path (secret_path setup site) next))) w
            answers (Erasing-FitsRecord w e)
            (λ _. drops-Holds apart next w answers e (λ v rest q k gone. n v rest q k (λ _. gone))))
    ]
