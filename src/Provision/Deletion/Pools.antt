-- ===== src/Provision/Deletion/Pools.antt =====
-- The steps of internal/provision/delete_site.go that release the PHP pools of a site.
use wpx.Prelude.{
  ℕ, zero, suc, Bool, true, false, ◌≡◌, refl, inl, inr, Option, none, some, List, [], ◌∷◌, ◌⊎◌,
  if◌then◌else◌,
}
use wpx.Text.{Text}
use wpx.Model.Site.{Site}
use wpx.Provision.Attempt.{Answer}
use wpx.Provision.Deletion.Files.{
  Entry, Node, regular, directory, socket, symlink, lookup, is_safe_path,
}
use wpx.Provision.Deletion.Names.{
  Setup, Resources, P, listener, step, reads, check, pool, pool_dir, socket_path,
}
use wpx.Provision.Deletion.Php.{
  is_in_use, let_go, reload_or_stop_unused, release_pools, dial, look, wait_rounds, rounds,
  wait_stopped,
}
use wpx.Provision.Deletion.Quiet.{Absent, Off, Later, Later-refl, Later-trans}
use wpx.Provision.Deletion.Effects.{NodeKnown-remove, turned_off-Later}
use wpx.Provision.Deletion.Stages.{Apart, PoolsAbsent, Unheard, Safely, if-Holds}
use wpx.Provision.Deletion.Stopping.{
  Safe, Continues, Safe-Later, Safe-here, Later-step, Later-reads, remove_path-Holds,
}

module _ (setup : Setup) (site : Site) (w0 : Resources) where
  let_go-Later :
      (versions : List Text) (a : Answer) (w : Resources)
      → Later setup site w (let_go setup site versions a w)
  unfolding let_go
  let_go-Later versions a w = turned_off-Later setup site listener _ w refl refl

  reload_or_stop_unused-Holds :
      (version : Text) (next : P) (w : Resources) (answers : List Answer)
      → Safe setup site w0 w
      → Continues setup site w0 w (λ v. Unit {0}) next
      → Safely setup site w0 (reload_or_stop_unused setup site version next) w answers
  unfolding reload_or_stop_unused
  reload_or_stop_unused-Holds version next w answers safe n =
      Later-reads setup site w0
        (λ v.
          (if is_in_use (pool_dir setup site version) v.files then reads releases else releases) v)
        w answers safe (λ more. by_use (is_in_use (pool_dir setup site version) w.files) more)
    where
      releases : P
      releases = step (let_go setup site (version ∷ [])) next

      stops : (more : List Answer) → Safely setup site w0 releases w more
      stops more =
          Later-step setup site w0 (let_go setup site (version ∷ [])) next w more safe
            (λ a. let_go-Later (version ∷ []) a w)
            (λ a rest. n _ rest (let_go-Later (version ∷ []) a w) tt)

      by_use :
          (b : Bool) (more : List Answer)
          → Safely setup site w0 (if b then reads releases else releases) w more
      by_use true more = Later-reads setup site w0 releases w more safe stops
      by_use false more = stops more

  pub release_pools-Holds :
      (apart : Apart setup site) (versions : List Text) (next : P) (w : Resources)
      (answers : List Answer)
      → Safe setup site w0 w
      → Continues setup site w0 w (PoolsAbsent setup site versions) next
      → Safely setup site w0 (release_pools setup site versions next) w answers
  unfolding release_pools
  release_pools-Holds apart [] next w answers safe n = n w answers (Later-refl setup site w) tt
  release_pools-Holds apart (x ∷ xs) next w answers safe n =
      remove_path-Holds setup site w0 (pool setup site x)
        (reload_or_stop_unused setup site x (release_pools setup site xs next)) w answers
        (apart.pool x) (NodeKnown-remove setup site (pool setup site x) w (apart.pool_unit x)) safe
        (λ v more l gone.
          reload_or_stop_unused-Holds x (release_pools setup site xs next) v more
            (Safe-Later setup site w0 l safe)
            (λ u rest m _.
              let far = Later-trans setup site l m in
              release_pools-Holds apart xs next u rest (Safe-Later setup site w0 far safe)
                (λ z last k absent.
                  n z last (Later-trans setup site far k)
                    (k.quieter.files _ (m.quieter.files _ gone), absent))))

  abbrev Hidden : Resources → Type 0
  Hidden w = Absent (socket_path setup site) w ⊎ Off listener w

  dial-Holds :
      (node : Node) (b : Bool) (again next : P) (w : Resources) (answers : List Answer)
      → w.runs listener ≡ b
      → Safe setup site w0 w
      → Safely setup site w0 again w answers
      → Continues setup site w0 w Hidden next
      → Safely setup site w0 (dial setup site node b again next) w answers
  dial-Holds socket true again next w answers on safe repeat k = repeat
  dial-Holds socket false again next w answers off safe repeat k =
      k w answers (Later-refl setup site w) (inr off)
  dial-Holds (regular content) b again next w answers on safe repeat k =
      Safe-here setup site w0 w safe
  dial-Holds directory b again next w answers on safe repeat k = Safe-here setup site w0 w safe
  dial-Holds (symlink target) b again next w answers on safe repeat k =
      Safe-here setup site w0 w safe

  look-Holds :
      (o : Option Entry) (again next : P) (w : Resources) (answers : List Answer)
      → lookup (socket_path setup site) w.files ≡ o
      → Safe setup site w0 w
      → Safely setup site w0 again w answers
      → Continues setup site w0 w Hidden next
      → Safely setup site w0 (look setup site o (w.runs listener) again next) w answers
  look-Holds none again next w answers gone safe repeat k =
      k w answers (Later-refl setup site w) (inl gone)
  look-Holds (some e) again next w answers there safe repeat k =
      dial-Holds e.node (w.runs listener) again next w answers refl safe repeat k

  wait_rounds-Holds :
      (n : ℕ) (versions : List Text) (next : P) (w : Resources) (answers : List Answer)
      → Safe setup site w0 w
      → Continues setup site w0 w Hidden next
      → Safely setup site w0 (wait_rounds setup site n versions next) w answers
  unfolding wait_rounds
  wait_rounds-Holds zero versions next w answers safe k = Safe-here setup site w0 w safe
  wait_rounds-Holds (suc n) versions next w answers safe k =
      Later-step setup site w0 (let_go setup site versions)
        (λ v.
          look setup site (lookup (socket_path setup site) v.files) (v.runs listener)
            (wait_rounds setup site n versions next) next v)
        w answers safe (λ a. let_go-Later versions a w)
        (λ a rest.
          let v : Resources = let_go setup site versions a w in
          let l : Later setup site w v = let_go-Later versions a w in
          let onward : Continues setup site w0 v Hidden next =
            λ u last m hidden. k u last (Later-trans setup site l m) hidden in
          look-Holds (lookup (socket_path setup site) v.files)
            (wait_rounds setup site n versions next) next v rest refl
            (Safe-Later setup site w0 l safe)
            (wait_rounds-Holds n versions next v rest (Safe-Later setup site w0 l safe) onward)
            onward)

  pub wait_stopped-Holds :
      (x : Text) (xs : List Text) (next : P) (w : Resources) (answers : List Answer)
      → Safe setup site w0 w
      → Continues setup site w0 w (Unheard setup site (x ∷ xs)) next
      → Safely setup site w0 (wait_stopped setup site (x ∷ xs) next) w answers
  unfolding wait_stopped
  wait_stopped-Holds x xs next w answers safe k =
      Later-reads setup site w0
        (check (λ v. is_safe_path v.files (socket_path setup site))
          (wait_rounds setup site rounds (x ∷ xs) next))
        w answers safe
        (λ more.
          if-Holds setup site w0 (is_safe_path w.files (socket_path setup site))
            (wait_rounds setup site rounds (x ∷ xs) next) w more (Safe-here setup site w0 w safe)
            (λ _. wait_rounds-Holds rounds (x ∷ xs) next w more safe k))
