-- ===== src/Store/Backups/Caught.antt =====
-- The schedules after `EnqueueDueBackups` (internal/store/backup_schedules.go).
use wpx.Prelude.{
  ℕ, suc, ◌*◌, ◌^◌, ◌<◌, ◌≤◌, String, Bool, true, false, ◌≡◌, ◌||◌, ◌==◌, List, [], ◌∷◌, refl, inl,
  inr, ◌∙◌, Bool-cases, arith, eq_refl,
}
use wpx.Prelude.Table
use wpx.Text.{length}
use wpx.Stamp.{Stamp, add, sorts_before}
use wpx.Stamp.Order.{sorts_before-second}
use wpx.Store.Backups.{
  BackupSchedule, BackupQueue, is_due, by_next_run, limit, due_schedules, run_of, moved_on, advance,
  enqueue_one, enqueue_each, enqueue_due_backups,
}
use wpx.Store.Backups.Query.{any-by_next_run, any-select_ne, length-due, limit_all, select-none}

-- The next run is after the present instant.
moved_on_later :
    (now : Stamp) (hours : ℕ)
    → now.nano < 10 ^ 9
    → 0 < hours
    → sorts_before now (add now (hours * (3600 * 10 ^ 9))) ≡ true
unfolding add
moved_on_later now hours low some_time =
    (sorts_before-second now (add now (hours * (3600 * 10 ^ 9))) low (omega arith) (omega arith)).0

abbrev pub is_idle : BackupSchedule → Bool
is_idle s = s.interval_hours == 0

module _ (now : Stamp) (sites targets : List String) (low : now.nano < 10 ^ 9) where
  moved_on-is_due :
      (hours : ℕ) (r : BackupSchedule)
      → 0 < hours
      → is_due now sites targets (moved_on now hours r) ≡ false
  unfolding is_due
  moved_on-is_due hours r h =
      let e = moved_on_later now hours low h in
      elim (Bool-cases r.enabled) [ inl f ↦ rw f (rw e refl) | inr f ↦ rw f refl ]

  -- Every row that is due is one of these.
  abbrev pub Covered : List BackupSchedule → List BackupSchedule → Type 0
  Covered due [] = Unit {0}
  Covered due (r ∷ rows) =
      (is_due now sites targets r ≡ true → Table.any (λ s. run_of s r) due ≡ true)
      × Covered due rows

  Covered-none :
      (rows : List BackupSchedule)
      → Covered [] rows
      → Table.any (is_due now sites targets) rows ≡ false
  unfolding Table.any
  Covered-none [] k = refl
  Covered-none (r ∷ rows) k =
      let never = k.0 in
      elim (Bool-cases (is_due now sites targets r)) [
        | inl e ↦ let never1 = never e in cc
        | inr e ↦ rw e (Covered-none rows k.1)
      ]

  Covered-advance :
      (s : BackupSchedule) (due rows : List BackupSchedule)
      → 0 < s.interval_hours
      → Covered (s ∷ due) rows
      → Covered due (advance now s rows)
  unfolding Table.any Table.update
  Covered-advance s due [] h k = tt
  Covered-advance s due (r ∷ rows) h k = elim (Bool-cases (run_of s r)) [
    | inl e ↦ rw e (
      (λ d. let gone = moved_on-is_due s.interval_hours r h in cc),
      Covered-advance s due rows h k.1,
    )
    | inr e ↦ rw e (
      (λ d.
          let one : (run_of s r || Table.any (λ t. run_of t r) due) ≡ true = k.0 d in
          ground (arith, one, e)),
      Covered-advance s due rows h k.1,
    )
  ]

  -- A row that is due is covered by all the rows that are due.
  Covered-select :
      (due rows : List BackupSchedule)
      → ((r : BackupSchedule)
          → is_due now sites targets r ≡ true
          → Table.any (λ s. run_of s r) (Table.select (is_due now sites targets) rows) ≡ true
          → Table.any (λ s. run_of s r) due ≡ true)
      → Covered due rows
  unfolding Table.any Table.select
  Covered-select due [] k = tt
  Covered-select due (r ∷ rows) k = (
    λ d. let own : run_of r r ≡ true = ground (arith, eq_refl r.id) in k r d (rw d (rw own refl)),
    Covered-select due rows (λ x d h. k x d (wider x h)),
  )
    where
      wider :
          (x : BackupSchedule)
          → Table.any (λ s. run_of s x) (Table.select (is_due now sites targets) rows) ≡ true
          → Table.any (λ s. run_of s x) (Table.select (is_due now sites targets) (r ∷ rows)) ≡ true
      wider x h = elim (Bool-cases (is_due now sites targets r)) [
        | inr e ↦ rw e h
        | inl e ↦ rw e (ground (arith, h))
      ]

  advance_all : List BackupSchedule → List BackupSchedule → List BackupSchedule
  advance_all [] rows = rows
  advance_all (s ∷ due) rows = advance_all due (advance now s rows)

  advance_all-none :
      (due rows : List BackupSchedule)
      → Table.any is_idle due ≡ false
      → Covered due rows
      → Table.any (is_due now sites targets) (advance_all due rows) ≡ false
  unfolding advance_all Table.any
  advance_all-none [] rows h k = Covered-none rows k
  advance_all-none (s ∷ due) rows h k =
      let some_time : 0 < s.interval_hours = ground (arith, h) in
      let others : Table.any is_idle due ≡ false = ground (arith, h) in
      advance_all-none due (advance now s rows) others (Covered-advance s due rows some_time k)

  enqueue_each-advance_all :
      (draw : ℕ → String) (n : ℕ) (due : List BackupSchedule) (queue : BackupQueue)
      → ((enqueue_each now draw n due queue).schedules ≡ advance_all due queue.schedules)
        × ((enqueue_each now draw n due queue).active_sites ≡ queue.active_sites)
        × ((enqueue_each now draw n due queue).active_targets ≡ queue.active_targets)
  unfolding enqueue_each advance_all
  enqueue_each-advance_all draw n [] queue = (refl, refl, refl)
  enqueue_each-advance_all draw n (s ∷ due) queue =
      enqueue_each-advance_all draw (suc n) due (enqueue_one now (draw n) s queue)

  due_within :
      (rows : List BackupSchedule)
      → Table.count (is_due now sites targets) rows ≤ 100
      → length (by_next_run (Table.select (is_due now sites targets) rows)) ≤ 100
  due_within rows few =
      let whole = length-due (is_due now sites targets) rows in omega (arith, whole)

  -- The query finds every row that is due, unless there are more than a hundred.
  pub Covered-due :
      (rows : List BackupSchedule)
      → Table.count (is_due now sites targets) rows ≤ 100
      → Covered (limit 100 (by_next_run (Table.select (is_due now sites targets) rows))) rows
  Covered-due rows few = Covered-select _ rows (λ r d h.
      rw
        (limit_all 100 (by_next_run (Table.select (is_due now sites targets) rows))
          (due_within rows few))
        (any-by_next_run (λ s. run_of s r) (Table.select (is_due now sites targets) rows) ∙ h))

  due-is_idle :
      (rows : List BackupSchedule)
      → Table.count (is_due now sites targets) rows ≤ 100
      → Table.any is_idle rows ≡ false
      → Table.any is_idle (limit 100 (by_next_run (Table.select (is_due now sites targets) rows)))
        ≡ false
  due-is_idle rows few busy =
      rw
        (limit_all 100 (by_next_run (Table.select (is_due now sites targets) rows))
          (due_within rows few))
        (any-by_next_run is_idle (Table.select (is_due now sites targets) rows)
          ∙ any-select_ne is_idle (is_due now sites targets) rows busy)

-- Whether a schedule is due.
abbrev pub some_due : Stamp → BackupQueue → Bool
some_due now queue = Table.any (is_due now queue.active_sites queue.active_targets) queue.schedules

enqueue_due_backups-idle :
    (now : Stamp) (draw : ℕ → String) (queue : BackupQueue)
    → some_due now queue ≡ false
    → enqueue_due_backups now draw queue ≡ (0, queue)
unfolding enqueue_due_backups due_schedules enqueue_each by_next_run limit
enqueue_due_backups-idle now draw queue h =
    rw (select-none (is_due now queue.active_sites queue.active_targets) queue.schedules h) refl

enqueue_due_backups-some_due :
    (now : Stamp) (draw : ℕ → String) (queue : BackupQueue)
    → now.nano < 10 ^ 9
    → Table.any is_idle queue.schedules ≡ false
    → Table.count (is_due now queue.active_sites queue.active_targets) queue.schedules ≤ 100
    → some_due now (enqueue_due_backups now draw queue).1 ≡ false
unfolding enqueue_due_backups due_schedules
enqueue_due_backups-some_due now draw queue low busy few =
    let (rows, sites, targets) =
      enqueue_each-advance_all now queue.active_sites queue.active_targets low draw 0
        (due_schedules now queue) queue in
    rw sites (
      rw targets (
        rw rows (
          advance_all-none now queue.active_sites queue.active_targets low (due_schedules now queue)
            queue.schedules
            (due-is_idle now queue.active_sites queue.active_targets low queue.schedules few busy)
            (Covered-due now queue.active_sites queue.active_targets low queue.schedules few))))

-- When the nanoseconds of the instant are below 10^9, at most a hundred schedules are due and no
-- schedule has an interval of zero hours, none is due after the due backups have been enqueued, and
-- enqueueing them again at the same instant enqueues nothing and changes nothing.
pub enqueue_due_backups_twice :
    (now : Stamp) (draw draw1 : ℕ → String) (queue : BackupQueue)
    → now.nano < 10 ^ 9
    → Table.any is_idle queue.schedules ≡ false
    → Table.count (is_due now queue.active_sites queue.active_targets) queue.schedules ≤ 100
    → (some_due now (enqueue_due_backups now draw queue).1 ≡ false)
      × (enqueue_due_backups now draw1 (enqueue_due_backups now draw queue).1
          ≡ (0, (enqueue_due_backups now draw queue).1))
enqueue_due_backups_twice now draw draw1 queue low busy few =
    let none_due = enqueue_due_backups-some_due now draw queue low busy few in
    (none_due, enqueue_due_backups-idle now draw1 (enqueue_due_backups now draw queue).1 none_due)
