-- ===== src/Alerts/Condition/Course.antt =====
-- The row of a condition over a series of evaluations (internal/alerts/monitor.go), with all the
-- errors of their calls.
use mathlib.Core.Path.{subst}
use wpx.Prelude.{
  ℕ, suc, ◌+◌, ◌^◌, ◌<◌, ◌≤◌, Bool, false, ◌≡◌, List, [], ◌∷◌, sym, ap, inl, inr, ◌∙◌, arith,
  if◌then◌else◌,
}
use wpx.Text.{Text, codes, length}
use wpx.Text.Search.{has_prefix}
use wpx.Alerts.Settings.{AlertRule, OperatorAlertSettings}
use wpx.Alerts.State.{Alerts, row_or_fresh}
use wpx.Alerts.Monitor.{cooldown_of}
use wpx.Alerts.Condition.{Calls, condition}
use wpx.Alerts.Condition.Phases.{Phase, next, cycle_of, InPhase, moves}
use wpx.Alerts.Condition.Row.{condition-InPhase}
use wpx.Alerts.Condition.History.{place, place_of, place-identity_of, place-moved, InOrder}

-- One evaluation of a condition: whether it is bad, and what the calls meet.
pub record Evaluation : Type 0 where
  pub calls : Calls
  pub bad : Bool

module _ (digest : Text → Text) (settings : OperatorAlertSettings) (rule : AlertRule) (key : Text)
    (trigger : ℕ) where
  -- The identities that the row holds after each of the evaluations.
  unfoldable pub recorded_over : List Evaluation → Alerts → List Text
  unfolding condition
  recorded_over [] alerts = []
  recorded_over (e ∷ rest) alerts =
      let alerts1 = (condition digest e.calls settings rule key e.bad trigger alerts).0 in
      (row_or_fresh key (alerts1 key)).last_fingerprint ∷ recorded_over rest alerts1

  -- For a condition whose key does not begin with delivery:, from a phase whose cycle stays below
  -- 2^64 over the evaluations: the identities that the row holds after each of any series of
  -- evaluations never go back, whatever their calls meet, failed loads, saves and deliveries
  -- included. Open comes before resolved within a cycle, and a cycle before the next.
  pub recorded_over-InOrder :
      (evaluations : List Evaluation) (p : Phase) (alerts : Alerts)
      → has_prefix (codes "delivery:") key ≡ false
      → InPhase p (row_or_fresh key (alerts key))
      → cycle_of p + length evaluations < 2 ^ 64
      → InOrder (place_of p) (recorded_over evaluations alerts)
  unfolding recorded_over
  recorded_over-InOrder [] p alerts is_condition i small = tt
  recorded_over-InOrder (e ∷ rest) p alerts is_condition i small =
      elim (condition-InPhase digest e.calls settings rule key e.bad trigger alerts is_condition p i
        (omega arith)) [
          | inl same ↦
              let i1 : InPhase p (row_or_fresh key (alerts1 key)) =
                subst (λ o. InPhase p (row_or_fresh key o)) (sym same) i in
              goes_on p (omega arith) (omega arith) i1
                (recorded_over-InOrder rest p alerts1 is_condition i1 (omega arith))
          | inr moved ↦
              let near : cycle_of q ≤ suc (cycle_of p) = on.1 in
              goes_on q on.0 near moved
                (recorded_over-InOrder rest q alerts1 is_condition moved (omega (arith, near)))
        ]
    where
      alerts1 : Alerts
      alerts1 = (condition digest e.calls settings rule key e.bad trigger alerts).0

      is_moved : Bool
      is_moved =
          moves e.bad trigger (cooldown_of settings) e.calls.now (row_or_fresh key (alerts key))

      q : Phase
      q = if is_moved then next p else p

      on : (place_of p ≤ place_of q) × (cycle_of q ≤ suc (cycle_of p))
      on = place-moved p is_moved

      goes_on :
          (r : Phase)
          → place_of p ≤ place_of r
          → cycle_of r ≤ suc (cycle_of p)
          → InPhase r (row_or_fresh key (alerts1 key))
          → InOrder (place_of r) (recorded_over rest alerts1)
          → InOrder
              (place_of p)
              ((row_or_fresh key (alerts1 key)).last_fingerprint ∷ recorded_over rest alerts1)
      goes_on r low near j later =
          let at : place (row_or_fresh key (alerts1 key)).last_fingerprint ≡ place_of r =
            ap place j.identity ∙ place-identity_of r (omega arith) in
          rw at (low, later)
