-- ===== src/Alerts/Condition/Row.antt =====
-- `condition` of internal/alerts/monitor.go on the table, with all its errors.
use mathlib.Core.Path.{subst}
use wpx.Prelude.{
  ℕ, suc, ◌^◌, ◌<◌, Bool, true, false, ◌≡◌, Option, some, none, refl, sym, inl, inr, ◌∙◌, ◌⊎◌,
  arith, if◌then◌else◌,
}
use wpx.Text.{Text, codes, ◌=ᵗ◌}
use wpx.Text.Laws.{=ᵗ_refl}
use wpx.Text.Search.{has_prefix}
use wpx.Stamp.{Stamp}
use wpx.Alerts.Settings.{AlertRule, OperatorAlertSettings}
use wpx.Alerts.State.{AlertState, Alerts, row_or_fresh}
use wpx.Alerts.Monitor.{cooldown_of}
use wpx.Alerts.Rows.{load_cases, save_cases, send-other}
use wpx.Alerts.Condition.{Said, Calls, sampled, say, condition_in, condition}
use wpx.Alerts.Condition.Phases.{Phase, next, cycle_of, InPhase, moves, sampled-Goes}

sampled_key :
    (bad : Bool) (trigger cooldown : ℕ) (now : Stamp) (state : AlertState)
    → (sampled bad trigger cooldown now state).0.key ≡ state.key
unfolding sampled
sampled_key bad trigger cooldown now state = ground arith

row_or_fresh_key : (key : Text) (o : Option AlertState) → (row_or_fresh key o).key ≡ key
row_or_fresh_key key none = refl
row_or_fresh_key key (some state) = refl

module _ (digest : Text → Text) (calls : Calls) (settings : OperatorAlertSettings)
    (rule : AlertRule) (key : Text) (bad : Bool) (trigger : ℕ) (alerts : Alerts)
    (is_condition : has_prefix (codes "delivery:") key ≡ false) where
  abbrev row : AlertState
  row = row_or_fresh key (alerts key)

  abbrev sampled_row : Said
  sampled_row = sampled bad trigger (cooldown_of settings) calls.now row

  say-other :
      (said : Option Text)
      → (say digest calls.outcomes settings rule calls.now_sending key said alerts).0 key
        ≡ alerts key
  say-other none = refl
  say-other (some identity) =
      send-other digest key calls.outcomes settings rule calls.now_sending identity key alerts
        is_condition

  saved_row :
      ((condition_in digest calls settings rule key bad trigger alerts (some row)).0 key
        ≡ alerts key)
      ⊎ ((condition_in digest calls settings rule key bad trigger alerts (some row)).0 key
          ≡ some sampled_row.0)
  saved_row = elim (save_cases calls.saves sampled_row.0 alerts1) [
    | inl f ↦ inl (rw f (say-other sampled_row.1))
    | inr f ↦ inr (rw f (rw own refl))
  ]
    where
      alerts1 : Alerts
      alerts1 =
          (say digest calls.outcomes settings rule calls.now_sending key sampled_row.1 alerts).0

      own : (sampled_row.0.key =ᵗ key) ≡ true
      own =
          subst (λ x. (x =ᵗ key) ≡ true)
            (sym (
              sampled_key bad trigger (cooldown_of settings) calls.now row
              ∙ row_or_fresh_key key (alerts key)))
            (=ᵗ_refl key)

  condition_row :
      ((condition digest calls settings rule key bad trigger alerts).0 key ≡ alerts key)
      ⊎ ((condition digest calls settings rule key bad trigger alerts).0 key ≡ some sampled_row.0)
  unfolding condition
  condition_row = elim (load_cases calls.loads key alerts) [
    | inl f ↦ inl (rw f refl)
    | inr f ↦ rw f saved_row
  ]

  -- For a condition whose key does not begin with delivery:, in a phase whose cycle is below 2^64 -
  -- 1: after a sample, whatever its calls meet, the row is the one before, or it is in the next
  -- phase where the sample moves the condition on and in the same phase otherwise.
  pub condition-InPhase :
      (p : Phase)
      → InPhase p (row_or_fresh key (alerts key))
      → suc (cycle_of p) < 2 ^ 64
      → ((condition digest calls settings rule key bad trigger alerts).0 key ≡ alerts key)
        ⊎ InPhase
            (if moves bad trigger (cooldown_of settings) calls.now (row_or_fresh key (alerts key))
              then next p
              else p)
            (row_or_fresh key ((condition digest calls settings rule key bad trigger alerts).0 key))
  condition-InPhase p i small = elim condition_row [
    | inl e ↦ inl e
    | inr e ↦
        let goes = sampled-Goes bad trigger (cooldown_of settings) calls.now p row i small in
        inr (
          subst
            (λ o.
              InPhase (if moves bad trigger (cooldown_of settings) calls.now row then next p else p)
                (row_or_fresh key o))
            (sym e)
            (record {
              identity = goes.phase.identity;
              active = goes.phase.active;
              good = goes.phase.good;
            }))
  ]
