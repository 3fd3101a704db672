-- ===== src/Tests/Alerts.antt =====
-- Runs of the alerts.
use wpx.Prelude.{ℕ, ◌≡◌, refl, true, false, some, none, List, [], ◌∷◌, ◌⊎◌, arith, if◌then◌else◌}
use wpx.Text.{Text, codes}
use wpx.Text.Search.{has_prefix}
use wpx.Stamp.{Stamp}
use wpx.Alerts.Cycle.{parse_uint, format_uint, next_condition_cycle}
use wpx.Alerts.Cycle.RoundTrip.{parse_uint-format_uint}
use wpx.Alerts.Settings.{AlertRule, AlertRuleSelection, Channel, smtp, slack, OperatorAlertSettings}
use wpx.Alerts.State.{Alerts, row_or_fresh, fresh}
use wpx.Alerts.Monitor.{ChannelOutcome, send, cooldown_of}
use wpx.Alerts.Once.{send_twice}
use wpx.Alerts.Condition.{Calls, condition, event, sampled}
use wpx.Alerts.Condition.Phases.{never, opened, InPhase, moves}
use wpx.Alerts.Condition.Course.{Evaluation, recorded_over, recorded_over-InOrder}
use wpx.Alerts.Condition.History.{
  Sample, bad_at, all_bad, after_samples, said_over, said_over-trigger, InOrder, counting,
}
use wpx.Alerts.Condition.Row.{condition-InPhase}
use wpx.Tests.Data.{second}

parse_uint-format_uint_example : parse_uint (format_uint 1808) ≡ some 1808
parse_uint-format_uint_example = parse_uint-format_uint 1808 (omega arith)

-- The last number is followed by 0.
wrapped : next_condition_cycle (codes "resolved:18446744073709551615") ≡ codes "0"
unfolding next_condition_cycle wpx.Text.◌=ᵗ◌
wrapped = refl

abbrev plain_digest : Text → Text
plain_digest text = text

abbrev no_rows : Alerts
no_rows = λ key. none

abbrev all_rules : AlertRuleSelection
all_rules = record {
  cpu = true;
  memory = true;
  disk = true;
  services = true;
  ssl_expiry = true;
  updates = true;
  oom = true;
}

abbrev settings : OperatorAlertSettings
settings = record {
  rules = all_rules;
  cooldown_mins = 60;
  smtp_enabled = true;
  smtp_rules = none;
  slack_enabled = true;
  slack_rules = none;
  telegram_enabled = false;
  telegram_rules = none;
}

abbrev fine : Channel → ChannelOutcome
fine channel = record { loads = true; delivers = true; saves = true }

abbrev slack_down : Channel → ChannelOutcome
slack_down slack = record { loads = true; delivers = false; saves = true }
slack_down _ = record { loads = true; delivers = true; saves = true }

abbrev key : Text
key = codes "service:nginx"

abbrev sent_once : Alerts
sent_once =
    (send plain_digest fine settings AlertRule.services (second 60) key (codes "open:1") no_rows).0

sent_well :
    (send plain_digest fine settings AlertRule.services (second 60) key (codes "open:1") no_rows).2
    ≡ true
unfolding send wpx.Text.◌=ᵗ◌
sent_well = refl

send_twice_example :
    ((send plain_digest slack_down settings AlertRule.services
        (second 120)
        key
        (codes "open:1")
        sent_once).0
      ≡ sent_once)
    × ((send plain_digest slack_down settings AlertRule.services
          (second 120)
          key
          (codes "open:1")
          sent_once).1
        ≡ [])
send_twice_example =
    send_twice plain_digest key settings AlertRule.services (codes "open:1") fine slack_down
      (second 60) (second 120) no_rows sent_well

abbrev calls_at : (Channel → ChannelOutcome) → ℕ → Calls
calls_at outcomes n = record {
  loads = true;
  saves = true;
  now = second n;
  now_sending = second n;
  outcomes = outcomes;
}

-- A second event within the cooldown reaches a channel again, because another channel is down.
abbrev after_event : Alerts
after_event =
    (event plain_digest (calls_at slack_down 60) settings AlertRule.services key (codes "1")
      no_rows).0

sent_again :
    (event plain_digest
      (calls_at slack_down 120)
      settings
      AlertRule.services
      key
      (codes "2")
      after_event).1
    ≡ record { channel = smtp; identity = codes "2"; is_delivered = true } ∷ []
unfolding event
sent_again = refl

-- Bad three times, then good twice, then bad again after the cooldown.
abbrev good_at : Stamp → Sample
good_at now = record { bad = false; now = now }

abbrev course : List Sample
course =
    bad_at (second 60)
    ∷ bad_at (second 120)
    ∷ bad_at (second 180)
    ∷ good_at (second 240)
    ∷ good_at (second 300)
    ∷ bad_at (second 360)
    ∷ bad_at (second 420)
    ∷ bad_at (second 4000)
    ∷ []

said_in_course :
    said_over 3 (cooldown_of settings) course (fresh key)
    ≡ codes "open:1" ∷ codes "resolved:1" ∷ codes "open:2" ∷ []
unfolding said_over wpx.Text.◌=ᵗ◌
said_in_course = refl

fresh-InPhase : InPhase never (fresh key)
fresh-InPhase = record { identity = refl; active = refl; good = omega arith }

-- Bad three times, of which one is not saved, then good twice.
abbrev evaluations : List Evaluation
evaluations =
    record { calls = calls_at slack_down 60; bad = true }
    ∷ record { calls = calls_at slack_down 120; bad = true }
    ∷ record { calls = record (calls_at slack_down 180) { saves = false }; bad = true }
    ∷ record { calls = calls_at slack_down 240; bad = true }
    ∷ record { calls = calls_at slack_down 300; bad = false }
    ∷ record { calls = calls_at slack_down 360; bad = false }
    ∷ []

recorded_over-InOrder_example :
    InOrder 0 (recorded_over plain_digest settings AlertRule.services key 3 evaluations no_rows)
unfolding has_prefix
recorded_over-InOrder_example =
    recorded_over-InOrder plain_digest settings AlertRule.services key 3 evaluations never no_rows
      refl fresh-InPhase (omega arith)

said_over-trigger_example :
    (said_over 3 900 (all_bad (second 60 ∷ second 120 ∷ [])) (counting key 0 0) ≡ [])
    × ((after_samples 3 900 (all_bad (second 60 ∷ second 120 ∷ [])) (counting key 0 0)).active
        ≡ false)
    × ((sampled true 3 900
          (second 180)
          (after_samples 3 900 (all_bad (second 60 ∷ second 120 ∷ [])) (counting key 0 0))).0.active
        ≡ true)
said_over-trigger_example =
    said_over-trigger 3 900 key (second 60 ∷ second 120 ∷ []) (second 180) refl

abbrev after_condition : Alerts
after_condition =
    (condition plain_digest (calls_at slack_down 60) settings AlertRule.services key true 1
      no_rows).0

condition-InPhase_example :
    (after_condition key ≡ none)
    ⊎ InPhase
        (if moves true 1 (cooldown_of settings) (second 60) (row_or_fresh key (no_rows key))
          then opened 1
          else never)
        (row_or_fresh key (after_condition key))
unfolding has_prefix
condition-InPhase_example =
    condition-InPhase plain_digest (calls_at slack_down 60) settings AlertRule.services key true 1
      no_rows refl never fresh-InPhase (omega arith)
