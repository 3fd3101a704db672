-- ===== src/Alerts/Condition.antt =====
-- `condition` and `event` of internal/alerts/monitor.go: the samples of a condition, and what is
-- said about it.
pub mod Phases
pub mod History
pub mod Course
pub mod Row
use wpx.Prelude.{
  ℕ, zero, suc, ◌+◌, Bool, true, false, not, ◌&&◌, ◌||◌, Option, some, none, List, [], ◌∷◌, ◌++◌,
  leb, ltb, if◌then◌else◌,
}
use wpx.Text.{Text, codes, ◌=ᵗ◌}
use wpx.Text.Search.{has_prefix}
use wpx.Stamp.{Stamp}
use wpx.Alerts.Cycle.{condition_cycle, next_condition_cycle}
use wpx.Alerts.Settings.{AlertRule, Channel, OperatorAlertSettings}
use wpx.Alerts.State.{AlertState, Alerts, operator_alert_state, save_operator_alert_state}
use wpx.Alerts.Monitor.{ChannelOutcome, Sent, is_over, send, cooldown_of}

-- What is said about the condition, if anything, by its identity.
abbrev pub Said : Type 0
Said = AlertState × Option Text

-- Where a condition is open its identity is said again, until it is delivered.
abbrev pub say_open : AlertState → Said
say_open state =
    if not state.active
    then (state, none)
    else if has_prefix (codes "open:") state.last_fingerprint
    then (state, some state.last_fingerprint)
    else (record state { last_fingerprint = codes "open:1" }, some (codes "open:1"))

abbrev pub open_if_over : ℕ → Stamp → AlertState → AlertState
open_if_over cooldown now state =
    if not state.active && is_over cooldown state.last_sent_at now
    then record state {
      last_fingerprint = codes "open:" ++ next_condition_cycle state.last_fingerprint;
      active = true;
      last_sent_at = some now;
    }
    else state

-- The counters after a bad sample.
abbrev pub count_bad : ℕ → AlertState → AlertState
count_bad trigger state = record state {
  good_samples = 0;
  bad_samples = if ltb state.bad_samples trigger then suc state.bad_samples else state.bad_samples;
}

abbrev pub bad_sample : ℕ → ℕ → Stamp → AlertState → Said
bad_sample trigger cooldown now state =
    let counted = count_bad trigger state in
    if leb trigger counted.bad_samples
    then say_open (open_if_over cooldown now counted)
    else (counted, none)

abbrev pub resolved : Stamp → AlertState → AlertState
resolved now state = record state {
  active = false;
  bad_samples = 0;
  good_samples = 0;
  last_sent_at = some now;
  last_fingerprint = codes "resolved:" ++ condition_cycle state.last_fingerprint;
}

abbrev pub good_sample : Stamp → AlertState → Said
good_sample now state =
    if state.active
    then if leb 2 (suc state.good_samples)
      then (resolved now state, some (resolved now state).last_fingerprint)
      else (record state { bad_samples = 0; good_samples = suc state.good_samples }, none)
    else (
      record state { bad_samples = 0; good_samples = 0 },
      if has_prefix (codes "resolved:") state.last_fingerprint
          then some state.last_fingerprint
          else none,
    )

-- The state after a sample, and what is said.
unfoldable pub sampled : Bool → ℕ → ℕ → Stamp → AlertState → Said
unfolding has_prefix condition_cycle next_condition_cycle
sampled bad trigger cooldown now state =
    if bad then bad_sample trigger cooldown now state else good_sample now state

-- The result of a save, or the table as it is.
abbrev pub saved_or : Alerts → Option Alerts → Alerts
saved_or alerts none = alerts
saved_or alerts (some alerts1) = alerts1

abbrev pub say :
    (Text → Text)
    → (Channel → ChannelOutcome)
    → OperatorAlertSettings
    → AlertRule
    → Stamp
    → Text
    → Option Text
    → Alerts
    → Alerts × List Sent
say digest outcomes settings rule now key none alerts = (alerts, [])
say digest outcomes settings rule now key (some identity) alerts =
    let (alerts1, sent, ok) = send digest outcomes settings rule now key identity alerts in
    (alerts1, sent)

-- The calls of one evaluation: reading and writing the row, the clock of the evaluation and that of
-- `send`, and what each channel answers.
pub record Calls : Type 0 where
  pub loads : Bool
  pub saves : Bool
  pub now : Stamp
  pub now_sending : Stamp
  pub outcomes : Channel → ChannelOutcome

abbrev pub condition_in :
    (Text → Text)
    → Calls
    → OperatorAlertSettings
    → AlertRule
    → Text
    → Bool
    → ℕ
    → Alerts
    → Option AlertState
    → Alerts × List Sent
condition_in digest calls settings rule key bad trigger alerts none = (alerts, [])
condition_in digest calls settings rule key bad trigger alerts (some state) =
    let (after, said) = sampled bad trigger (cooldown_of settings) calls.now state in
    let (alerts1, sent) =
      say digest calls.outcomes settings rule calls.now_sending key said alerts in
    (saved_or alerts1 (save_operator_alert_state calls.saves after alerts1), sent)

-- `condition`
unfoldable pub condition :
    (Text → Text)
    → Calls
    → OperatorAlertSettings
    → AlertRule
    → Text
    → Bool
    → ℕ
    → Alerts
    → Alerts × List Sent
unfolding send sampled operator_alert_state save_operator_alert_state
condition digest calls settings rule key bad trigger alerts =
    condition_in digest calls settings rule key bad trigger alerts
      (operator_alert_state calls.loads key alerts)

-- The state of an event after an attempt to send it.
abbrev pub event_after : Text → Stamp → Bool → AlertState → AlertState
event_after fingerprint now sent state =
    if sent then record state { last_sent_at = some now; last_fingerprint = fingerprint } else state

abbrev pub event_in :
    (Text → Text)
    → Calls
    → OperatorAlertSettings
    → AlertRule
    → Text
    → Text
    → Alerts
    → Option AlertState
    → Alerts × List Sent
event_in digest calls settings rule key text alerts none = (alerts, [])
event_in digest calls settings rule key text alerts (some state) =
    let (alerts1, sent, ok) =
      send digest calls.outcomes settings rule calls.now_sending key (digest text) alerts in
    let after = event_after (digest text) calls.now ok state in
    if not (digest text =ᵗ state.last_fingerprint)
      && is_over (cooldown_of settings) state.last_sent_at calls.now
    then (saved_or alerts1 (save_operator_alert_state calls.saves after alerts1), sent)
    else (saved_or alerts (save_operator_alert_state calls.saves state alerts), [])

-- `event`
unfoldable pub event :
    (Text → Text)
    → Calls
    → OperatorAlertSettings
    → AlertRule
    → Text
    → Text
    → Alerts
    → Alerts × List Sent
unfolding send operator_alert_state save_operator_alert_state ◌=ᵗ◌
event digest calls settings rule key text alerts =
    event_in digest calls settings rule key text alerts
      (operator_alert_state calls.loads key alerts)
