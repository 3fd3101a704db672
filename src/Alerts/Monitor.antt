-- ===== src/Alerts/Monitor.antt =====
-- `send` of internal/alerts/monitor.go. Subjects and bodies are left out: what is sent is known by
-- its identity. The digest and the outcome of every call are arguments.
use wpx.Prelude.{
  ℕ, ◌+◌, ◌*◌, ◌^◌, Bool, true, false, not, ◌&&◌, Option, some, none, List, [], ◌∷◌, ◌++◌, leb,
  if◌then◌else◌,
}
use wpx.Text.{Text, codes, take, ◌=ᵗ◌}
use wpx.Stamp.{Stamp, instant}
use wpx.Alerts.Settings.{
  AlertRule, Channel, smtp, slack, telegram, OperatorAlertSettings, allows, rules_for_channel,
  is_enabled, channel_name,
}
use wpx.Alerts.State.{AlertState, Alerts, operator_alert_state, save_operator_alert_state}

-- Whether the calls about one channel succeed: reading its row, sending, writing its row.
pub record ChannelOutcome : Type 0 where
  pub loads : Bool
  pub delivers : Bool
  pub saves : Bool

-- An attempt to send.
pub record Sent : Type 0 where
  pub channel : Channel
  pub identity : Text
  pub is_delivered : Bool

-- `time.Duration(settings.CooldownMins) * time.Minute`
abbrev pub cooldown_of : OperatorAlertSettings → ℕ
cooldown_of settings = settings.cooldown_mins * (60 * 10 ^ 9)

-- `now.Sub(last) >= cooldown`
abbrev pub has_passed : ℕ → Stamp → Stamp → Bool
has_passed cooldown last now = leb (instant last + cooldown) (instant now)

-- `last.IsZero() || now.Sub(last) >= cooldown`
abbrev pub is_over : ℕ → Option Stamp → Stamp → Bool
is_over cooldown none now = true
is_over cooldown (some last) now = has_passed cooldown last now

abbrev pub delivery_prefix : (Text → Text) → Text → Text
delivery_prefix digest incident = codes "delivery:" ++ take 24 (digest incident)

abbrev pub delivery_key : (Text → Text) → Text → Channel → Text
delivery_key digest incident channel =
    delivery_prefix digest incident ++ (b':' ∷ channel_name channel)

abbrev pub attempted : Text → Stamp → Bool → AlertState → AlertState
attempted fingerprint now delivers state =
    if delivers
    then record state { last_sent_at = some now; active = false; last_fingerprint = fingerprint }
    else record state { last_sent_at = some now; active = true }

-- What is left after an attempt, by whether the row could be written.
abbrev pub recorded : Alerts → List Sent → Bool → Option Alerts → Alerts × List Sent × Bool
recorded alerts sent delivers none = (alerts, sent, false)
recorded alerts sent delivers (some alerts1) = (alerts1, sent, delivers)

abbrev pub deliver_by :
    (Text → Text)
    → ChannelOutcome
    → ℕ
    → Stamp
    → Text
    → Channel
    → Alerts
    → Option AlertState
    → Alerts × List Sent × Bool
deliver_by digest outcome cooldown now identity channel alerts none = (alerts, [], false)
deliver_by digest outcome cooldown now identity channel alerts (some state) =
    if state.last_fingerprint =ᵗ digest identity && not state.active
    then (alerts, [], true)
    else if state.active && not (is_over cooldown state.last_sent_at now)
    then (alerts, [], false)
    else recorded alerts
        (record { channel = channel; identity = identity; is_delivered = outcome.delivers } ∷ [])
        outcome.delivers
        (save_operator_alert_state outcome.saves
          (attempted (digest identity) now outcome.delivers state) alerts)

-- The body of the loop of `send`: the table, the attempts, and whether all went well.
unfoldable pub deliver :
    (Text → Text)
    → ChannelOutcome
    → ℕ
    → Stamp
    → Text
    → Text
    → Channel
    → Alerts
    → Alerts × List Sent × Bool
unfolding operator_alert_state save_operator_alert_state
deliver digest outcome cooldown now incident identity channel alerts =
    deliver_by digest outcome cooldown now identity channel alerts
      (operator_alert_state outcome.loads (delivery_key digest incident channel) alerts)

unfoldable pub deliver_all :
    (Text → Text)
    → (Channel → ChannelOutcome)
    → ℕ
    → Stamp
    → Text
    → Text
    → List Channel
    → Alerts
    → Alerts × List Sent × Bool
unfolding deliver
deliver_all digest outcomes cooldown now incident identity [] alerts = (alerts, [], true)
deliver_all digest outcomes cooldown now incident identity (channel ∷ channels) alerts =
    let first = deliver digest (outcomes channel) cooldown now incident identity channel alerts in
    let others = deliver_all digest outcomes cooldown now incident identity channels first.0 in
    (others.0, first.1 ++ others.1, first.2 && others.2)

abbrev pub if_enabled : OperatorAlertSettings → AlertRule → Channel → List Channel
if_enabled settings rule channel =
    if is_enabled settings channel && allows (rules_for_channel settings channel) rule
    then channel ∷ []
    else []

abbrev pub deliveries : OperatorAlertSettings → AlertRule → List Channel
deliveries settings rule =
    if_enabled settings rule smtp
    ++ (if_enabled settings rule slack ++ if_enabled settings rule telegram)

-- `send`
unfoldable pub send :
    (Text → Text)
    → (Channel → ChannelOutcome)
    → OperatorAlertSettings
    → AlertRule
    → Stamp
    → Text
    → Text
    → Alerts
    → Alerts × List Sent × Bool
unfolding deliver_all
send digest outcomes settings rule now incident identity alerts =
    deliver_all digest outcomes (cooldown_of settings) now incident identity
      (deliveries settings rule) alerts
