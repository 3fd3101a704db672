-- ===== src/Alerts/Settings.antt =====
-- Which rules and channels are enabled (internal/model/operator_alerts.go).
use wpx.Prelude.{ℕ, Bool, Option, some, none}
use wpx.Text.{Text, codes}

pub data AlertRule : Type 0 where
  cpu memory disk services ssl_expiry updates oom : AlertRule

pub record AlertRuleSelection : Type 0 where
  pub cpu : Bool
  pub memory : Bool
  pub disk : Bool
  pub services : Bool
  pub ssl_expiry : Bool
  pub updates : Bool
  pub oom : Bool

pub data Channel : Type 0 where
  smtp slack telegram : Channel

-- The settings that decide what is sent where; a channel without rules of its own has those of all.
pub record OperatorAlertSettings : Type 0 where
  pub rules : AlertRuleSelection
  pub cooldown_mins : ℕ
  pub smtp_enabled : Bool
  pub smtp_rules : Option AlertRuleSelection
  pub slack_enabled : Bool
  pub slack_rules : Option AlertRuleSelection
  pub telegram_enabled : Bool
  pub telegram_rules : Option AlertRuleSelection

-- `AlertRuleSelection.Allows`
abbrev pub allows : AlertRuleSelection → AlertRule → Bool
allows selection AlertRule.cpu = selection.cpu
allows selection AlertRule.memory = selection.memory
allows selection AlertRule.disk = selection.disk
allows selection AlertRule.services = selection.services
allows selection AlertRule.ssl_expiry = selection.ssl_expiry
allows selection AlertRule.updates = selection.updates
allows selection AlertRule.oom = selection.oom

abbrev configured : OperatorAlertSettings → Channel → Option AlertRuleSelection
configured settings smtp = settings.smtp_rules
configured settings slack = settings.slack_rules
configured settings telegram = settings.telegram_rules

-- `RulesForChannel`
abbrev pub rules_for_channel : OperatorAlertSettings → Channel → AlertRuleSelection
rules_for_channel settings channel = elim (configured settings channel) [
  | none ↦ settings.rules
  | some rules ↦ rules
]

abbrev pub is_enabled : OperatorAlertSettings → Channel → Bool
is_enabled settings smtp = settings.smtp_enabled
is_enabled settings slack = settings.slack_enabled
is_enabled settings telegram = settings.telegram_enabled

abbrev pub channel_name : Channel → Text
channel_name smtp = codes "smtp"
channel_name slack = codes "slack"
channel_name telegram = codes "telegram"
