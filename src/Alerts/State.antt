-- ===== src/Alerts/State.antt =====
-- The rows of operator_alert_state (internal/store/operator_alerts.go).
use wpx.Prelude.{ℕ, Bool, false, not, ◌&&◌, Option, some, none, [], leb, if◌then◌else◌}
use wpx.Text.{Text, ◌=ᵗ◌}
use wpx.Stamp.{Stamp}
use wpx.Model.Site.{byte_length}

-- `OperatorAlertState`
pub record AlertState : Type 0 where
  pub key : Text
  pub last_fingerprint : Text
  pub active : Bool
  pub bad_samples : ℕ
  pub good_samples : ℕ
  pub last_sent_at : Option Stamp

-- The table, by its primary key.
abbrev pub Alerts : Type 0
Alerts = Text → Option AlertState

abbrev pub fresh : Text → AlertState
fresh key = record {
  key = key;
  last_fingerprint = [];
  active = false;
  bad_samples = 0;
  good_samples = 0;
  last_sent_at = none;
}

abbrev pub valid_key : Text → Bool
valid_key key = not (key =ᵗ []) && leb (byte_length key) 512

-- A row with that key, or a fresh state.
abbrev pub row_or_fresh : Text → Option AlertState → AlertState
row_or_fresh key none = fresh key
row_or_fresh key (some state) = record state { key = key }

-- `OperatorAlertState`; `loads` says whether the database answers.
unfoldable pub operator_alert_state : Bool → Text → Alerts → Option AlertState
operator_alert_state loads key alerts =
    if valid_key key && loads then some (row_or_fresh key (alerts key)) else none

-- The row with the key of the state is that state.
abbrev pub put_row : AlertState → Alerts → Alerts
put_row state alerts = λ key. if state.key =ᵗ key then some state else alerts key

-- `SaveOperatorAlertState`
unfoldable pub save_operator_alert_state : Bool → AlertState → Alerts → Option Alerts
save_operator_alert_state saves state alerts =
    if valid_key state.key && leb (byte_length state.last_fingerprint) 128 && saves
    then some (put_row state alerts)
    else none
