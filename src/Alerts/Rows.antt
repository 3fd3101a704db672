-- ===== src/Alerts/Rows.antt =====
-- The rows that the deliveries of internal/alerts/monitor.go leave alone.
use mathlib.Core.Path.{subst}
use wpx.Prelude.{
  ℕ, Bool, true, false, not, ◌≡◌, ◌&&◌, Option, some, none, List, [], ◌∷◌, ◌++◌, leb, refl, sym,
  inl, inr, ◌∙◌, ◌⊎◌, Bool-cases, arith,
}
use wpx.Text.{Text, codes, take, ◌=ᵗ◌}
use wpx.Model.Site.{byte_length}
use wpx.Text.Search.{has_prefix}
use wpx.Stamp.{Stamp}
use wpx.Alerts.Settings.{AlertRule, Channel, OperatorAlertSettings, channel_name}
use wpx.Alerts.State.{
  AlertState, Alerts, valid_key, row_or_fresh, put_row, operator_alert_state,
  save_operator_alert_state,
}
use wpx.Alerts.Monitor.{
  ChannelOutcome, is_over, delivery_key, attempted, deliver_by, deliver, deliver_all, deliveries,
  send, cooldown_of,
}

pub =ᵗ-prefix : (p s t : Text) → ((p ++ s) =ᵗ (p ++ t)) ≡ (s =ᵗ t)
unfolding ◌=ᵗ◌
=ᵗ-prefix [] s t = refl
=ᵗ-prefix (c ∷ p) s t = ground (arith, =ᵗ-prefix p s t)

has_prefix-apart : (p s k : Text) → has_prefix p k ≡ false → ((p ++ s) =ᵗ k) ≡ false
unfolding ◌=ᵗ◌ has_prefix
has_prefix-apart [] s k h = cc
has_prefix-apart (c ∷ p) s [] h = refl
has_prefix-apart (c ∷ p) s (d ∷ k) h = ground (arith, has_prefix-apart p s k)

pub load_cases :
    (loads : Bool) (key : Text) (alerts : Alerts)
    → (operator_alert_state loads key alerts ≡ none)
      ⊎ (operator_alert_state loads key alerts ≡ some (row_or_fresh key (alerts key)))
unfolding operator_alert_state
load_cases loads key alerts = elim (Bool-cases (valid_key key && loads)) [
  | inr e ↦ inl (rw e refl)
  | inl e ↦ inr (rw e refl)
]

pub save_cases :
    (saves : Bool) (state : AlertState) (alerts : Alerts)
    → (save_operator_alert_state saves state alerts ≡ none)
      ⊎ (save_operator_alert_state saves state alerts ≡ some (put_row state alerts))
unfolding save_operator_alert_state
save_cases saves state alerts =
    elim (Bool-cases
      (valid_key state.key && leb (byte_length state.last_fingerprint) 128 && saves)) [
        | inr e ↦ inl (rw e refl)
        | inl e ↦ inr (rw e refl)
      ]

pub attempted_key :
    (fingerprint : Text) (now : Stamp) (delivers : Bool) (state : AlertState)
    → (attempted fingerprint now delivers state).key ≡ state.key
attempted_key fingerprint now true state = refl
attempted_key fingerprint now false state = refl

module _ (digest : Text → Text) (incident : Text) where
  -- The row of a channel.
  abbrev pub row_of : Channel → Alerts → AlertState
  row_of c alerts =
      row_or_fresh (delivery_key digest incident c) (alerts (delivery_key digest incident c))

  pub row_of_key :
      (c : Channel) (alerts : Alerts) → (row_of c alerts).key ≡ delivery_key digest incident c
  row_of_key c alerts = by_row (alerts (delivery_key digest incident c))
    where
      by_row :
          (o : Option AlertState)
          → (row_or_fresh (delivery_key digest incident c) o).key ≡ delivery_key digest incident c
      by_row none = refl
      by_row (some state) = refl

  module _ (cooldown : ℕ) (now : Stamp) (identity : Text) where
    deliver_by-other :
        (outcome : ChannelOutcome) (c : Channel) (k : Text) (alerts : Alerts) (state : AlertState)
        → (state.key =ᵗ k) ≡ false
        → (deliver_by digest outcome cooldown now identity c alerts (some state)).0 k ≡ alerts k
    deliver_by-other outcome c k alerts state apart =
        elim (Bool-cases (state.last_fingerprint =ᵗ digest identity && not state.active)) [
          | inl e ↦ rw e refl
          | inr e ↦
              elim (Bool-cases (state.active && not (is_over cooldown state.last_sent_at now))) [
                | inl w ↦ rw e (rw w refl)
                | inr w ↦
                    elim (save_cases outcome.saves
                      (attempted (digest identity) now outcome.delivers state) alerts) [
                        | inl f ↦ rw e (rw w (rw f refl))
                        | inr f ↦ rw e (
                            rw w (
                              rw f (
                                rw (attempted_key (digest identity) now outcome.delivers state)
                                  (rw apart refl))))
                      ]
              ]
        ]

    pub deliver-other :
        (outcome : ChannelOutcome) (c : Channel) (k : Text) (alerts : Alerts)
        → (delivery_key digest incident c =ᵗ k) ≡ false
        → (deliver digest outcome cooldown now incident identity c alerts).0 k ≡ alerts k
    unfolding deliver
    deliver-other outcome c k alerts apart =
        elim (load_cases outcome.loads (delivery_key digest incident c) alerts) [
          | inl f ↦ rw f refl
          | inr f ↦ rw f (
              deliver_by-other outcome c k alerts (row_of c alerts)
                (subst (λ x. (x =ᵗ k) ≡ false) (sym (row_of_key c alerts)) apart))
        ]

    deliver_all-other :
        (outcomes : Channel → ChannelOutcome) (cs : List Channel) (k : Text) (alerts : Alerts)
        → has_prefix (codes "delivery:") k ≡ false
        → (deliver_all digest outcomes cooldown now incident identity cs alerts).0 k ≡ alerts k
    unfolding deliver_all
    deliver_all-other outcomes [] k alerts h = refl
    deliver_all-other outcomes (c ∷ cs) k alerts h =
        deliver_all-other outcomes cs k _ h
        ∙ deliver-other (outcomes c) c k alerts (
            has_prefix-apart (codes "delivery:")
              (take 24 (digest incident) ++ (b':' ∷ channel_name c)) k h)

  pub send-other :
      (outcomes : Channel → ChannelOutcome) (settings : OperatorAlertSettings) (rule : AlertRule)
      (now : Stamp) (identity : Text) (k : Text) (alerts : Alerts)
      → has_prefix (codes "delivery:") k ≡ false
      → (send digest outcomes settings rule now incident identity alerts).0 k ≡ alerts k
  unfolding send
  send-other outcomes settings rule now identity k alerts h =
      deliver_all-other (cooldown_of settings) now identity outcomes (deliveries settings rule) k
        alerts h
