-- ===== src/Alerts/Once.antt =====
-- The channels after `send` of internal/alerts/monitor.go.
use mathlib.Core.Path.{subst}
use wpx.Prelude.{
  ℕ, Bool, true, false, not, ◌≡◌, ◌&&◌, some, List, [], ◌∷◌, refl, sym, inl, inr, ◌∙◌, ◌⊎◌,
  Bool-cases, arith,
}
use wpx.Text.{Text, ◌=ᵗ◌}
use wpx.Text.Laws.{=ᵗ_refl, =ᵗ_eq}
use wpx.Stamp.{Stamp}
use wpx.Alerts.Settings.{
  AlertRule, Channel, smtp, slack, telegram, OperatorAlertSettings, channel_name,
}
use wpx.Alerts.State.{AlertState, Alerts, valid_key, row_or_fresh, put_row, operator_alert_state}
use wpx.Alerts.Rows.{=ᵗ-prefix, load_cases, save_cases, row_of, row_of_key, deliver-other}
use wpx.Alerts.Monitor.{
  ChannelOutcome, Sent, is_over, delivery_prefix, delivery_key, attempted, deliver_by, deliver,
  deliver_all, deliveries, send, cooldown_of,
}

same_channel : (c d : Channel) → (c ≡ d) ⊎ ((channel_name c =ᵗ channel_name d) ≡ false)
unfolding ◌=ᵗ◌
same_channel smtp smtp = inl refl
same_channel slack slack = inl refl
same_channel telegram telegram = inl refl
same_channel smtp slack = inr refl
same_channel smtp telegram = inr refl
same_channel slack smtp = inr refl
same_channel slack telegram = inr refl
same_channel telegram smtp = inr refl
same_channel telegram slack = inr refl

module _ (digest : Text → Text) (incident : Text) where
  delivery_key-other :
      (c d : Channel)
      → (channel_name c =ᵗ channel_name d) ≡ false
      → (delivery_key digest incident c =ᵗ delivery_key digest incident d) ≡ false
  unfolding ◌=ᵗ◌
  delivery_key-other c d e =
      =ᵗ-prefix (delivery_prefix digest incident) (b':' ∷ channel_name c) (b':' ∷ channel_name d)
      ∙ rw e refl

  -- The channel has delivered this identity last.
  record Settled (identity : Text) (c : Channel) (alerts : Alerts) : Type 0 where
    fingerprint : (row_of digest incident c alerts).last_fingerprint ≡ digest identity
    active : (row_of digest incident c alerts).active ≡ false

  module _ (outcome : ChannelOutcome) (cooldown : ℕ) (now : Stamp) (identity : Text) where
    deliver-Settled :
        (c : Channel) (alerts : Alerts)
        → Settled identity c alerts
        → ((deliver digest outcome cooldown now incident identity c alerts).0 ≡ alerts)
          × ((deliver digest outcome cooldown now incident identity c alerts).1 ≡ [])
    unfolding deliver operator_alert_state
    deliver-Settled c alerts s =
        elim (Bool-cases (valid_key (delivery_key digest incident c) && outcome.loads)) [
          | inr e ↦ rw e (refl, refl)
          | inl e ↦
              let told : ((row_of digest incident c alerts).last_fingerprint =ᵗ digest identity
                    && not (row_of digest incident c alerts).active)
                  ≡ true =
                rw (s.fingerprint) (rw (s.active) (rw (=ᵗ_refl (digest identity)) refl)) in
              rw e (rw told (refl, refl))
        ]

    -- Where a delivery says that all went well, the channel is settled.
    abbrev IsGood : Channel → Alerts × List Sent × Bool → Type 0
    IsGood c result = result.2 ≡ true → Settled identity c result.0

    put_row-Settled :
        (c : Channel) (alerts : Alerts) (state : AlertState)
        → state.key ≡ delivery_key digest incident c
        → state.last_fingerprint ≡ digest identity
        → state.active ≡ false
        → Settled identity c (put_row state alerts)
    put_row-Settled c alerts state k same off = record {
      fingerprint =
          subst (λ o. (row_or_fresh key o).last_fingerprint ≡ digest identity) (sym found) same;
      active = subst (λ o. (row_or_fresh key o).active ≡ false) (sym found) off;
    }
      where
        key : Text
        key = delivery_key digest incident c

        found : put_row state alerts key ≡ some state
        found =
            let e : (state.key =ᵗ key) ≡ true =
              subst (λ x. (x =ᵗ key) ≡ true) (sym k) (=ᵗ_refl key) in
            rw e refl

    told-Settled :
        (c : Channel) (alerts : Alerts) (state : AlertState)
        → state ≡ row_of digest incident c alerts
        → (state.last_fingerprint =ᵗ digest identity && not state.active) ≡ true
        → Settled identity c alerts
    told-Settled c alerts state same told =
        let text : (state.last_fingerprint =ᵗ digest identity) ≡ true = ground arith in
        let off : state.active ≡ false = ground arith in
        record {
          fingerprint =
              subst (λ x. x.last_fingerprint ≡ digest identity) same
                (=ᵗ_eq state.last_fingerprint (digest identity) text);
          active = subst (λ x. x.active ≡ false) same off;
        }

    deliver_by-IsGood :
        (c : Channel) (alerts : Alerts) (state : AlertState)
        → state.key ≡ delivery_key digest incident c
        → state ≡ row_of digest incident c alerts
        → IsGood c (deliver_by digest outcome cooldown now identity c alerts (some state))
    deliver_by-IsGood c alerts state k same =
        elim (Bool-cases (state.last_fingerprint =ᵗ digest identity && not state.active)) [
          | inl e ↦ rw e (λ _. told-Settled c alerts state same e)
          | inr e ↦
              elim (Bool-cases (state.active && not (is_over cooldown state.last_sent_at now))) [
                | inl w ↦ rw e (rw w (λ h. cc))
                | inr w ↦
                    elim (save_cases outcome.saves
                      (attempted (digest identity) now outcome.delivers state) alerts) [
                        | inl f ↦ rw e (rw w (rw f (λ h. cc)))
                        | inr f ↦ rw e (rw w (rw f (saved outcome.delivers)))
                      ]
              ]
        ]
      where
        saved :
            (delivers : Bool)
            → delivers ≡ true
            → Settled identity c (put_row (attempted (digest identity) now delivers state) alerts)
        saved true h =
            put_row-Settled c alerts (attempted (digest identity) now true state) k refl refl
        saved false h = cc

    delivered :
        (c : Channel) (alerts : Alerts)
        → IsGood c (deliver digest outcome cooldown now incident identity c alerts)
    unfolding deliver
    delivered c alerts = elim (load_cases outcome.loads (delivery_key digest incident c) alerts) [
      | inl f ↦ rw f (λ h. cc)
      | inr f ↦ rw f (
          deliver_by-IsGood c alerts (row_of digest incident c alerts)
            (row_of_key digest incident c alerts) refl)
    ]

    -- No delivery unsettles a channel.
    deliver-keeps_Settled :
        (c d : Channel) (alerts : Alerts)
        → Settled identity d alerts
        → Settled identity d (deliver digest outcome cooldown now incident identity c alerts).0
    deliver-keeps_Settled c d alerts s = elim (same_channel c d) [
      | inl e ↦
          subst (Settled identity d)
            (sym (deliver-Settled c alerts (subst (λ x. Settled identity x alerts) (sym e) s)).0) s
      | inr e ↦
          let same = sym (
            deliver-other digest incident cooldown now identity outcome c
              (delivery_key digest incident d) alerts (delivery_key-other c d e)) in
          record {
            fingerprint =
                subst
                  (λ o.
                    (row_or_fresh (delivery_key digest incident d) o).last_fingerprint
                    ≡ digest identity)
                  same s.fingerprint;
            active =
                subst (λ o. (row_or_fresh (delivery_key digest incident d) o).active ≡ false) same
                  s.active;
          }
    ]

  -- All of the channels have delivered this identity last.
  abbrev AllSettled : Text → List Channel → Alerts → Type 0
  AllSettled identity [] alerts = Unit {0}
  AllSettled identity (c ∷ cs) alerts = Settled identity c alerts × AllSettled identity cs alerts

  module _ (outcomes : Channel → ChannelOutcome) (cooldown : ℕ) (now : Stamp)
      (identity : Text) where
    deliver_all-keeps_Settled :
        (cs : List Channel) (d : Channel) (alerts : Alerts)
        → Settled identity d alerts
        → Settled identity d
            (deliver_all digest outcomes cooldown now incident identity cs alerts).0
    unfolding deliver_all
    deliver_all-keeps_Settled [] d alerts s = s
    deliver_all-keeps_Settled (c ∷ cs) d alerts s =
        deliver_all-keeps_Settled cs d _
          (deliver-keeps_Settled (outcomes c) cooldown now identity c d alerts s)

    deliver_all-AllSettled :
        (cs : List Channel) (alerts : Alerts)
        → (deliver_all digest outcomes cooldown now incident identity cs alerts).2 ≡ true
        → AllSettled identity cs
            (deliver_all digest outcomes cooldown now incident identity cs alerts).0
    unfolding deliver_all
    deliver_all-AllSettled [] alerts h = tt
    deliver_all-AllSettled (c ∷ cs) alerts h =
        let first = deliver digest (outcomes c) cooldown now incident identity c alerts in
        let others = deliver_all digest outcomes cooldown now incident identity cs first.0 in
        let h0 : first.2 ≡ true = ground arith in
        let h1 : others.2 ≡ true = ground arith in
        (
          deliver_all-keeps_Settled cs c first.0
              (delivered (outcomes c) cooldown now identity c alerts h0),
          deliver_all-AllSettled cs first.0 h1,
        )

    deliver_all-silent :
        (cs : List Channel) (alerts : Alerts)
        → AllSettled identity cs alerts
        → ((deliver_all digest outcomes cooldown now incident identity cs alerts).0 ≡ alerts)
          × ((deliver_all digest outcomes cooldown now incident identity cs alerts).1 ≡ [])
    unfolding deliver_all
    deliver_all-silent [] alerts s = (refl, refl)
    deliver_all-silent (c ∷ cs) alerts s =
        let (same, silent) = deliver-Settled (outcomes c) cooldown now identity c alerts s.0 in
        let (same1, silent1) = deliver_all-silent cs alerts s.1 in
        rw same (rw silent (same1, silent1))

  -- When a call of send reports no error, a later call about the same incident with the same
  -- identity under the same settings sends nothing and changes no row, at any time and whatever its
  -- calls meet.
  pub send_twice :
      (settings : OperatorAlertSettings) (rule : AlertRule) (identity : Text)
      (outcomes outcomes1 : Channel → ChannelOutcome) (now now1 : Stamp) (alerts : Alerts)
      → (send digest outcomes settings rule now incident identity alerts).2 ≡ true
      → ((send digest outcomes1 settings rule now1 incident identity
            (send digest outcomes settings rule now incident identity alerts).0).0
          ≡ (send digest outcomes settings rule now incident identity alerts).0)
        × ((send digest outcomes1 settings rule now1 incident identity
              (send digest outcomes settings rule now incident identity alerts).0).1
            ≡ [])
  unfolding send
  send_twice settings rule identity outcomes outcomes1 now now1 alerts h =
      deliver_all-silent outcomes1 (cooldown_of settings) now1 identity (deliveries settings rule) _
        (deliver_all-AllSettled outcomes (cooldown_of settings) now identity
          (deliveries settings rule) alerts h)
