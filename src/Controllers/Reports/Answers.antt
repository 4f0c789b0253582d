-- ===== src/Controllers/Reports/Answers.antt =====
-- What a device's message or datagram comes to, in src/devices/controllers: the notification that it
-- amounts to, and nothing else.
use devicectrl_server.Prelude.{
  ℕ, ◌≡◌, refl, ap, ◌⊎◌, inl, inr, String, Option, none, some, ◌==◌, get, Bool-cases, Option-cases,
  Result, Result-cases, find?, values, take, ◌>>=◌ as ◌>>?◌,
}
use devicectrl_server.Deps.{Deps, Bytes}
use devicectrl_server.Common.{
  UpdateNotification, ServerBoundSimpleMessage, ServerBoundKryptonMessage,
}
use devicectrl_server.Devices.{Device}
use devicectrl_server.App.{Env, AppState, lift, pure, bail, within, find_device, ◌>>=◌}
use devicectrl_server.Dispatch.Notification.{process_update_notification}
use devicectrl_server.Govee.Listener as Govee
use devicectrl_server.Govee.Payload as GoveePayload
use devicectrl_server.Krypton.Codec.{KryptonCodec}
use devicectrl_server.Krypton.Messages as Krypton
use devicectrl_server.Simple.Messages as Simple
use devicectrl_server.Tplink.Cipher.{decrypt}
use devicectrl_server.Tplink.Listener as Tplink
use devicectrl_server.Tplink.Payload as TplinkPayload
use devicectrl_server.Controllers.Reports.{
  DeviceEvent, simple_message, krypton_message, tplink_datagram, govee_datagram, simple_report,
  krypton_report, heard_by, state_report, context_of, reported, handle,
}

module _ ⦃d : Deps⦄ ⦃e : Env⦄ where
  -- nothing was done, or what the notification does, with its errors under the context `m`
  abbrev pub Answers :
      (m : String) → Option UpdateNotification → Result (Unit {0}) × AppState → AppState → Type 0
  Answers m none done s = done.1 ≡ s
  Answers m (some n) done s = done ≡ within m (process_update_notification n) s

  simple-Answers :
      (message' : ServerBoundSimpleMessage) (id : ℕ) (s : AppState)
      → Answers "failed to process simple update notification"
          (simple_report message' id)
          (Simple.handle_message message' id s)
          s
  unfolding Simple.handle_message pure bail
  simple-Answers (ServerBoundSimpleMessage.update_notification n) id s =
      elim (Bool-cases (n.device_id == id)) [
        | inl own ↦ rw own refl
        | inr foreign ↦ rw foreign refl
      ]
  simple-Answers (ServerBoundSimpleMessage.identify _) id s = refl
  simple-Answers ServerBoundSimpleMessage.request_received id s = refl
  simple-Answers (ServerBoundSimpleMessage.failure _) id s = refl
  simple-Answers (ServerBoundSimpleMessage.other _) id s = refl

  obey-Answers :
      (message' : ServerBoundKryptonMessage) (id : ℕ) (s : AppState)
      → Answers "failed to process krypton update notification"
          (krypton_report message' id)
          (Krypton.obey message' id s)
          s
  unfolding Krypton.obey pure bail
  obey-Answers (ServerBoundKryptonMessage.update_notification n) id s =
      elim (Bool-cases (n.device_id == id)) [
        | inl own ↦ rw own refl
        | inr foreign ↦ rw foreign refl
      ]
  obey-Answers (ServerBoundKryptonMessage.identify _) id s = refl
  obey-Answers ServerBoundKryptonMessage.request_received id s = refl
  obey-Answers (ServerBoundKryptonMessage.failure _) id s = refl
  obey-Answers (ServerBoundKryptonMessage.other _) id s = refl

  krypton-Answers :
      ⦃k : KryptonCodec⦄ (buf : Bytes) (id : ℕ) (s : AppState)
      → Answers "failed to process krypton update notification"
          (reported (krypton_message buf id) s)
          (Krypton.handle_message buf id s)
          s
  unfolding reported Krypton.handle_message find_device lift ◌>>=◌
  krypton-Answers ⦃k⦄ buf id s = elim (Option-cases (get id s.devices)) [
    | inl unknown ↦ rw unknown refl
    | inr (device, known) ↦ elim (Result-cases (Krypton.is_krypton device.controller)) [
      | inl (_, krypton) ↦ elim (Result-cases (k.decode buf)) [
        | inl (message, decoded) ↦ rw (known, krypton, decoded) (obey-Answers message id s)
        | inr (x, garbled) ↦ rw (known, krypton, garbled) refl
      ]
      | inr (x, other) ↦ rw (known, other) refl
    ]
  ]

  tplink-Answers :
      (found : Option Device) (buf : Bytes) (s : AppState)
      → Answers "failed to process tplink update notification"
          (heard_by found λ device. state_report device (
            d.from_slice (decrypt buf) >>? λ payload.
            TplinkPayload.parse_query_payload payload device.device_type))
          (Tplink.notify_found found buf s)
          s
  unfolding Tplink.notify_found Tplink.notify pure lift ◌>>=◌ ◌>>?◌
  tplink-Answers none buf s = refl
  tplink-Answers (some device) buf s = elim (Result-cases (d.from_slice (decrypt buf))) [
    | inl (payload, parsed) ↦
        elim (Result-cases (TplinkPayload.parse_query_payload payload device.device_type)) [
          | inl (state, read) ↦ rw (parsed, read) refl
          | inr (x, unreadable) ↦ rw (parsed, unreadable) refl
        ]
    | inr (x, garbled) ↦ rw garbled refl
  ]

  govee-Answers :
      (found : Option Device) (buf : Bytes) (s : AppState)
      → Answers "failed to process govee update notification"
          (heard_by found λ device. state_report device (
            d.from_slice buf >>? λ payload.
            GoveePayload.parse_query_payload payload device.device_type))
          (Govee.notify_found found buf s)
          s
  unfolding Govee.notify_found Govee.notify pure lift ◌>>=◌ ◌>>?◌
  govee-Answers none buf s = refl
  govee-Answers (some device) buf s = elim (Result-cases (d.from_slice buf)) [
    | inl (payload, parsed) ↦
        elim (Result-cases (GoveePayload.parse_query_payload payload device.device_type)) [
          | inl (state, read) ↦ rw (parsed, read) refl
          | inr (x, unreadable) ↦ rw (parsed, unreadable) refl
        ]
    | inr (x, garbled) ↦ rw garbled refl
  ]

  -- nothing happened, or a notification
  abbrev pub IsReport : AppState → AppState → Type 0
  IsReport s t = (t ≡ s) ⊎ ((n : UpdateNotification) × (t ≡ (process_update_notification n s).1))

  Answers-IsReport :
      (m : String) (report : Option UpdateNotification) (done : Result (Unit {0}) × AppState)
      (s : AppState)
      → Answers m report done s
      → IsReport s done.1
  unfolding within
  Answers-IsReport m none done s h = inl h
  Answers-IsReport m (some n) done s h = inr (n, ap (λ p. p.1) h)

module _ ⦃d : Deps⦄ ⦃e : Env⦄ ⦃k : KryptonCodec⦄ where
  -- Whatever a device sends, it amounts to one notification, which is then all that is done, its
  -- errors under the context of the device's controller; or it changes nothing.
  pub handle-reported :
      (event : DeviceEvent) (s : AppState)
      → Answers (context_of event) (reported event s) (handle event s) s
  unfolding reported Tplink.handle_datagram Govee.handle_datagram
  handle-reported (simple_message message' id) s = simple-Answers message' id s
  handle-reported (krypton_message buf id) s = krypton-Answers buf id s
  handle-reported (tplink_datagram address datagram) s =
      tplink-Answers (find? (Tplink.is_at address) (values s.devices)) (take 1500 datagram) s
  handle-reported (govee_datagram address datagram) s =
      govee-Answers (find? (Govee.is_at address) (values s.devices)) (take 1500 datagram) s

  pub handle-IsReport : (event : DeviceEvent) (s : AppState) → IsReport s (handle event s).1
  handle-IsReport event s =
      Answers-IsReport (context_of event) (reported event s) (handle event s) s
        (handle-reported event s)
