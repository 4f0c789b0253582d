-- ===== src/Controllers/Reports.antt =====
-- What a device's message or datagram makes its controller do, of src/devices/controllers: one
-- notification, or nothing.
pub mod Answers
use devicectrl_server.Prelude.{
  ℕ, ◌≡◌, refl, ◌∙◌, ap, ◌⊎◌, inl, inr, String, Option, none, some, ◌==◌, if◌then◌else◌, get, Bool,
  Bool-cases, Option-cases, Result, ok, err, Result-cases, find?, values, take, ◌>>=◌ as ◌>>?◌,
}
use devicectrl_server.Deps.{Deps, Bytes}
use devicectrl_server.Common.{
  DeviceState, UpdateNotification, ServerBoundSimpleMessage, ServerBoundKryptonMessage,
}
use devicectrl_server.Devices.{Device}
use devicectrl_server.App.{Env, AppState, Action, lift, pure, bail, within, find_device, ◌>>=◌}
use devicectrl_server.Dispatch.Notification.{process_update_notification}
use devicectrl_server.Govee.Listener as Govee
use devicectrl_server.Govee.Payload as GoveePayload
use devicectrl_server.Krypton.Codec.{KryptonCodec}
use devicectrl_server.Krypton.Messages as Krypton
use devicectrl_server.Simple.Messages as Simple
use devicectrl_server.Tplink.Cipher.{decrypt}
use devicectrl_server.Tplink.Listener as Tplink
use devicectrl_server.Tplink.Payload as TplinkPayload

module _ ⦃d : Deps⦄ where
  pub data DeviceEvent : Type 0 where
    simple_message : ServerBoundSimpleMessage → (device_id : ℕ) → DeviceEvent
    krypton_message : Bytes → (device_id : ℕ) → DeviceEvent
    tplink_datagram : (address : ℕ) → Bytes → DeviceEvent
    govee_datagram : (address : ℕ) → Bytes → DeviceEvent

  -- a device may report its own state only
  abbrev pub own : UpdateNotification → (device_id : ℕ) → Option UpdateNotification
  own n device_id = if n.device_id == device_id then some n else none

  abbrev pub simple_report : ServerBoundSimpleMessage → (device_id : ℕ) → Option UpdateNotification
  simple_report (ServerBoundSimpleMessage.update_notification n) device_id = own n device_id
  simple_report _ device_id = none

  abbrev pub krypton_report :
      ServerBoundKryptonMessage → (device_id : ℕ) → Option UpdateNotification
  krypton_report (ServerBoundKryptonMessage.update_notification n) device_id = own n device_id
  krypton_report _ device_id = none

  abbrev decoded_report :
      Result ServerBoundKryptonMessage → (device_id : ℕ) → Option UpdateNotification
  decoded_report (ok message') device_id = krypton_report message' device_id
  decoded_report (err x) device_id = none

  abbrev when_ok : Result (Unit {0}) → Option UpdateNotification → Option UpdateNotification
  when_ok (ok _) report = report
  when_ok (err x) report = none

  abbrev pub heard_by :
      Option Device → (Device → Option UpdateNotification) → Option UpdateNotification
  heard_by none report = none
  heard_by (some device) report = report device

  -- what a datagram reports for the device it comes from
  abbrev pub state_report : Device → Result DeviceState → Option UpdateNotification
  state_report device (ok state) =
      some (record { device_id = device.id; reachable = Bool.true; new_state = state })
  state_report device (err x) = none

  abbrev pub context_of : DeviceEvent → String
  context_of (simple_message message' id) = "failed to process simple update notification"
  context_of (krypton_message buf id) = "failed to process krypton update notification"
  context_of (tplink_datagram address datagram) = "failed to process tplink update notification"
  context_of (govee_datagram address datagram) = "failed to process govee update notification"

module _ ⦃d : Deps⦄ ⦃k : KryptonCodec⦄ where
  -- the notification that an event amounts to where it comes in
  unfoldable pub reported : DeviceEvent → AppState → Option UpdateNotification
  reported (simple_message message' id) s = simple_report message' id
  reported (krypton_message buf id) s =
      heard_by (get id s.devices)
        λ device. when_ok (Krypton.is_krypton device.controller) (decoded_report (k.decode buf) id)
  reported (tplink_datagram address datagram) s =
      heard_by (find? (Tplink.is_at address) (values s.devices)) λ device. state_report device (
        d.from_slice (decrypt (take 1500 datagram)) >>? λ payload.
        TplinkPayload.parse_query_payload payload device.device_type)
  reported (govee_datagram address datagram) s =
      heard_by (find? (Govee.is_at address) (values s.devices)) λ device. state_report device (
        d.from_slice (take 1500 datagram) >>? λ payload.
        GoveePayload.parse_query_payload payload device.device_type)

module _ ⦃d : Deps⦄ ⦃e : Env⦄ where
  abbrev pub handle : ⦃k : KryptonCodec⦄ → DeviceEvent → Action (Unit {0})
  handle (simple_message message' id) = Simple.handle_message message' id
  handle (krypton_message buf id) = Krypton.handle_message buf id
  handle (tplink_datagram address datagram) = Tplink.handle_datagram address datagram
  handle (govee_datagram address datagram) = Govee.handle_datagram address datagram
