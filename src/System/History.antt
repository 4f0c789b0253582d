-- ===== src/System/History.antt =====
-- The registry of src/devices/mod.rs tells what the devices have reported: it is determined by the
-- hooks that were sent, and by how it was loaded.
use devicectrl_server.Prelude.{
  ℕ, ◌+◌, ◌≡◌, refl, Bool-cases, Option, none, some, List, [], ◌∷◌, ◌++◌, ◌==◌, if◌then◌else◌, inl,
  inr, get, get-modify, modify, Option-cases,
}
use mathlib.Core.Option
use devicectrl_server.Deps.{Deps}
use devicectrl_server.Common.{DeviceState, UpdateNotification}
use devicectrl_server.Devices.{Device}
use devicectrl_server.App.{
  Env, AppState, Hook, Effect, HooksAreOpen, device_update_dispatch, device_state_update,
  scene_activate, send_hook, perform, find_device, ◌>>=◌,
}
use devicectrl_server.App.Emits.{is_unreported, AllAre, SameState}
use devicectrl_server.App.Hooks.{hooks_sent}
use devicectrl_server.Clients.Messages.{SocketCodec, HttpCodec}
use devicectrl_server.Dispatch.Notification.{set_state, write_state, process_update_notification}
use devicectrl_server.Krypton.Codec.{KryptonCodec}
use devicectrl_server.System.{Reach, here, later}
use devicectrl_server.System.Steps.{IsEither, Step-cases}
use devicectrl_server.Tasks.Join.{Scheduler}

module _ ⦃d : Deps⦄ where
  -- the state that the latest of the hooks reports for a device, if one does
  abbrev pub latest : ℕ → List Hook → DeviceState → DeviceState
  latest id [] initial = initial
  latest id (device_state_update n ∷ hooks) initial =
      let before = latest id hooks initial in if n.device_id == id then n.new_state else before
  latest id (_ ∷ hooks) initial = latest id hooks initial

  -- a device as the hooks leave it
  abbrev pub informed : ℕ → List Hook → Device → Device
  informed id hooks device = record device { state = latest id hooks device.state }

  pub latest-unreported :
      (id : ℕ) (fresh trace : List Effect) (initial : DeviceState)
      → AllAre is_unreported fresh
      → latest id (hooks_sent (fresh ++ trace)) initial ≡ latest id (hooks_sent trace) initial
  latest-unreported id [] trace initial h = refl
  latest-unreported id (send_hook (device_state_update n) ∷ fresh) trace initial h = cc
  latest-unreported id (send_hook (device_update_dispatch r) ∷ fresh) trace initial h =
      latest-unreported id fresh trace initial h.1
  latest-unreported id (send_hook (scene_activate scene) ∷ fresh) trace initial h =
      latest-unreported id fresh trace initial h.1
  latest-unreported id (_ ∷ fresh) trace initial h = latest-unreported id fresh trace initial h.1

  -- The registry of `t` has under an identifier what that of `start` has, as the hooks have left it.
  abbrev pub IsInformedOf : ℕ → AppState → AppState → Type 0
  IsInformedOf id start t =
      get id t.devices ≡ Option.map (informed id (hooks_sent t.trace)) (get id start.devices)

  abbrev pub IsInformed : AppState → AppState → Type 0
  IsInformed start t = (id : ℕ) → IsInformedOf id start t

  -- the state after a notification for a registered device
  abbrev notified : UpdateNotification → AppState → AppState
  notified n s = record s {
    devices = modify n.device_id (set_state n) s.devices;
    clock = s.clock + 1;
    trace = send_hook (device_state_update n) ∷ s.trace;
  }

  IsInformed-quiet :
      (start s t : AppState) → SameState is_unreported s t → IsInformed start s → IsInformed start t
  IsInformed-quiet start s t same before id =
      let as_before = before id in
      elim (Option-cases (get id start.devices)) [
        | inl absent ↦ rw (same.devices, absent) (rw absent at as_before)
        | inr (device, known) ↦
            let kept = latest-unreported id same.fresh s.trace device.state same.fresh_kind in
            rw (same.devices, same.trace, known, kept) (rw known at as_before)
      ]

  IsInformed-notified :
      (start s : AppState) (n : UpdateNotification)
      → IsInformed start s
      → IsInformed start (notified n s)
  IsInformed-notified start s n before id =
      let as_before = before id in
      let changed = get-modify n.device_id id (set_state n) s.devices in
      elim (Option-cases (get id start.devices)) [
        | inl absent ↦
            let gone : get id s.devices ≡ none = rw absent at as_before in
            elim (Bool-cases (n.device_id == id)) [
              | inl named ↦ rw (changed, absent, named, gone) refl
              | inr other ↦ rw (changed, absent, other, gone) refl
            ]
        | inr (device, known) ↦
            let kept : get id s.devices ≡ some (informed id (hooks_sent s.trace) device) =
              rw known at as_before in
            elim (Bool-cases (n.device_id == id)) [
              | inl named ↦ rw (changed, known, named, kept) refl
              | inr other ↦ rw (changed, known, other, kept) refl
            ]
      ]

module _ ⦃d : Deps⦄ ⦃e : Env⦄ where
  notification_unknown :
      (n : UpdateNotification) (s : AppState)
      → get n.device_id s.devices ≡ none
      → (process_update_notification n s).1 ≡ s
  unfolding process_update_notification find_device ◌>>=◌
  notification_unknown n s unknown = rw unknown refl

  notification_known :
      (n : UpdateNotification) (s : AppState) {device : Device}
      → HooksAreOpen e
      → get n.device_id s.devices ≡ some device
      → (process_update_notification n s).1 ≡ notified n s
  unfolding process_update_notification find_device write_state perform ◌>>=◌
  notification_known n s open_hooks known =
      rw (known, open_hooks s.clock (device_state_update n)) refl

  IsInformed-notification :
      (start s : AppState) (n : UpdateNotification)
      → HooksAreOpen e
      → IsInformed start s
      → IsInformed start (process_update_notification n s).1
  IsInformed-notification start s n open_hooks before =
      elim (Option-cases (get n.device_id s.devices)) [
        | inl unknown ↦ rw (notification_unknown n s unknown) before
        | inr (device, known) ↦
            rw (notification_known n s open_hooks known) (IsInformed-notified start s n before)
      ]

  IsInformed-either :
      (start s t : AppState)
      → HooksAreOpen e
      → IsEither s t
      → IsInformed start s
      → IsInformed start t
  IsInformed-either start s t open_hooks (inl quiet) before =
      IsInformed-quiet start s t quiet before
  IsInformed-either start s t open_hooks (inr (n, report)) before =
      rw report (IsInformed-notification start s n open_hooks before)

  pub unaltered : (found : Option Device) → found ≡ Option.map (λ device. device) found
  unaltered none = refl
  unaltered (some device) = refl

module _ ⦃d : Deps⦄ ⦃e : Env⦄ ⦃c : Scheduler⦄ ⦃p : SocketCodec⦄ ⦃h : HttpCodec⦄
    ⦃k : KryptonCodec⦄ where
  -- With the hooks open, whatever the server's handlers do after a start at which no hook had been
  -- sent, its registry holds for each identifier the device of the start in the state that the
  -- latest hook for that device reports, in its first state where there is none, and none where the
  -- start had none.
  pub Reach-IsInformed :
      {start t : AppState}
      → HooksAreOpen e
      → hooks_sent start.trace ≡ []
      → Reach start t
      → IsInformed start t
  Reach-IsInformed {start} open_hooks fresh here id = rw fresh (unaltered (get id start.devices))
  Reach-IsInformed {start} open_hooks fresh (later {s} {t} reach step) id =
      IsInformed-either start s t open_hooks (Step-cases step)
        (Reach-IsInformed open_hooks fresh reach) id
