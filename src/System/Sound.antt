-- ===== src/System/Sound.antt =====
-- What every state that the server can come to has in common with the state that it started in.
use devicectrl_server.Prelude.{
  ℕ, ◌≡◌, refl, ◌∙◌, ◌==◌, inl, inr, get, get-modify, Bool-cases, Option-cases, Result-cases,
  modify,
}
use mathlib.Core.Option
use devicectrl_server.Deps.{Deps}
use devicectrl_server.Common.{DeviceState, UpdateNotification}
use devicectrl_server.Devices.{Device, Devices}
use devicectrl_server.Devices.Registry.{IsKeyed}
use devicectrl_server.App.{
  Env, AppState, send_hook, device_state_update, perform, find_device, ◌>>=◌,
}
use devicectrl_server.App.Scope.{process_update_notification-OnlyDevice}
use devicectrl_server.Clients.Messages.{SocketCodec, HttpCodec}
use devicectrl_server.Dispatch.Laws.{process_update_notification-IsKeyed}
use devicectrl_server.Dispatch.Notification.{set_state, write_state, process_update_notification}
use devicectrl_server.Krypton.Codec.{KryptonCodec}
use devicectrl_server.System.{Reach, here, later}
use devicectrl_server.System.Steps.{IsEither, Step-cases}
use devicectrl_server.Tasks.Join.{Scheduler}

module _ ⦃d : Deps⦄ where
  -- a device but for its state
  abbrev pub identity : Device → Device
  identity device = record device { state = DeviceState.unknown }

  -- `t` is well formed, and differs from `s` in the states of devices and in what was done.
  pub record IsSound (s t : AppState) : Type 0 where
    pub keyed : IsKeyed t.devices
    pub config : t.config ≡ s.config
    pub controllers : t.controllers ≡ s.controllers
    pub same_devices :
        (id : ℕ) → Option.map identity (get id t.devices) ≡ Option.map identity (get id s.devices)

  IsSound-refl : (s : AppState) → IsKeyed s.devices → IsSound s s
  IsSound-refl s h = record {
    keyed = h;
    config = refl;
    controllers = refl;
    same_devices = λ id. refl;
  }

  IsSound-trans : {s t u : AppState} → IsSound s t → IsSound t u → IsSound s u
  IsSound-trans p q = record {
    keyed = q.keyed;
    config = q.config ∙ p.config;
    controllers = q.controllers ∙ p.controllers;
    same_devices = λ id. q.same_devices id ∙ p.same_devices id;
  }

  same_but_state :
      (n : UpdateNotification) (id : ℕ) (devices : Devices)
      → Option.map identity (get id (modify n.device_id (set_state n) devices))
        ≡ Option.map identity (get id devices)
  same_but_state n id devices =
      let changed = get-modify n.device_id id (set_state n) devices in
      elim (Bool-cases (n.device_id == id)) [
        | inl named ↦ elim (Option-cases (get id devices)) [
          | inl absent ↦ rw (changed, named, absent) refl
          | inr (device, known) ↦ rw (changed, named, known) refl
        ]
        | inr other ↦ rw (changed, other) refl
      ]

module _ ⦃d : Deps⦄ ⦃e : Env⦄ where
  notification-same_devices :
      (n : UpdateNotification) (s : AppState) (id : ℕ)
      → Option.map identity (get id (process_update_notification n s).1.devices)
        ≡ Option.map identity (get id s.devices)
  unfolding process_update_notification find_device write_state perform ◌>>=◌
  notification-same_devices n s id = elim (Option-cases (get n.device_id s.devices)) [
    | inl unknown ↦ rw unknown refl
    | inr (device, known) ↦
        elim (Result-cases (e.attempt s.clock (send_hook (device_state_update n)))) [
          | inl (_, sent) ↦ rw (known, sent) (same_but_state n id s.devices)
          | inr (x, lost) ↦ rw (known, lost) (same_but_state n id s.devices)
        ]
  ]

  IsSound-either : (s t : AppState) → IsKeyed s.devices → IsEither s t → IsSound s t
  IsSound-either s t h (inl quiet) = record {
    keyed = rw quiet.devices h;
    config = quiet.config;
    controllers = quiet.controllers;
    same_devices = λ id. rw quiet.devices refl;
  }
  IsSound-either s t h (inr (n, report)) =
      let only = process_update_notification-OnlyDevice n s in
      rw report (record {
        keyed = process_update_notification-IsKeyed n s h;
        config = only.config;
        controllers = only.controllers;
        same_devices = notification-same_devices n s;
      })

module _ ⦃d : Deps⦄ ⦃e : Env⦄ ⦃c : Scheduler⦄ ⦃p : SocketCodec⦄ ⦃h : HttpCodec⦄
    ⦃k : KryptonCodec⦄ where
  -- Whatever its clients, its devices and its own tasks do, one handler after the other in any
  -- order, and whether hooks can be sent or not, the server's registry stays well formed and holds
  -- the same devices under the same identifiers, with their types and controllers; and the
  -- configuration and the controllers stay as they were at the start.
  pub Reach-IsSound : {start t : AppState} → IsKeyed start.devices → Reach start t → IsSound start t
  Reach-IsSound {start} keyed here = IsSound-refl start keyed
  Reach-IsSound {start} keyed (later {s} {t} reach step) =
      let so_far = Reach-IsSound keyed reach in
      IsSound-trans so_far (IsSound-either s t so_far.keyed (Step-cases step))
