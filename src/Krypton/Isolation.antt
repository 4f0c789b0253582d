-- ===== src/Krypton/Isolation.antt =====
-- A connection of src/devices/controllers/krypton.rs changes the entry of its own device only.
use devicectrl_server.Prelude.{
  ℕ, ◌≡◌, arith, Bool-cases, Option-cases, Result-cases, inl, inr, ◌==◌, get,
}
use devicectrl_server.Deps.{Deps, Bytes}
use devicectrl_server.Common.{ServerBoundKryptonMessage}
use devicectrl_server.App.{Env, AppState, pure, bail, within, find_device, lift, ◌>>=◌}
use devicectrl_server.App.Scope.{
  OnlyDevice, OnlyDevice-refl, OnlyDevice-at, process_update_notification-OnlyDevice,
}
use devicectrl_server.Krypton.Codec.{KryptonCodec}
use devicectrl_server.Krypton.Messages.{is_krypton, obey, handle_message}

module _ ⦃d : Deps⦄ ⦃e : Env⦄ where
  obey-OnlyDevice :
      (message : ServerBoundKryptonMessage) (device_id : ℕ) (s : AppState)
      → OnlyDevice device_id s (obey message device_id s).1
  unfolding obey pure bail within
  obey-OnlyDevice (ServerBoundKryptonMessage.update_notification n) device_id s =
      elim (Bool-cases (n.device_id == device_id)) [
        | inl own ↦
            let same : n.device_id ≡ device_id = ground arith in
            rw own (OnlyDevice-at same (process_update_notification-OnlyDevice n s))
        | inr foreign ↦ rw foreign (OnlyDevice-refl device_id s)
      ]
  obey-OnlyDevice _ device_id s = OnlyDevice-refl device_id s

  -- Whatever frame a device sends, and however its handling ends, the registry's other entries
  -- stay as they are.
  pub handle_message-OnlyDevice :
      ⦃c : KryptonCodec⦄ (buf : Bytes) (device_id : ℕ) (s : AppState)
      → OnlyDevice device_id s (handle_message buf device_id s).1
  unfolding handle_message find_device lift ◌>>=◌
  handle_message-OnlyDevice ⦃c⦄ buf device_id s = elim (Option-cases (get device_id s.devices)) [
    | inl unknown ↦ rw unknown (OnlyDevice-refl device_id s)
    | inr (device, known) ↦ elim (Result-cases (is_krypton device.controller)) [
      | inl (_, krypton) ↦ elim (Result-cases (c.decode buf)) [
        | inl (message, decoded) ↦
            rw (known, krypton, decoded) (obey-OnlyDevice message device_id s)
        | inr (x, garbled) ↦ rw (known, krypton, garbled) (OnlyDevice-refl device_id s)
      ]
      | inr (x, other) ↦ rw (known, other) (OnlyDevice-refl device_id s)
    ]
  ]
