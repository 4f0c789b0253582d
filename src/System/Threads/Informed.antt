-- ===== src/System/Threads/Informed.antt =====
-- What one task leaves alone, of what the registry and the hooks say of a device.
use devicectrl_server.Prelude.{ℕ, ◌≡◌, refl, ◌∙◌, ap, Option-cases, inl, inr, get}
use devicectrl_server.Deps.{Deps}
use devicectrl_server.Common.{DeviceState}
use devicectrl_server.App.{AppState}
use devicectrl_server.App.Emits.{is_unreported, SameState}
use devicectrl_server.App.Hooks.{hooks_sent}
use devicectrl_server.System.History.{latest, latest-unreported, IsInformedOf}

module _ ⦃d : Deps⦄ where
  -- `t` has the same entry for a device, and the same latest hook for it
  pub record SameOf (id : ℕ) (s t : AppState) : Type 0 where
    pub device : get id t.devices ≡ get id s.devices
    pub reported :
        (initial : DeviceState)
        → latest id (hooks_sent t.trace) initial ≡ latest id (hooks_sent s.trace) initial

  pub SameOf-refl : (id : ℕ) (s : AppState) → SameOf id s s
  SameOf-refl id s = record { device = refl; reported = λ initial. refl }

  pub SameState-SameOf : (id : ℕ) {s t : AppState} → SameState is_unreported s t → SameOf id s t
  SameState-SameOf id {s} same = record {
    device = ap (get id) same.devices;
    reported = λ initial.
        ap (λ trace. latest id (hooks_sent trace) initial) same.trace
        ∙ latest-unreported id same.fresh s.trace initial same.fresh_kind;
  }

  pub IsInformedOf-SameOf :
      (id : ℕ) (start s t : AppState)
      → SameOf id s t
      → IsInformedOf id start s
      → IsInformedOf id start t
  IsInformedOf-SameOf id start s t same before = elim (Option-cases (get id start.devices)) [
    | inl absent ↦ rw (same.device, absent) (rw absent at before)
    | inr (device, known) ↦ rw (same.device, known, same.reported device.state) (rw known at before)
  ]
