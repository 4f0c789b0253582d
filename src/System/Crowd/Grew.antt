-- ===== src/System/Crowd/Grew.antt =====
-- What a turn of a task may change, given what was reported: the state of a device, to one that was
-- reported of it, and the hooks, by reports.
use mathlib.Core.List.{append_assoc, Memᴰ}
use mathlib.Core.Option
use devicectrl_server.Prelude.{
  ℕ, zero, suc, ◌≡◌, refl, ◌∙◌, ap, ◌⊎◌, inl, inr, Option, none, some, List, [], ◌∷◌, ◌++◌, get,
}
use devicectrl_server.Deps.{Deps}
use devicectrl_server.Common.{UpdateNotification}
use devicectrl_server.Devices.{Device}
use devicectrl_server.Devices.Registry.{IsKeyed}
use devicectrl_server.App.{
  AppState, Effect, device_state_update, device_update_dispatch, scene_activate, send_hook,
}
use devicectrl_server.App.Emits.{is_unreported, AllAre, SameState}
use devicectrl_server.Dispatch.Notification.{set_state}
use devicectrl_server.Tasks.{Task, done, turn}
use devicectrl_server.Tasks.Join.{poll}
use devicectrl_server.Tasks.Keeps.{TurnsEmit}

module _ ⦃d : Deps⦄ where
  -- Each state of a device that the effects report was heard.
  abbrev pub AreHeard : List UpdateNotification → List Effect → Type 0
  AreHeard heard [] = Unit
  AreHeard heard (send_hook (device_state_update n) ∷ effects) =
      Memᴰ n heard × AreHeard heard effects
  AreHeard heard (_ ∷ effects) = AreHeard heard effects

  -- an entry of the registry that is as it was, or in a state that was heard for it
  abbrev pub IsHeardOf : List UpdateNotification → ℕ → (before after : Option Device) → Type 0
  IsHeardOf heard id before after =
      (after ≡ before)
      ⊎ ((n : UpdateNotification) × Memᴰ n heard
          × (n.device_id ≡ id)
          × (after ≡ Option.map (set_state n) before))

  pub record Grew (heard : List UpdateNotification) (s t : AppState) : Type 0 where
    pub config : t.config ≡ s.config
    pub controllers : t.controllers ≡ s.controllers
    pub keyed : IsKeyed s.devices → IsKeyed t.devices
    pub devices : (id : ℕ) → IsHeardOf heard id (get id s.devices) (get id t.devices)
    pub fresh : List Effect
    pub fresh_heard : AreHeard heard fresh
    pub trace : t.trace ≡ fresh ++ s.trace

  pub AreHeard-append :
      (heard : List UpdateNotification) (xs ys : List Effect)
      → AreHeard heard xs
      → AreHeard heard ys
      → AreHeard heard (xs ++ ys)
  AreHeard-append heard [] ys h k = k
  AreHeard-append heard (send_hook (device_state_update n) ∷ xs) ys h k =
      (h.0, AreHeard-append heard xs ys h.1 k)
  AreHeard-append heard (send_hook (device_update_dispatch r) ∷ xs) ys h k =
      AreHeard-append heard xs ys h k
  AreHeard-append heard (send_hook (scene_activate id) ∷ xs) ys h k =
      AreHeard-append heard xs ys h k
  AreHeard-append heard (_ ∷ xs) ys h k = AreHeard-append heard xs ys h k

  AreHeard-cons :
      (n : UpdateNotification) (heard : List UpdateNotification) (xs : List Effect)
      → AreHeard heard xs
      → AreHeard (n ∷ heard) xs
  AreHeard-cons n heard [] h = tt
  AreHeard-cons n heard (send_hook (device_state_update m) ∷ xs) h =
      (Memᴰ.tail h.0, AreHeard-cons n heard xs h.1)
  AreHeard-cons n heard (send_hook (device_update_dispatch r) ∷ xs) h = AreHeard-cons n heard xs h
  AreHeard-cons n heard (send_hook (scene_activate id) ∷ xs) h = AreHeard-cons n heard xs h
  AreHeard-cons n heard (_ ∷ xs) h = AreHeard-cons n heard xs h

  unreported-AreHeard :
      (heard : List UpdateNotification) (xs : List Effect)
      → AllAre is_unreported xs
      → AreHeard heard xs
  unreported-AreHeard heard [] h = tt
  unreported-AreHeard heard (send_hook (device_state_update n) ∷ xs) h = cc
  unreported-AreHeard heard (send_hook (device_update_dispatch r) ∷ xs) h =
      unreported-AreHeard heard xs h.1
  unreported-AreHeard heard (send_hook (scene_activate id) ∷ xs) h =
      unreported-AreHeard heard xs h.1
  unreported-AreHeard heard (_ ∷ xs) h = unreported-AreHeard heard xs h.1

  set_again :
      (n m : UpdateNotification) (o : Option Device)
      → Option.map (set_state n) (Option.map (set_state m) o) ≡ Option.map (set_state n) o
  set_again n m none = refl
  set_again n m (some device) = refl

  IsHeardOf-trans :
      (heard : List UpdateNotification) (id : ℕ) {a b c : Option Device}
      → IsHeardOf heard id a b
      → IsHeardOf heard id b c
      → IsHeardOf heard id a c
  IsHeardOf-trans heard id (inl p) (inl q) = inl (q ∙ p)
  IsHeardOf-trans heard id (inl p) (inr (n, known, named, q)) =
      inr (n, known, named, q ∙ ap (Option.map (set_state n)) p)
  IsHeardOf-trans heard id (inr (n, known, named, p)) (inl q) = inr (n, known, named, q ∙ p)
  IsHeardOf-trans heard id {a} (inr (m, known', named', p)) (inr (n, known, named, q)) =
      inr (n, known, named, q ∙ ap (Option.map (set_state n)) p ∙ set_again n m a)

  IsHeardOf-cons :
      (n : UpdateNotification) (heard : List UpdateNotification) (id : ℕ) {a b : Option Device}
      → IsHeardOf heard id a b
      → IsHeardOf (n ∷ heard) id a b
  IsHeardOf-cons n heard id (inl p) = inl p
  IsHeardOf-cons n heard id (inr (m, known, named, p)) = inr (m, Memᴰ.tail known, named, p)

  pub Grew-refl : (heard : List UpdateNotification) (s : AppState) → Grew heard s s
  Grew-refl heard s = record {
    config = refl;
    controllers = refl;
    keyed = λ h. h;
    devices = λ id. inl refl;
    fresh = [];
    fresh_heard = tt;
    trace = refl;
  }

  pub Grew-trans :
      {heard : List UpdateNotification} {s t v : AppState}
      → Grew heard s t
      → Grew heard t v
      → Grew heard s v
  Grew-trans {heard} {s} p q = record {
    config = q.config ∙ p.config;
    controllers = q.controllers ∙ p.controllers;
    keyed = λ h. q.keyed (p.keyed h);
    devices = λ id. IsHeardOf-trans heard id (p.devices id) (q.devices id);
    fresh = q.fresh ++ p.fresh;
    fresh_heard = AreHeard-append heard q.fresh p.fresh q.fresh_heard p.fresh_heard;
    trace = rw (q.trace, p.trace, append_assoc q.fresh p.fresh s.trace);
  }

  pub Grew-cons :
      (n : UpdateNotification) {heard : List UpdateNotification} {s t : AppState}
      → Grew heard s t
      → Grew (n ∷ heard) s t
  Grew-cons n {heard} p = record {
    config = p.config;
    controllers = p.controllers;
    keyed = p.keyed;
    devices = λ id. IsHeardOf-cons n heard id (p.devices id);
    fresh = p.fresh;
    fresh_heard = AreHeard-cons n heard p.fresh p.fresh_heard;
    trace = p.trace;
  }

  SameState-Grew :
      (heard : List UpdateNotification) {s t : AppState}
      → SameState is_unreported s t
      → Grew heard s t
  SameState-Grew heard p = record {
    config = p.config;
    controllers = p.controllers;
    keyed = λ h. rw p.devices h;
    devices = λ id. inl (ap (get id) p.devices);
    fresh = p.fresh;
    fresh_heard = unreported-AreHeard heard p.fresh p.fresh_kind;
    trace = p.trace;
  }

  -- Each turn changes what was heard only.
  abbrev pub TurnsGrow : List UpdateNotification → Task → Type 0
  TurnsGrow heard (done r) = Unit
  TurnsGrow heard (turn f k) = (s : AppState) → Grew heard s (f s) × TurnsGrow heard (k s)

  abbrev pub AllTurnsGrow : List UpdateNotification → List Task → Type 0
  AllTurnsGrow heard [] = Unit
  AllTurnsGrow heard (task ∷ tasks) = TurnsGrow heard task × AllTurnsGrow heard tasks

  pub quiet-TurnsGrow :
      (heard : List UpdateNotification) (task : Task)
      → TurnsEmit is_unreported task
      → TurnsGrow heard task
  quiet-TurnsGrow heard (done r) h = tt
  quiet-TurnsGrow heard (turn f k) h =
      λ s. (SameState-Grew heard (h s).0, quiet-TurnsGrow heard (k s) (h s).1)

  TurnsGrow-cons :
      (n : UpdateNotification) (heard : List UpdateNotification) (task : Task)
      → TurnsGrow heard task
      → TurnsGrow (n ∷ heard) task
  TurnsGrow-cons n heard (done r) h = tt
  TurnsGrow-cons n heard (turn f k) h =
      λ s. (Grew-cons n (h s).0, TurnsGrow-cons n heard (k s) (h s).1)

  pub AllTurnsGrow-cons :
      (n : UpdateNotification) (heard : List UpdateNotification) (tasks : List Task)
      → AllTurnsGrow heard tasks
      → AllTurnsGrow (n ∷ heard) tasks
  AllTurnsGrow-cons n heard [] h = tt
  AllTurnsGrow-cons n heard (task ∷ tasks) h =
      (TurnsGrow-cons n heard task h.0, AllTurnsGrow-cons n heard tasks h.1)

  pub poll-Grew :
      (heard : List UpdateNotification) (i : ℕ) (tasks : List Task) (s : AppState)
      → AllTurnsGrow heard tasks
      → Grew heard s (poll i tasks s).1 × AllTurnsGrow heard (poll i tasks s).0
  poll-Grew heard i [] s h = (Grew-refl heard s, tt)
  poll-Grew heard zero (done r ∷ tasks) s h = (Grew-refl heard s, h)
  poll-Grew heard zero (turn f k ∷ tasks) s h = ((h.0 s).0, ((h.0 s).1, h.1))
  poll-Grew heard (suc i) (task ∷ tasks) s h =
      let (grew, rest) = poll-Grew heard i tasks s h.1 in (grew, (h.0, rest))
