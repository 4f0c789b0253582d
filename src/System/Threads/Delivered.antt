-- ===== src/System/Threads/Delivered.antt =====
-- A report of a device comes through, whatever other tasks do between its turns.
use devicectrl_server.Prelude.{ℕ, ◌≡◌, ◌≢◌, refl, ◌∙◌, ap, String, some, [], ◌∷◌, ok, get, arith}
use devicectrl_server.Deps.{Deps}
use devicectrl_server.Common.{UpdateNotification}
use devicectrl_server.Devices.{Device}
use devicectrl_server.Devices.Registry.{IsKeyed}
use devicectrl_server.App.{Env, AppState, HooksAreOpen, device_state_update, send_hook}
use devicectrl_server.App.Emits.{is_unreported}
use devicectrl_server.App.Hooks.{hooks_sent}
use devicectrl_server.Automations.Dependencies.Channel.{Broadcast}
use devicectrl_server.Automations.Sunset.Evening.{Sun}
use devicectrl_server.Clients.Messages.{SocketCodec, HttpCodec}
use devicectrl_server.Dispatch.Notification.{set_state, write_state}
use devicectrl_server.Dispatch.Tasks.Notify.{write_new_state}
use devicectrl_server.Dispatch.Tasks.Overtaken.{write_new_state_known, write_then_get, tell_open}
use devicectrl_server.Krypton.Codec.{KryptonCodec}
use devicectrl_server.System.Threads.{
  Pool, put, go_on, report_task, Step, spawn, run, hear, report, Reach,
}
use devicectrl_server.System.Threads.Reporting.{telling_task, write_done, tell_done}
use devicectrl_server.System.Threads.Reporting.Turn.{after_turn}
use devicectrl_server.System.Threads.Serving.{IsInOrder, Step-IsInOrder, Reach-IsInOrder}
use devicectrl_server.Tasks.{Task, done}
use devicectrl_server.Tasks.Join.{Scheduler}
use devicectrl_server.Tasks.Keeps.{poll-AllTurnsEmit}

module _ ⦃d : Deps⦄ where
  -- a pool once the report of a device has had a turn
  abbrev pub turned : ℕ → Pool → Pool
  turned id pool = record pool {
    reports = put id (go_on (pool.reports id) pool.state).0 pool.reports;
    state = (go_on (pool.reports id) pool.state).1;
  }

  put_other :
      (id i : ℕ) (task : Task) (reports : ℕ → Task) → id ≢ i → put id task reports i ≡ reports i
  put_other id i task reports other = ground arith

  put_own : (id : ℕ) (task : Task) (reports : ℕ → Task) → put id task reports id ≡ task
  put_own id task reports = ground arith

module _ ⦃d : Deps⦄ ⦃e : Env⦄ ⦃c : Scheduler⦄ ⦃p : SocketCodec⦄ ⦃h : HttpCodec⦄ ⦃k : KryptonCodec⦄
    ⦃b : Broadcast⦄ ⦃u : Sun⦄ where
  -- a step that neither is a turn of the device's report nor begins another
  abbrev pub IsOther : {pool next : Pool} → ℕ → Step pool next → Type 0
  IsOther id (spawn job) = Unit
  IsOther id (run i) = Unit
  IsOther id (hear event {n} said idle) = n.device_id ≢ id
  IsOther id (report i) = i ≢ id

  -- such steps, as many as there may be
  pub data Meanwhile (id : ℕ) (pool : Pool) : Pool → Type 0 where
    nothing : Meanwhile id pool pool
    other :
        {next last : Pool}
        → Meanwhile id pool next
        → (step : Step next last) → IsOther id step
        → Meanwhile id pool last

  -- what they leave of the device
  record IsKept (id : ℕ) (pool next : Pool) : Type 0 where
    task : next.reports id ≡ pool.reports id
    device : get id next.state.devices ≡ get id pool.state.devices

  Step-IsKept :
      (id : ℕ) {start : AppState} {pool next : Pool}
      → HooksAreOpen e
      → IsInOrder start pool
      → (step : Step pool next) → IsOther id step
      → IsKept id pool next
  Step-IsKept id open_hooks now (spawn job) apart = record { task = refl; device = refl }
  Step-IsKept id {pool = pool} open_hooks now (run i) apart =
      let (same, quiet) = poll-AllTurnsEmit is_unreported i pool.tasks pool.state now.quiet in
      record { task = refl; device = ap (get id) same.devices }
  Step-IsKept id {pool = pool} open_hooks now (hear event {n} said idle) apart = record {
    task = put_other n.device_id id _ pool.reports apart;
    device = refl;
  }
  Step-IsKept id {start} {pool} open_hooks now (report i) apart =
      let (own, concerns) =
        after_turn start i (pool.reports i) pool.state open_hooks (now.standing i) in
      record {
        task = put_other i id _ pool.reports apart;
        device = (concerns.others id apart).device;
      }

  Meanwhile-IsKept :
      (id : ℕ) {start : AppState} {pool next : Pool}
      → HooksAreOpen e
      → IsInOrder start pool
      → Meanwhile id pool next
      → IsInOrder start next × IsKept id pool next
  Meanwhile-IsKept id open_hooks now nothing = (now, record { task = refl; device = refl })
  Meanwhile-IsKept id open_hooks now (other while step is_other) =
      let (so_far, kept) = Meanwhile-IsKept id open_hooks now while in
      let kept' = Step-IsKept id open_hooks so_far step is_other in
      (
        Step-IsInOrder open_hooks so_far step,
        record { task = kept'.task ∙ kept.task; device = kept'.device ∙ kept.device },
      )

  write_new_state_written :
      (n : UpdateNotification) (s : AppState) {device : Device}
      → get n.device_id s.devices ≡ some device
      → write_new_state n s ≡ (ok tt, (write_state n s).1)
  unfolding write_state
  write_new_state_written n s known = write_new_state_known n s known

  first_turn :
      (m : String) (n : UpdateNotification) (pool : Pool) {device : Device}
      → pool.reports n.device_id ≡ report_task m n
      → get n.device_id pool.state.devices ≡ some device
      → ((turned n.device_id pool).reports n.device_id ≡ telling_task m n)
        × (get n.device_id (turned n.device_id pool).state.devices ≡ some (set_state n device))
  first_turn m n pool {device} begun known =
      let s = pool.state in
      let t = (write_state n s).1 in
      let wrote = write_new_state_written n s known in
      let went : go_on (pool.reports n.device_id) s ≡ (telling_task m n, t) =
        ap (λ task. go_on task s) begun ∙ write_done m n s t wrote in
      (
        put_own n.device_id _ pool.reports ∙ ap (λ p. p.0) went,
        ap (λ p. get n.device_id p.1.devices) went ∙ write_then_get n n.device_id s refl known,
      )

  second_turn :
      (m : String) (n : UpdateNotification) (pool : Pool) {device : Device}
      → HooksAreOpen e
      → pool.reports n.device_id ≡ telling_task m n
      → get n.device_id pool.state.devices ≡ some device
      → let t = turned n.device_id pool in
        (t.reports n.device_id ≡ done (ok tt))
        × (get n.device_id t.state.devices ≡ some device)
        × (t.state.trace ≡ send_hook (device_state_update n) ∷ pool.state.trace)
  second_turn m n pool {device} open_hooks wrote known =
      let s = pool.state in
      let told = tell_open n s open_hooks in
      let went = ap (λ task. go_on task s) wrote ∙ tell_done m n s _ told in
      (
        put_own n.device_id _ pool.reports ∙ ap (λ p. p.0) went,
        ap (λ p. get n.device_id p.1.devices) went ∙ known,
        ap (λ p. p.1.trace) went,
      )

  -- With the hooks open, a report of a registered device that is under way has come through once it
  -- has had two turns, whatever steps the other tasks of the server take before either: it has
  -- ended without an error, the registry has the state that it reports, and the hook for it is the
  -- latest effect.
  pub report-delivered :
      (m : String) (n : UpdateNotification) {start : AppState} {pool written told : Pool}
      {device : Device}
      → HooksAreOpen e
      → IsKeyed start.devices
      → hooks_sent start.trace ≡ []
      → Reach start pool
      → pool.reports n.device_id ≡ report_task m n
      → get n.device_id pool.state.devices ≡ some device
      → Meanwhile n.device_id pool written
      → Meanwhile n.device_id (turned n.device_id written) told
      → let t = turned n.device_id told in
        (t.reports n.device_id ≡ done (ok tt))
        × (get n.device_id t.state.devices ≡ some (set_state n device))
        × (t.state.trace ≡ send_hook (device_state_update n) ∷ told.state.trace)
  report-delivered m n {written = written} {told} open_hooks keyed fresh reach begun known before
        between =
      let id = n.device_id in
      let (order, kept) =
        Meanwhile-IsKept id open_hooks (Reach-IsInOrder open_hooks keyed fresh reach) before in
      let (telling, set) = first_turn m n written (kept.task ∙ begun) (kept.device ∙ known) in
      let next = Step-IsInOrder open_hooks order (report id) in
      let (order', kept') = Meanwhile-IsKept id open_hooks next between in
      second_turn m n told open_hooks (kept'.task ∙ telling) (kept'.device ∙ set)
