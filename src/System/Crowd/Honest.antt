-- ===== src/System/Crowd/Honest.antt =====
-- The registry and the hooks tell only what was reported, however the tasks take their turns.
use mathlib.Core.List.{Memᴰ}
use devicectrl_server.Prelude.{
  refl, Bool-cases, String, Option-cases, inl, inr, List, [], ◌∷◌, Result, ok, err, Result-cases,
  get, get-modify, ◌==◌, arith,
}
use devicectrl_server.Deps.{Deps}
use devicectrl_server.Common.{UpdateNotification}
use devicectrl_server.Devices.Registry.{IsKeyed-modify}
use devicectrl_server.App.{Env, AppState, device_state_update, send_hook, perform, within}
use devicectrl_server.Automations.Dependencies.Channel.{Broadcast}
use devicectrl_server.Automations.Sunset.Evening.{Sun}
use devicectrl_server.Clients.Messages.{SocketCodec, HttpCodec}
use devicectrl_server.Controllers.Reports.{context_of}
use devicectrl_server.Dispatch.Notification.{set_state, write_state}
use devicectrl_server.Dispatch.Tasks.Notify.{write_new_state, tell, notification_task}
use devicectrl_server.Dispatch.Tasks.Overtaken.{write_new_state_known}
use devicectrl_server.Krypton.Codec.{KryptonCodec}
use devicectrl_server.System.Crowd.{Crowd, spawn, hear, run, Reach, here, later}
use devicectrl_server.System.Crowd.Grew.{
  Grew, Grew-refl, Grew-trans, Grew-cons, TurnsGrow, AllTurnsGrow, AllTurnsGrow-cons,
  quiet-TurnsGrow, poll-Grew,
}
use devicectrl_server.System.Threads.{job_task, report_task}
use devicectrl_server.System.Threads.Jobs.{job_task-IsQuiet}
use devicectrl_server.System.Threads.Reporting.{write_new_state_unknown}
use devicectrl_server.Tasks.{Task, done, turn, await, finally, resume}
use devicectrl_server.Tasks.Join.{Scheduler}
use devicectrl_server.Tasks.Nested.{task_within}

module _ ⦃d : Deps⦄ ⦃e : Env⦄ (heard : List UpdateNotification) (n : UpdateNotification)
    (known : Memᴰ n heard) where
  write_state-Grew : (s : AppState) → Grew heard s (write_state n s).1
  unfolding write_state
  write_state-Grew s = record {
    config = refl;
    controllers = refl;
    keyed = IsKeyed-modify n.device_id (set_state n) s.devices (λ device. refl);
    devices = λ id. elim (Bool-cases (n.device_id == id)) [
      | inl named ↦ inr (
        n,
        known,
        ground arith,
        ground (arith, get-modify n.device_id id (set_state n) s.devices),
      )
      | inr other ↦ inl (ground (arith, get-modify n.device_id id (set_state n) s.devices))
    ];
    fresh = [];
    fresh_heard = tt;
    trace = refl;
  }

  write_new_state-Grew : (s : AppState) → Grew heard s (write_new_state n s).1
  write_new_state-Grew s = elim (Option-cases (get n.device_id s.devices)) [
    | inl unknown ↦ rw (write_new_state_unknown n s unknown) (Grew-refl heard s)
    | inr (device, registered) ↦ rw (write_new_state_known n s registered) (write_state-Grew s)
  ]

  tell-Grew : (s : AppState) → Grew heard s (tell n s).1
  unfolding tell perform within
  tell-Grew s = elim (Result-cases (e.attempt s.clock (send_hook (device_state_update n)))) [
    | inl (_, sent) ↦ rw sent (record {
      config = refl;
      controllers = refl;
      keyed = λ h. h;
      devices = λ id. inl refl;
      fresh = send_hook (device_state_update n) ∷ [];
      fresh_heard = (known, tt);
      trace = refl;
    })
    | inr (x, lost) ↦ rw lost (record {
      config = refl;
      controllers = refl;
      keyed = λ h. h;
      devices = λ id. inl refl;
      fresh = [];
      fresh_heard = tt;
      trace = refl;
    })
  ]

module _ ⦃d : Deps⦄ ⦃e : Env⦄ where
  within-TurnsGrow :
      (heard : List UpdateNotification) (m : String) (task : Task)
      → TurnsGrow heard task
      → TurnsGrow heard (task_within m task)
  unfolding task_within
  within-TurnsGrow heard m (done r) h = tt
  within-TurnsGrow heard m (turn f k) h = λ s. ((h s).0, within-TurnsGrow heard m (k s) (h s).1)

  resume-TurnsGrow :
      {A : Type 0} (heard : List UpdateNotification) (r : Result A) (k : A → Task)
      → ((a : A) → TurnsGrow heard (k a))
      → TurnsGrow heard (resume r k)
  resume-TurnsGrow heard (ok a) k h = h a
  resume-TurnsGrow heard (err x) k h = tt

  report_task-TurnsGrow :
      (heard : List UpdateNotification) (m : String) (n : UpdateNotification)
      → Memᴰ n heard
      → TurnsGrow heard (report_task m n)
  unfolding notification_task await finally
  report_task-TurnsGrow heard m n known = within-TurnsGrow heard m (notification_task n) λ s. (
    write_new_state-Grew heard n known s,
    resume-TurnsGrow heard (write_new_state n s).0 _
        λ _ t. (tell-Grew heard n known t, resume-TurnsGrow heard (tell n t).0 _ (λ _. tt)),
  )

module _ ⦃d : Deps⦄ ⦃e : Env⦄ ⦃c : Scheduler⦄ ⦃p : SocketCodec⦄ ⦃h : HttpCodec⦄ ⦃k : KryptonCodec⦄
    ⦃b : Broadcast⦄ ⦃u : Sun⦄ where
  -- From the start on, only what was reported has come into the registry and into the hooks.
  pub Reach-Grew :
      {start : AppState} {crowd : Crowd}
      → Reach start crowd
      → Grew crowd.heard start crowd.state × AllTurnsGrow crowd.heard crowd.tasks
  Reach-Grew {start} here = (Grew-refl [] start, tt)
  Reach-Grew (later {crowd} reach (spawn job)) =
      let (grew, tasks) = Reach-Grew reach in
      (grew, (quiet-TurnsGrow crowd.heard (job_task job) (job_task-IsQuiet job), tasks))
  Reach-Grew (later {crowd} reach (hear event {n} said)) =
      let (grew, tasks) = Reach-Grew reach in
      let task = report_task-TurnsGrow (n ∷ crowd.heard) (context_of event) n (Memᴰ.head refl) in
      (Grew-cons n grew, (task, AllTurnsGrow-cons n crowd.heard crowd.tasks tasks))
  Reach-Grew (later {crowd} reach (run i)) =
      let (grew, tasks) = Reach-Grew reach in
      let (turned, rest) = poll-Grew crowd.heard i crowd.tasks crowd.state tasks in
      (Grew-trans grew turned, rest)
