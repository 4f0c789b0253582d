-- ===== src/System/Threads/Serving.antt =====
-- What holds between any two turns of the server's tasks.
use devicectrl_server.Prelude.{ℕ, ◌≡◌, refl, ◌∙◌, Bool-cases, inl, inr, ◌==◌, ◌≢◌, get, arith, []}
use devicectrl_server.Deps.{Deps}
use devicectrl_server.Devices.Registry.{IsKeyed}
use devicectrl_server.App.{Env, AppState, HooksAreOpen}
use devicectrl_server.App.Emits.{is_unreported}
use devicectrl_server.App.Hooks.{hooks_sent}
use devicectrl_server.Automations.Dependencies.Channel.{Broadcast}
use devicectrl_server.Automations.Sunset.Evening.{Sun}
use devicectrl_server.Clients.Messages.{SocketCodec, HttpCodec}
use devicectrl_server.Controllers.Reports.{context_of}
use devicectrl_server.Krypton.Codec.{KryptonCodec}
use devicectrl_server.System.History.{unaltered}
use devicectrl_server.System.Threads.{
  Pool, begin, put, Step, spawn, run, hear, report, Reach, here, later,
}
use devicectrl_server.System.Threads.Informed.{SameState-SameOf}
use devicectrl_server.System.Threads.Jobs.{job_task-IsQuiet}
use devicectrl_server.System.Threads.Reporting.{Standing, over, writing, Standing-SameOf, over_inv}
use devicectrl_server.System.Threads.Reporting.Turn.{after_turn}
use devicectrl_server.Tasks.{Task}
use devicectrl_server.Tasks.Join.{Scheduler}
use devicectrl_server.Tasks.Keeps.{AllTurnsEmit, poll-AllTurnsEmit}

module _ ⦃d : Deps⦄ ⦃e : Env⦄ where
  -- how a pool stands to the state that the server started in
  pub record IsInOrder (start : AppState) (pool : Pool) : Type 0 where
    pub quiet : AllTurnsEmit is_unreported pool.tasks
    pub keyed : IsKeyed pool.state.devices
    pub config : pool.state.config ≡ start.config
    pub controllers : pool.state.controllers ≡ start.controllers
    pub standing : (id : ℕ) → Standing start id (pool.reports id) pool.state

  begin-IsInOrder :
      (start : AppState)
      → IsKeyed start.devices
      → hooks_sent start.trace ≡ []
      → IsInOrder start (begin start)
  begin-IsInOrder start keyed fresh = record {
    quiet = tt;
    keyed = keyed;
    config = refl;
    controllers = refl;
    standing = λ id. over _ refl (rw fresh (unaltered (get id start.devices)));
  }

  Standing-put :
      (start : AppState) (id i : ℕ) (task : Task) (reports : ℕ → Task) (s : AppState)
      → Standing start id task s
      → (id ≢ i → Standing start i (reports i) s)
      → Standing start i (put id task reports i) s
  Standing-put start id i task reports s own other = elim (Bool-cases (id == i)) [
    | inl same ↦
        let named : id ≡ i = ground arith in
        let here : Standing start i task s = rw named at own in rw same here
    | inr differs ↦ let apart : id ≢ i = ground arith in rw differs (other apart)
  ]

module _ ⦃d : Deps⦄ ⦃e : Env⦄ ⦃c : Scheduler⦄ ⦃p : SocketCodec⦄ ⦃h : HttpCodec⦄ ⦃k : KryptonCodec⦄
    ⦃b : Broadcast⦄ ⦃u : Sun⦄ where
  pub Step-IsInOrder :
      {start : AppState} {pool next : Pool}
      → HooksAreOpen e
      → IsInOrder start pool
      → Step pool next
      → IsInOrder start next
  Step-IsInOrder {start} {pool} open_hooks now (spawn job) = record {
    quiet = (job_task-IsQuiet job, now.quiet);
    keyed = now.keyed;
    config = now.config;
    controllers = now.controllers;
    standing = now.standing;
  }
  Step-IsInOrder {start} {pool} open_hooks now (run i) =
      let (same, quiet) = poll-AllTurnsEmit is_unreported i pool.tasks pool.state now.quiet in
      record {
        quiet = quiet;
        keyed = rw same.devices now.keyed;
        config = same.config ∙ now.config;
        controllers = same.controllers ∙ now.controllers;
        standing = λ id.
            Standing-SameOf start id (pool.reports id) _ _ (SameState-SameOf id same)
              (now.standing id);
      }
  Step-IsInOrder {start} {pool} open_hooks now (hear event {n} {r} heard idle) =
      let before = over_inv start n.device_id _ pool.state idle (now.standing n.device_id) in
      record {
        quiet = now.quiet;
        keyed = now.keyed;
        config = now.config;
        controllers = now.controllers;
        standing = λ i.
            Standing-put start n.device_id i _ pool.reports pool.state
              (writing (context_of event) n refl refl before) (λ other. now.standing i);
      }
  Step-IsInOrder {start} {pool} open_hooks now (report id) =
      let (own, concerns) =
        after_turn start id (pool.reports id) pool.state open_hooks (now.standing id) in
      record {
        quiet = now.quiet;
        keyed = concerns.keyed now.keyed;
        config = concerns.config ∙ now.config;
        controllers = concerns.controllers ∙ now.controllers;
        standing = λ i. Standing-put start id i _ pool.reports _ own (λ other.
            Standing-SameOf start i (pool.reports i) _ _ (concerns.others i other)
              (now.standing i));
      }

  pub Reach-IsInOrder :
      {start : AppState} {pool : Pool}
      → HooksAreOpen e
      → IsKeyed start.devices
      → hooks_sent start.trace ≡ []
      → Reach start pool
      → IsInOrder start pool
  Reach-IsInOrder {start} open_hooks keyed fresh here = begin-IsInOrder start keyed fresh
  Reach-IsInOrder open_hooks keyed fresh (later reach step) =
      Step-IsInOrder open_hooks (Reach-IsInOrder open_hooks keyed fresh reach) step
