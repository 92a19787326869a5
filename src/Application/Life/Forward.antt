-- ===== src/Application/Life/Forward.antt =====
-- No call takes the application back in its life cycle.
use server_game.Base.{ℕ, ◌≤◌, ◌≡◌, refl, ap, true, false, List, ok, or_fault, dangling, arith}
use server_game.Base.Ensures
use server_game.Base.Ensures.{Ensures}
use server_game.Game.Types.{Registry, Time}
use server_game.Callbacks.Decider.{Externals}
use server_game.Proxy.Step.{Surroundings}
use server_game.Proxy.Safe.Stepped.{step-Held}
use server_game.Server.Loop.{Turn, main_loop}
use server_game.Application.State.{
  State, created, running, stopped, Application, stop, clean, stop_server, stop_broadcast, if_there,
}
use server_game.Application.Options.{Parameters}
use server_game.Application.Launch.{init_server, init_broadcast_server, is_set}
use server_game.Application.Run.{
  Process, father, child, Course, idle, served, launch, run_server, run_broadcast, run_created, run,
}
use server_game.Application.Life.{
  left_by, Call, ran, commanded, processed, stopped_by_signal, cleaned, popped, Reach, here, next,
}
use server_game.Application.Life.Since.{
  rank, Since, SinceRun, stop-Since, pop_port-Since, Since-Held, main_loop-Since, one_message-Since,
}

module _ (ext : Externals) (env : Surroundings) (unset : Time) (items : Registry) where
  launched :
      (p : Parameters) (app : Application)
      → Ensures (SinceRun 1 ext env) (launch ext env unset items p app)
  unfolding launch
  launched p app =
      Ensures.bind-Ensures (SinceRun 1 ext env) (init_server env.video_first unset items p app) _
        (λ app' _.
          Ensures.bind-Ensures (SinceRun 1 ext env) (or_fault dangling p.options.tick_interval) _
            (λ tick _. Ensures.ok-Ensures (SinceRun 1 ext env) _ (omega arith)))

  abbrev SinceCourse : ℕ → Course → Type 0
  SinceCourse k c = Since k (left_by c)

  run_server-Since :
      (turns : List Turn) (p : Parameters) (app : Application)
      → Ensures (SinceCourse 1) (run_server ext env unset items turns p app)
  unfolding run_server
  run_server-Since turns p app =
      Ensures.bind-Ensures (SinceCourse 1) (launch ext env unset items p app) _ (λ r e.
        Ensures.bind-Ensures (SinceCourse 1) (main_loop ext env turns r) _ (λ r' f.
          Ensures.ok-Ensures (SinceCourse 1) (served r')
            (main_loop-Since 1 ext env turns r (launched p app r e) r' f)))

  run_created-Since :
      (process : Process) (turns : List Turn) (p : Parameters) (app : Application)
      → Ensures (SinceCourse 1) (run_created ext env unset items process turns p app)
  unfolding run_created run_broadcast
  run_created-Since process turns p app =
      Ensures.if-Ensures (SinceCourse 1) (is_set p.options.dry_run) _ _
        (Ensures.bind-Ensures (SinceCourse 1) (launch ext env unset items p app) _
          (λ r e. Ensures.ok-Ensures (SinceCourse 1) (served r) (launched p app r e)))
        (Ensures.if-Ensures (SinceCourse 1) (is_set p.options.broadcast) _ _ (forked process)
          (run_server-Since turns p app))
    where
      forked :
          (process : Process)
          → Ensures (SinceCourse 1) (elim process [
            | child ↦ run_broadcast ext env unset items p app
            | father ↦ run_server ext env unset items turns p app
          ])
      forked child =
          Ensures.bind-Ensures (SinceCourse 1) (init_broadcast_server p app) _
            (λ app' _. Ensures.ok-Ensures (SinceCourse 1) _ (omega arith))
      forked father = run_server-Since turns p app

  run-Since :
      (k : ℕ) (process : Process) (turns : List Turn) (p : Parameters) (app : Application)
      → Since k app
      → Ensures (SinceCourse k) (run ext env unset items process turns p app)
  unfolding run
  run-Since k process turns p app v = in_state app.state v
    where
      in_state :
          (s : State)
          → k ≤ rank s
          → Ensures (SinceCourse k) (elim s [
            | created ↦ run_created ext env unset items process turns p app
            | running ↦ ok (idle app)
            | stopped ↦ ok (idle app)
          ])
      in_state created w =
          λ c e. let further = run_created-Since process turns p app c e in omega (arith, further)
      in_state running w = Ensures.ok-Ensures (SinceCourse k) (idle app) v
      in_state stopped w = Ensures.ok-Ensures (SinceCourse k) (idle app) v

  Call-Since : (k : ℕ) {a b : Application} → Call ext env unset items a b → Since k a → Since k b
  unfolding clean
  Call-Since k (ran process turns p a c e) v = run-Since k process turns p a v c e
  Call-Since k (commanded mode command a o e) v =
      step-Held (Since k) (Since-Held k) env mode command a v o e
  Call-Since k (processed turns r s e) v = one_message-Since k ext env turns r v s e
  Call-Since k (stopped_by_signal a) v = stop-Since k a v
  Call-Since k (cleaned a) v = v
  Call-Since k (popped a) v = pop_port-Since k a v

  Reach-Since : (k : ℕ) {a b : Application} → Reach ext env unset items a b → Since k a → Since k b
  Reach-Since k here v = v
  Reach-Since k (next r c) v = Call-Since k c (Reach-Since k r v)

  run_stopped :
      (process : Process) (turns : List Turn) (p : Parameters) (app : Application)
      → app.state ≡ stopped
      → run ext env unset items process turns p app ≡ ok (idle app)
  unfolding run
  run_stopped process turns p app = ap (λ s. elim s [
    | created ↦ run_created ext env unset items process turns p app
    | running ↦ ok (idle app)
    | stopped ↦ ok (idle app)
  ])

  stop_again : (app : Application) → app.state ≡ stopped → stop app ≡ (app, false)
  unfolding stop
  stop_again app = ap (λ s. elim s [
    | created ↦ (app, false)
    | stopped ↦ (app, false)
    | running ↦ (
      record app {
        state = stopped;
        server = if_there stop_server app.server;
        broadcast_server = if_there stop_broadcast app.broadcast_server;
      },
      true,
    )
  ])

  is_stopped : (s : State) → 2 ≤ rank s → s ≡ stopped
  is_stopped created h = absurd (omega arith)
  is_stopped running h = absurd (omega arith)
  is_stopped stopped h = refl

  -- Whatever calls an application goes through, it is not taken back from RUNNING to CREATED or
  -- from STOPPED to either. One that is stopped stays so, `run` leaves it as it is, in any process
  -- and with any parameters, and a further `stop` returns false.
  pub Reach-forward :
      (a b : Application)
      → Reach ext env unset items a b
      → (rank a.state ≤ rank b.state)
        × (a.state ≡ stopped
            → (b.state ≡ stopped)
              × ((process : Process) (turns : List Turn) (p : Parameters)
                  → run ext env unset items process turns p b ≡ ok (idle b))
              × (stop b ≡ (b, false)))
  Reach-forward a b r = (
    Reach-Since (rank a.state) r (omega arith),
    λ e.
        let s = is_stopped b.state (Reach-Since 2 r (rw e (omega arith))) in
        (s, λ process turns p. run_stopped process turns p b s, stop_again b s),
  )
