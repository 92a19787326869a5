-- ===== src/Application/Launch/Safe.antt =====
-- The game that Application::initServer makes is sound, and stays so as long as Application::run
-- serves.
use server_game.Base.{◌≡◌, refl, Bool, List, [], ◌∷◌, Result, ok, dangling, or_fault, ◌>>=◌}
use server_game.Base.Ensures
use server_game.Base.Ensures.{Ensures}
use server_game.Base.Text.{Text}
use server_game.Base.StdMap.{Map}
use server_game.Game.Types.{Game, Registry, Time}
use server_game.Game.Team
use server_game.Game.Roster
use server_game.Game.Rules
use server_game.Game.Sound.{IsSound}
use server_game.Game.Sound.Added.{add_team-IsSound, add_robot-IsSound}
use server_game.Game.Sound.Unchanged.{IsSound-same, same_teams}
use server_game.Game.Sound.Operations.{make-IsSound}
use server_game.Callbacks.Decider.{Externals}
use server_game.Proxy.Step.{Surroundings}
use server_game.Proxy.Safe.Kept.{HasSoundGame}
use server_game.Server.Loop.{Turn, main_loop}
use server_game.Server.Loop.Safe.{SoundRun, main_loop-Sound}
use server_game.Application.State.{State, Application, created, running, stopped, pop_port}
use server_game.Application.Options.{Parameters, RobotEntry}
use server_game.Application.Launch.{
  enter_teams, enter_robots, enter_items, new_game, init_server, init_broadcast_server, is_set,
}
use server_game.Application.Run.{
  Process, father, child, Course, idle, broadcasting, served, launch, run_server, run_broadcast,
  run_created, run,
}

enter_teams-IsSound : (names : List Text) (g : Game) → IsSound g → IsSound (enter_teams names g)
unfolding enter_teams
enter_teams-IsSound [] g v = v
enter_teams-IsSound (name ∷ rest) g v =
    enter_teams-IsSound rest (Team.add_team name g).0 (add_team-IsSound name g v)

enter_robots-IsSound :
    (video_first : Bool) (robots : Map Text RobotEntry) (app : Application) (g : Game)
    → IsSound g
    → Ensures (λ (r : Application × Game). IsSound r.1) (enter_robots video_first robots app g)
unfolding enter_robots
enter_robots-IsSound video_first [] app g v =
    Ensures.ok-Ensures (λ (r : Application × Game). IsSound r.1) (app, g) v
enter_robots-IsSound video_first ((id, robot) ∷ rest) app g v =
    let rest_sound = enter_robots-IsSound video_first rest (pop_port (pop_port app).0).0 in
    Ensures.bind-Ensures (λ (r : Application × Game). IsSound r.1) (Roster.add_robot _ _ _ _ _ g) _
      (λ r e. rest_sound r.0 (add_robot-IsSound robot.name robot.team _ _ id g r e v))

init_server-Sound :
    (video_first : Bool) (unset : Time) (items : Registry) (p : Parameters) (app : Application)
    → Ensures HasSoundGame (init_server video_first unset items p app)
unfolding init_server Rules.set_map_limits
init_server-Sound video_first unset items p app =
    part (or_fault dangling p.options.agent_port) _ (λ _ _.
      part (or_fault dangling p.options.publisher_port) _ (λ _ _.
        part (or_fault dangling p.options.puller_port) _ (λ _ _.
          part (or_fault dangling p.options.replier_port) _ (λ _ _.
            part (or_fault dangling p.options.tick_interval) _ (λ _ _.
              part (or_fault dangling p.options.game_duration) _ (λ duration _.
                let g = enter_teams p.teams (new_game video_first unset items p duration) in
                part (enter_robots video_first p.robots _ g) _ (λ r e.
                  part (enter_items p.items p.rules r.1.items) _ (λ _ _.
                    Ensures.ok-Ensures HasSoundGame _ (
                      IsSound-same r.1 _ (same_teams r.1 _ refl refl refl refl refl refl refl refl)
                        (enter_robots-IsSound video_first p.robots _ g
                          (enter_teams-IsSound p.teams _ (make-IsSound unset _ p.rules items)) r
                          e))))))))))
  where
    part :
        {X : Type 0} (r : Result X) (next : X → Result Application)
        → ((x : X) → r ≡ ok x → Ensures HasSoundGame (next x))
        → Ensures HasSoundGame (r >>= next)
    part = Ensures.bind-Ensures HasSoundGame

init_broadcast_server-Sound :
    (p : Parameters) (app : Application)
    → HasSoundGame app
    → Ensures HasSoundGame (init_broadcast_server p app)
unfolding init_broadcast_server
init_broadcast_server-Sound p app v =
    Ensures.if-Ensures HasSoundGame (is_set p.options.broadcast) _ _
      (part (or_fault dangling p.options.publisher_port) _ (λ _ _.
        part (or_fault dangling p.options.puller_port) _ (λ _ _.
          part (or_fault dangling p.options.replier_port) _ (λ _ _.
            part (or_fault dangling p.options.agent_port) _ (λ _ _.
              part (or_fault dangling p.options.broadcast_port) _
                (λ _ _. Ensures.ok-Ensures HasSoundGame _ v))))))
      (Ensures.ok-Ensures HasSoundGame app v)
  where
    part :
        {X : Type 0} (r : Result X) (next : X → Result Application)
        → ((x : X) → r ≡ ok x → Ensures HasSoundGame (next x))
        → Ensures HasSoundGame (r >>= next)
    part = Ensures.bind-Ensures HasSoundGame

-- What a process comes to has a sound game, if it has a server.
abbrev pub SoundCourse : Course → Type 0
SoundCourse (idle app) = HasSoundGame app
SoundCourse (broadcasting app) = HasSoundGame app
SoundCourse (served r) = HasSoundGame r.application

module _ (ext : Externals) (env : Surroundings) (unset : Time) (items : Registry) where
  launch-Sound :
      (p : Parameters) (app : Application)
      → Ensures (SoundRun ext env) (launch ext env unset items p app)
  unfolding launch
  launch-Sound p app =
      Ensures.bind-Ensures (SoundRun ext env) (init_server env.video_first unset items p app) _
        (λ app' e.
          Ensures.bind-Ensures (SoundRun ext env) (or_fault dangling p.options.tick_interval) _
            (λ tick _.
              Ensures.ok-Ensures (SoundRun ext env) _
                (init_server-Sound env.video_first unset items p app app' e)))

  run_server-Sound :
      (turns : List Turn) (p : Parameters) (app : Application)
      → Ensures SoundCourse (run_server ext env unset items turns p app)
  unfolding run_server
  run_server-Sound turns p app =
      Ensures.bind-Ensures SoundCourse (launch ext env unset items p app) _ (λ r e.
        Ensures.bind-Ensures SoundCourse (main_loop ext env turns r) _ (λ r' f.
          Ensures.ok-Ensures SoundCourse (served r')
            (main_loop-Sound ext env turns r (launch-Sound p app r e) r' f)))

  run_created-Sound :
      (process : Process) (turns : List Turn) (p : Parameters) (app : Application)
      → HasSoundGame app
      → Ensures SoundCourse (run_created ext env unset items process turns p app)
  unfolding run_created run_broadcast
  run_created-Sound process turns p app v =
      Ensures.if-Ensures SoundCourse (is_set p.options.dry_run) _ _
        (Ensures.bind-Ensures SoundCourse (launch ext env unset items p app) _
          (λ r e. Ensures.ok-Ensures SoundCourse (served r) (launch-Sound p app r e)))
        (Ensures.if-Ensures SoundCourse (is_set p.options.broadcast) _ _ (forked process)
          (run_server-Sound turns p app))
    where
      forked :
          (process : Process)
          → Ensures SoundCourse (elim process [
            | child ↦ run_broadcast ext env unset items p app
            | father ↦ run_server ext env unset items turns p app
          ])
      forked child =
          Ensures.bind-Ensures SoundCourse (init_broadcast_server p app) _ (λ app' e.
            Ensures.ok-Ensures SoundCourse _ (init_broadcast_server-Sound p app v app' e))
      forked father = run_server-Sound turns p app

  -- Whatever the parameters are, whatever comes in the turns, and in whatever process: where
  -- Application::run returns, the game of the server is sound, if there is a server. The
  -- application that is run is any whose server, if it has one, has a sound game.
  pub run-SoundCourse :
      (process : Process) (turns : List Turn) (p : Parameters) (app : Application) (c : Course)
      → run ext env unset items process turns p app ≡ ok c
      → HasSoundGame app
      → SoundCourse c
  unfolding run
  run-SoundCourse process turns p app c e v = ran app.state c e
    where
      ran :
          (s : State)
          → Ensures SoundCourse (elim s [
            | created ↦ run_created ext env unset items process turns p app
            | running ↦ ok (idle app)
            | stopped ↦ ok (idle app)
          ])
      ran created = run_created-Sound process turns p app v
      ran running = Ensures.ok-Ensures SoundCourse (idle app) v
      ran stopped = Ensures.ok-Ensures SoundCourse (idle app) v
