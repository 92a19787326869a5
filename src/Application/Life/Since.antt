-- ===== src/Application/Life/Since.antt =====
-- How far the application is in its life cycle, and that neither the agent nor a turn takes it
-- back.
use server_game.Base.{
  ℕ, ◌≤◌, Bool, true, false, Option, none, some, List, [], ◌∷◌, Result, ok, not, ◌>>=◌, arith,
}
use server_game.Base.Ensures
use server_game.Base.Ensures.{Ensures}
use server_game.Base.Int.{◌-ℤ◌, ltb_ℤ}
use server_game.Base.Text.{Text}
use server_game.Game.Types.{Game}
use server_game.Game.Rules
use server_game.Callbacks.Decider.{Externals}
use server_game.Proxy.Reply.{OutputMode}
use server_game.Proxy.Agent
use server_game.Proxy.Agent.{put_game}
use server_game.Proxy.Step
use server_game.Proxy.Step.{Surroundings}
use server_game.Proxy.Safe.Yields.{Gives}
use server_game.Proxy.Safe.Kept.{Held}
use server_game.Proxy.Safe.Stepped.{step-Held}
use server_game.Server.{process_message_if_available}
use server_game.Server.Loop.{
  Running, Turn, host_of, feed_agent_proxy, take_message, play, tic, arrived, timed, serve_or_tic,
  round, loop, main_loop, until_processed,
}
use server_game.Application.State.{
  State, created, running, stopped, Application, Host, access_server, stop, pop_port,
}
use server_game.Application.Run.{loop_until_one_message_is_processed}

abbrev pub rank : State → ℕ
rank created = 0
rank running = 1
rank stopped = 2

module _ (k : ℕ) where
  -- The application is as far as `k` at least.
  abbrev pub Since : Application → Type 0
  Since app = k ≤ rank app.state

  changed :
      (f : Game → Result Game) (app : Application) → Since app → Gives Since (Agent.with_game f app)
  unfolding Agent.with_game
  changed f app v =
      Ensures.bind-Ensures Since (access_server app) _
        (λ host _. Ensures.bind-Ensures Since (f host.game) _ (λ g _. Ensures.ok-Ensures Since _ v))

  pub stop-Since : (app : Application) → Since app → Since (stop app).0
  unfolding stop
  stop-Since app v = ground arith

  pub pop_port-Since : (app : Application) → Since app → Since (pop_port app).0
  unfolding pop_port
  pop_port-Since app v = ground arith

  pub Since-Held : Held Since
  Since-Held = record {
    game_changed = λ f app _ v. changed f app v;
    stopped = stop-Since;
    port_popped = pop_port-Since;
  }

  module _ (ext : Externals) (env : Surroundings) where
    abbrev pub SinceRun : Running → Type 0
    SinceRun r = Since r.application

    abbrev SinceRound : Running × Bool → Type 0
    SinceRound o = Since o.0.application

    feed-Since :
        (command : Option Text) (r : Running)
        → SinceRun r
        → Ensures SinceRun (feed_agent_proxy ext env command r)
    unfolding feed_agent_proxy
    feed-Since none r v = Ensures.ok-Ensures SinceRun r v
    feed-Since (some command) r v =
        Ensures.bind-Ensures SinceRun (Step.step env OutputMode.text command r.application) _
          (λ o e.
            Ensures.ok-Ensures SinceRun _
              (step-Held Since Since-Held env OutputMode.text command r.application v o e))

    take_message-Since :
        (turn : Turn) (host : Host) (r : Running)
        → SinceRun r
        → Ensures SinceRound (take_message ext env turn host r)
    unfolding take_message
    take_message-Since turn host r v =
        Ensures.bind-Ensures SinceRound
          (process_message_if_available ext turn.now turn.milliseconds _) _
          (λ s _. Ensures.ok-Ensures SinceRound _ v)

    play-Since : (host : Host) (r : Running) → SinceRun r → Ensures SinceRun (play ext env host r)
    unfolding play
    play-Since host r v =
        Ensures.if-Ensures SinceRun host.game.is_running _ _
          (Ensures.bind-Ensures SinceRun (Rules.step host.game) _
            (λ g _. Ensures.ok-Ensures SinceRun _ v))
          (Ensures.ok-Ensures SinceRun r v)

    tic-Since : (turn : Turn) (r : Running) → SinceRun r → Ensures SinceRun (tic ext env turn r)
    unfolding tic
    tic-Since turn r v =
        Ensures.bind-Ensures SinceRun (feed_agent_proxy ext env turn.command r) _ (λ r' e.
          Ensures.bind-Ensures SinceRun (host_of r') _ (λ host _.
            Ensures.bind-Ensures SinceRun (play ext env host r') _ (λ r'' g.
              Ensures.ok-Ensures SinceRun _
                (play-Since host r' (feed-Since turn.command r v r' e) r'' g))))

    round-Since :
        (turn : Turn) (r : Running) → SinceRun r → Ensures SinceRound (round ext env turn r)
    unfolding round serve_or_tic
    round-Since turn r v = Ensures.bind-Ensures SinceRound (host_of r) _ (λ host _.
        Ensures.if-Ensures SinceRound host.forced_stop _ _
          (Ensures.ok-Ensures SinceRound (arrived ext env turn r, true) v)
          (branches host (ltb_ℤ (turn.now -ℤ r.previous_tic) r.tic_duration)))
      where
        branches :
            (host : Host) (b : Bool)
            → Ensures SinceRound (elim b [
              | true ↦ take_message ext env turn (timed ext env turn host) (arrived ext env turn r)
              | false ↦
                  tic ext env turn (record (arrived ext env turn r) {
                    application =
                        put_game
                          (timed ext env turn host).game
                          r.application
                          (timed ext env turn host);
                  })
                  >>= λ r'. ok (r', false)
            ])
        branches host true = take_message-Since turn _ (arrived ext env turn r) v
        branches host false =
            Ensures.bind-Ensures SinceRound (tic ext env turn _) _
              (λ r' e. Ensures.ok-Ensures SinceRound (r', false) (tic-Since turn _ v r' e))

    loop-Since :
        (inside : Bool) (turns : List Turn) (r : Running)
        → SinceRun r
        → Ensures SinceRun (loop ext env inside turns r)
    unfolding loop
    loop-Since inside [] r v = Ensures.ok-Ensures SinceRun r v
    loop-Since true (turn ∷ turns) r v =
        Ensures.bind-Ensures SinceRun (round ext env turn r) _
          (λ o e. loop-Since (not o.1) turns o.0 (round-Since turn r v o e))
    loop-Since false (turn ∷ turns) r v =
        Ensures.bind-Ensures SinceRun (host_of r) _
          (λ host _. entered host.main_loop_running (λ b r'. loop-Since b turns r'))
      where
        entered :
            (b : Bool)
            → ((b : Bool) (r' : Running) → SinceRun r' → Ensures SinceRun (loop ext env b turns r'))
            → Ensures SinceRun (elim b [
              | false ↦ ok r
              | true ↦ feed_agent_proxy ext env turn.entry_command r >>= λ r'.
                  round ext env turn r' >>= λ o. loop ext env (not o.1) turns o.0
            ])
        entered false later = Ensures.ok-Ensures SinceRun r v
        entered true later =
            Ensures.bind-Ensures SinceRun (feed_agent_proxy ext env turn.entry_command r) _ (λ r' e.
              Ensures.bind-Ensures SinceRun (round ext env turn r') _ (λ o f.
                later (not o.1) o.0
                  (round-Since turn r' (feed-Since turn.entry_command r v r' e) o f)))

    pub main_loop-Since :
        (turns : List Turn) (r : Running)
        → SinceRun r
        → Ensures SinceRun (main_loop ext env turns r)
    unfolding main_loop
    main_loop-Since turns r v =
        Ensures.bind-Ensures SinceRun (host_of r) _ (λ host _. loop-Since false turns _ v)

    until_processed-Since :
        (turns : List Turn) (r : Running)
        → SinceRun r
        → Ensures SinceRun (until_processed ext env turns r)
    unfolding until_processed
    until_processed-Since [] r v = Ensures.ok-Ensures SinceRun r v
    until_processed-Since (turn ∷ turns) r v =
        Ensures.bind-Ensures SinceRun (round ext env turn r) _ (λ o e.
          over o.1 o.0 (round-Since turn r v o e)
            (until_processed-Since turns o.0 (round-Since turn r v o e)))
      where
        over :
            (b : Bool) (r' : Running)
            → SinceRun r'
            → Ensures SinceRun (until_processed ext env turns r')
            → Ensures SinceRun (elim b [ true ↦ ok r' | false ↦ until_processed ext env turns r' ])
        over true r' w h = Ensures.ok-Ensures SinceRun r' w
        over false r' w h = h

    pub one_message-Since :
        (turns : List Turn) (r : Running)
        → SinceRun r
        → Ensures SinceRun (loop_until_one_message_is_processed ext env turns r)
    unfolding loop_until_one_message_is_processed
    one_message-Since turns r v = in_state r.application.state
      where
        in_state :
            (s : State)
            → Ensures SinceRun (elim s [
              | created ↦ ok r
              | running ↦ until_processed ext env turns r
              | stopped ↦ ok r
            ])
        in_state created = Ensures.ok-Ensures SinceRun r v
        in_state running = until_processed-Since turns r v
        in_state stopped = Ensures.ok-Ensures SinceRun r v
