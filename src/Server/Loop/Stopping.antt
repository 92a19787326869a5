-- ===== src/Server/Loop/Stopping.antt =====
-- How the loop of the server ends.
use server_game.Base.{
  ◌≡◌, refl, sym, ap, subst, ◌∙◌, true, false, Option, some, List, [], ◌∷◌, ◌++◌, Result, ok,
  if◌then◌else◌, ◌>>=◌, not, arith,
}
use server_game.Base.Int.{◌-ℤ◌, ltb_ℤ}
use server_game.Base.Text.{Text, str}
use server_game.Game.Types.{Game}
use server_game.Game.Rules
use server_game.Callbacks.Decider.{Externals}
use server_game.Application.State.{
  Application, Broadcaster, Host, stop, stop_server, if_there, stop_broadcast, running, stopped,
}
use server_game.Proxy.Reply.{OutputMode}
use server_game.Proxy.Agent
use server_game.Proxy.Agent.{put_game}
use server_game.Proxy.Step.{Surroundings, step}
use server_game.Proxy.Step.Language.{print, call, application_stopped}
use server_game.Proxy.Step.Refined.{step_calls}
use server_game.Server.Loop.{
  Running, Turn, host_of, feed_agent_proxy, arrived, timed, tic, play, round, serve_or_tic, loop,
}

module _ (ext : Externals) (env : Surroundings) where
  round_stopped :
      (turn : Turn) (r : Running) (host : Host)
      → host_of r ≡ ok host
      → host.forced_stop ≡ true
      → round ext env turn r ≡ ok (arrived ext env turn r, true)
  unfolding round
  round_stopped turn r host e f =
      subst
        (λ h.
          (h >>= λ host.
          if host.forced_stop
          then ok (arrived ext env turn r, true)
          else serve_or_tic ext env turn (timed ext env turn host) (arrived ext env turn r))
          ≡ ok (arrived ext env turn r, true))
        (sym e) (rw f refl)

  loop_over :
      (turns : List Turn) (r : Running) (host : Host)
      → host_of r ≡ ok host
      → host.main_loop_running ≡ false
      → loop ext env false turns r ≡ ok r
  unfolding loop
  loop_over [] r host e g = refl
  loop_over (turn ∷ turns) r host e g = rw (e, g) refl

  -- A server that was told to stop takes no message any more.
  stopped_loop :
      (turn : Turn) (turns : List Turn) (r : Running) (host : Host)
      → host_of r ≡ ok host
      → host.forced_stop ≡ true
      → host.main_loop_running ≡ false
      → loop ext env true (turn ∷ turns) r ≡ ok (arrived ext env turn r)
  unfolding loop
  stopped_loop turn turns r host e f g =
      ap (λ o. o >>= λ x. loop ext env (not x.1) turns x.0) (round_stopped turn r host e f)
      ∙ loop_over turns (arrived ext env turn r) host e g

  stop_text :
      (app : Application)
      → step env OutputMode.text (str "stop application") app ≡ ok ((stop app).0, true, str "OK")
  unfolding print call Agent.stop_application server_game.Proxy.Stream.Words.spaced
  stop_text app = step_calls env application_stopped app tt

  -- A broadcast server that was told to stop.
  abbrev silenced : Broadcaster → Broadcaster
  silenced b = record b { main_loop_running = false; forced_stop = true }

  -- The application once a tic has served the command.
  abbrev pub told_to_stop : Turn → Host → Running → Running
  told_to_stop turn host r = record (arrived ext env turn r) {
    application = record r.application {
      state = stopped;
      server = some (stop_server (timed ext env turn host));
      broadcast_server = if_there silenced r.application.broadcast_server;
    };
    agent_replies = r.agent_replies ++ str "OK" ∷ [];
    previous_tic = turn.now;
  }

  stop_running :
      (app : Application) (host : Host)
      → app.state ≡ running
      → (stop (put_game host.game app host)).0 ≡ record app {
        state = stopped;
        server = some (stop_server host);
        broadcast_server = if_there silenced app.broadcast_server;
      }
  unfolding stop_broadcast stop
  stop_running app host e = rw (stop, e) refl

  feed_stops :
      (command : Option Text) (r : Running) (app : Application)
      → command ≡ some (str "stop application")
      → (stop r.application).0 ≡ app
      → feed_agent_proxy ext env command r
        ≡ ok (record r { application = app; agent_replies = r.agent_replies ++ str "OK" ∷ [] })
  unfolding feed_agent_proxy
  feed_stops command r app c e =
      ap (λ o. feed_agent_proxy ext env o r) c
      ∙ ap
          (λ o. o >>= λ x.
            ok (record r { application = x.0; agent_replies = r.agent_replies ++ x.2 ∷ [] }))
          (stop_text r.application)
      ∙ ap
          (λ x. ok (record r { application = x; agent_replies = r.agent_replies ++ str "OK" ∷ [] }))
          e

  no_game : (g : Game) → (Rules.stop g).is_running ≡ false
  unfolding Rules.stop
  no_game g = ground arith

  play_stopped :
      (host : Host) (r : Running) → host.game.is_running ≡ false → play ext env host r ≡ ok r
  unfolding play
  play_stopped host r e = rw (play, e) refl

  abbrev ticked : Turn → Running → Result Running
  ticked turn r = ok (record r { previous_tic = turn.now })

  after_feed :
      (turn : Turn) (r : Running) (host : Host)
      → host_of r ≡ ok host
      → host.game.is_running ≡ false
      → (host_of r >>= λ h. play ext env h r >>= ticked turn) ≡ ticked turn r
  after_feed turn r host e f =
      ap (λ o. o >>= λ h. play ext env h r >>= ticked turn) e
      ∙ ap (λ o. o >>= ticked turn) (play_stopped host r f)

  tic_stops :
      (turn : Turn) (r : Running) (host : Host)
      → r.application.state ≡ running
      → turn.command ≡ some (str "stop application")
      → tic ext env turn (record (arrived ext env turn r) {
        application =
            put_game (timed ext env turn host).game r.application (timed ext env turn host);
      })
        ≡ ok (told_to_stop turn host r)
  unfolding tic stop_server
  tic_stops turn r host e c =
      ap (λ o. o >>= λ r'. host_of r' >>= λ h. play ext env h r' >>= ticked turn)
        (feed_stops turn.command _ _ c (stop_running r.application (timed ext env turn host) e))
      ∙ after_feed turn _ (stop_server (timed ext env turn host)) refl
          (no_game (Rules.set_time turn.now host.game))

  round_stops :
      (turn : Turn) (r : Running) (host : Host)
      → host_of r ≡ ok host
      → host.forced_stop ≡ false
      → r.application.state ≡ running
      → turn.command ≡ some (str "stop application")
      → ltb_ℤ (turn.now -ℤ r.previous_tic) r.tic_duration ≡ false
      → round ext env turn r ≡ ok (told_to_stop turn host r, false)
  unfolding round serve_or_tic
  round_stops turn r host h f e c late =
      ap
        (λ o. o >>= λ x.
          if x.forced_stop
          then ok (arrived ext env turn r, true)
          else serve_or_tic ext env turn (timed ext env turn x) (arrived ext env turn r))
        h
      ∙ ap
          (λ b.
            if b
            then ok (arrived ext env turn r, true)
            else serve_or_tic ext env turn (timed ext env turn host) (arrived ext env turn r))
          f
      ∙ rw (serve_or_tic, late) (rw (tic_stops turn r host e c) refl)

  -- The agent's `stop application`, served in a tic of a running application, ends Server::loop:
  -- the game is stopped, the application and its broadcast server are too, the reply is OK, and
  -- whatever turns come after the next, no message is taken from a socket.
  pub stop_ends_loop :
      (turn next : Turn) (turns : List Turn) (r : Running) (host : Host)
      → host_of r ≡ ok host
      → host.forced_stop ≡ false
      → r.application.state ≡ running
      → turn.command ≡ some (str "stop application")
      → ltb_ℤ (turn.now -ℤ r.previous_tic) r.tic_duration ≡ false
      → loop ext env true (turn ∷ next ∷ turns) r
        ≡ ok (arrived ext env next (told_to_stop turn host r))
  unfolding loop stop_server
  stop_ends_loop turn next turns r host h f e c late =
      ap (λ o. o >>= λ x. loop ext env (not x.1) (next ∷ turns) x.0)
        (round_stops turn r host h f e c late)
      ∙ stopped_loop next turns (told_to_stop turn host r) (stop_server (timed ext env turn host))
          refl refl refl
