-- ===== src/Server/Loop.antt =====
-- The loops of src/orwell/Server.cpp: loopUntilOneMessageIsProcessed inside loop, with
-- feedAgentProxy. The clock and what arrives at the sockets are given turn by turn.
pub mod Stopping
pub mod Safe
use server_game.Base.{
  ℕ, Bool, true, false, Option, none, some, List, [], ◌∷◌, ◌++◌, Result, ok, if◌then◌else◌, ◌>>=◌,
  not,
}
use server_game.Base.Int.{◌-ℤ◌, ltb_ℤ}
use server_game.Base.Text.{Text}
use server_game.Game.Types.{Time, Duration}
use server_game.Game.Rules
use server_game.Com.RawMessage.{RawMessage}
use server_game.Callbacks.Messages.{World, Outgoing}
use server_game.Callbacks.Encode.{timer}
use server_game.Callbacks.Decider.{Externals}
use server_game.Application.State.{Application, Host, access_server}
use server_game.Proxy.Reply.{OutputMode}
use server_game.Proxy.Agent.{put_game}
use server_game.Proxy.Step.{Surroundings, step}
use server_game.Server.{Channels, process_message_if_available}

-- The server with the application around it and what its sockets were given.
pub record Running : Type 0 where
  pub application : Application
  pub pulled : List RawMessage
  pub asked : List RawMessage
  pub channels : Channels
  pub published : List Outgoing
  pub replied : List Outgoing
  pub agent_replies : List Text
  pub tic_duration : Duration
  pub previous_tic : Time

-- What a turn finds: the clock, the command that waits for the agent proxy, in front of the inner
-- loop and in a tic, and new messages.
pub record Turn : Type 0 where
  pub now : Time
  pub milliseconds : ℕ
  pub entry_command : Option Text
  pub command : Option Text
  pub pulled : List RawMessage
  pub asked : List RawMessage

abbrev pub host_of : Running → Result Host
host_of r = access_server r.application

module _ (ext : Externals) (env : Surroundings) where
  -- Server::feedAgentProxy
  unfoldable pub feed_agent_proxy : Option Text → Running → Result Running
  feed_agent_proxy none r = ok r
  feed_agent_proxy (some command) r = do
    (app, understood, reply) ← step env OutputMode.text command r.application
    ok (record r { application = app; agent_replies = r.agent_replies ++ reply ∷ [] })

  -- A message is taken, if one waits.
  unfoldable pub take_message : Turn → Host → Running → Result (Running × Bool)
  take_message turn host r = do
    (s, processed) ← process_message_if_available ext turn.now turn.milliseconds (record {
      world = record { game = host.game; published = r.published; replied = r.replied };
      pulled = r.pulled;
      asked = r.asked;
      channels = r.channels;
    })
    ok (
      record r {
        application = put_game s.world.game r.application host;
        pulled = s.pulled;
        asked = s.asked;
        channels = s.channels;
        published = s.world.published;
        replied = s.world.replied;
      },
      processed,
    )

  -- The game is stepped and its state published, if it runs.
  unfoldable pub play : Host → Running → Result Running
  play host r =
      if host.game.is_running
      then (Rules.step host.game >>= λ game.
          (let w : World =
              timer (record { game = game; published = r.published; replied = r.replied }) in
            ok (record r {
              application = put_game game r.application host;
              published = w.published;
              replied = w.replied;
            })))
      else ok r

  -- The branch of a tic.
  unfoldable pub tic : Turn → Running → Result Running
  unfolding feed_agent_proxy play
  tic turn r = do
    r' ← feed_agent_proxy turn.command r
    host ← host_of r'
    r'' ← play host r'
    ok (record r'' { previous_tic = turn.now })

  -- What has come since the last turn waits at the sockets.
  abbrev pub arrived : Turn → Running → Running
  arrived turn r = record r { pulled = r.pulled ++ turn.pulled; asked = r.asked ++ turn.asked }

  abbrev pub timed : Turn → Host → Host
  timed turn host = record host { game = Rules.set_time turn.now host.game }

  -- The two branches on the time since the last tic.
  unfoldable pub serve_or_tic : Turn → Host → Running → Result (Running × Bool)
  unfolding take_message tic
  serve_or_tic turn host r = elim (ltb_ℤ (turn.now -ℤ r.previous_tic) r.tic_duration) [
    | true ↦ take_message turn host r
    | false ↦ tic turn (record r { application = put_game host.game r.application host }) >>= λ r'.
        ok (r', false)
  ]

  -- One round of loopUntilOneMessageIsProcessed, and whether it was the last.
  unfoldable pub round : Turn → Running → Result (Running × Bool)
  unfolding serve_or_tic
  round turn r = host_of r >>= λ host.
      if host.forced_stop
      then ok (arrived turn r, true)
      else serve_or_tic turn (timed turn host) (arrived turn r)

  -- Server::loopUntilOneMessageIsProcessed, as long as there are turns.
  unfoldable pub until_processed : List Turn → Running → Result Running
  until_processed [] r = ok r
  until_processed (turn ∷ turns) r =
      round turn r >>= λ o. elim o.1 [ true ↦ ok o.0 | false ↦ until_processed turns o.0 ]

  -- The loop of Server::loop, inside of loopUntilOneMessageIsProcessed or in front of it, as long
  -- as there are turns.
  unfoldable pub loop : Bool → List Turn → Running → Result Running
  loop inside [] r = ok r
  loop true (turn ∷ turns) r = round turn r >>= λ o. loop (not o.1) turns o.0
  loop false (turn ∷ turns) r = host_of r >>= λ host. elim host.main_loop_running [
    | false ↦ ok r
    | true ↦ feed_agent_proxy turn.entry_command r >>= λ r'.
        round turn r' >>= λ o. loop (not o.1) turns o.0
  ]

  -- Server::loop, from its start.
  unfoldable pub main_loop : List Turn → Running → Result Running
  unfolding loop
  main_loop turns r = host_of r >>= λ host. loop false turns (record r {
    application = record r.application { server = some (record host { main_loop_running = true }) };
  })
