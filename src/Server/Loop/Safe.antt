-- ===== src/Server/Loop/Safe.antt =====
-- Whatever the turns bring, the game of the server stays sound.
use server_game.Base.{
  ℕ, refl, Bool, true, false, Option, none, some, List, [], ◌∷◌, ok, not, or_fault, dangling, ◌>>=◌,
}
use server_game.Base.Ensures
use server_game.Base.Ensures.{Ensures}
use server_game.Base.Int.{◌-ℤ◌, ltb_ℤ}
use server_game.Base.Text.{Text}
use server_game.Com.RawMessage.{RawMessage}
use server_game.Game.Types.{Time}
use server_game.Game.Rules
use server_game.Game.Sound.{IsSound}
use server_game.Game.Sound.Operations.{perform, perform-IsSound, stepped, time_set}
use server_game.Callbacks.Encode.{timer}
use server_game.Callbacks.Messages.{Channel, publish, reply, World}
use server_game.Callbacks.Decider.{Externals, process}
use server_game.Callbacks.Kept.Sound.{SoundWorld, process-Sound}
use server_game.Application.State.{Host}
use server_game.Proxy.Reply.{OutputMode}
use server_game.Proxy.Agent.{put_game}
use server_game.Proxy.Step.{Surroundings, step}
use server_game.Proxy.Safe.Kept.{SoundServer, HasSoundGame}
use server_game.Proxy.Safe.Stepped.{step-HasSoundGame}
use server_game.Server.{
  Server, serve, receive_and_process, any_of, process_message_if_available, channel_list,
}
use server_game.Server.Loop.{
  Running, Turn, host_of, feed_agent_proxy, take_message, play, tic, arrived, timed, serve_or_tic,
  round, loop, main_loop,
}

module _ (ext : Externals) where
  module _ (now : Time) (milliseconds : ℕ) where
    abbrev Served : Server × Bool → Type 0
    Served r = SoundWorld r.0.world

    serve-Sound :
        (ms : List RawMessage) (c : Channel) (w : World)
        → SoundWorld w
        → Ensures (λ r. SoundWorld r.0) (serve ext now milliseconds ms c w)
    unfolding serve
    serve-Sound [] c w v = Ensures.ok-Ensures (λ r. SoundWorld r.0) _ v
    serve-Sound (m ∷ rest) c w v =
        Ensures.bind-Ensures (λ r. SoundWorld r.0) (process ext now milliseconds m c w) _
          (λ w' e.
            Ensures.ok-Ensures (λ r. SoundWorld r.0) _
              (process-Sound ext now milliseconds m c w v w' e))

    receive-Sound :
        (c : Channel) (s : Server)
        → SoundWorld s.world
        → Ensures Served (receive_and_process ext now milliseconds c s)
    unfolding receive_and_process
    receive-Sound publish s v =
        Ensures.bind-Ensures Served (serve ext now milliseconds s.pulled publish s.world) _
          (λ r e. Ensures.ok-Ensures Served _ (serve-Sound s.pulled publish s.world v r e))
    receive-Sound reply s v =
        Ensures.bind-Ensures Served (serve ext now milliseconds s.asked reply s.world) _
          (λ r e. Ensures.ok-Ensures Served _ (serve-Sound s.asked reply s.world v r e))

    any_of-Sound :
        (cs : List Channel) (s : Server)
        → SoundWorld s.world
        → Ensures Served (any_of ext now milliseconds cs s)
    unfolding any_of
    any_of-Sound [] s v = Ensures.ok-Ensures Served _ v
    any_of-Sound (c ∷ cs) s v =
        Ensures.bind-Ensures Served (receive_and_process ext now milliseconds c s) _ (λ r e.
          ended r.1 r.0 (any_of-Sound cs r.0 (receive-Sound c s v r e)) (receive-Sound c s v r e))
      where
        ended :
            (b : Bool) (s' : Server)
            → Ensures Served (any_of ext now milliseconds cs s')
            → SoundWorld s'.world
            → Ensures Served
                (elim b [ true ↦ ok (s', true) | false ↦ any_of ext now milliseconds cs s' ])
        ended true s' h w = Ensures.ok-Ensures Served (s', true) w
        ended false s' h w = h

    process_message-Sound :
        (s : Server)
        → SoundWorld s.world
        → Ensures Served (process_message_if_available ext now milliseconds s)
    unfolding process_message_if_available
    process_message-Sound s v =
        Ensures.bind-Ensures Served (any_of ext now milliseconds (channel_list s.channels) s) _
          (λ r e. Ensures.ok-Ensures Served _ (any_of-Sound (channel_list s.channels) s v r e))

  module _ (env : Surroundings) where
    -- The server of the application that runs, if it is there, has a sound game.
    abbrev pub SoundRun : Running → Type 0
    SoundRun r = HasSoundGame r.application

    abbrev SoundRound : Running × Bool → Type 0
    SoundRound o = SoundRun o.0

    host-Sound : (r : Running) → SoundRun r → Ensures (λ host. IsSound host.game) (host_of r)
    host-Sound r v = seen r.application.server v
      where
        seen :
            (s : Option Host)
            → SoundServer s
            → Ensures (λ (host : Host). IsSound host.game) (or_fault dangling s)
        seen none v = Ensures.err-Ensures (λ (host : Host). IsSound host.game) dangling
        seen (some host) v = Ensures.ok-Ensures (λ (host : Host). IsSound host.game) host v

    feed-Sound :
        (command : Option Text) (r : Running)
        → SoundRun r
        → Ensures SoundRun (feed_agent_proxy ext env command r)
    unfolding feed_agent_proxy
    feed-Sound none r v = Ensures.ok-Ensures SoundRun r v
    feed-Sound (some command) r v =
        Ensures.bind-Ensures SoundRun (step env OutputMode.text command r.application) _ (λ o e.
          Ensures.ok-Ensures SoundRun _
            (step-HasSoundGame env OutputMode.text command r.application o.0 o.1 o.2 e v))

    take_message-Sound :
        (turn : Turn) (host : Host) (r : Running)
        → IsSound host.game
        → Ensures SoundRound (take_message ext env turn host r)
    unfolding take_message
    take_message-Sound turn host r v =
        Ensures.bind-Ensures SoundRound
          (process_message_if_available ext turn.now turn.milliseconds _) _
          (λ s e.
            Ensures.ok-Ensures SoundRound _
              (process_message-Sound turn.now turn.milliseconds _ v s e))

    play-Sound :
        (host : Host) (r : Running)
        → IsSound host.game
        → SoundRun r
        → Ensures SoundRun (play ext env host r)
    unfolding play timer perform
    play-Sound host r v w =
        Ensures.if-Ensures SoundRun host.game.is_running _ _
          (Ensures.bind-Ensures SoundRun (Rules.step host.game) _
            (λ g e. Ensures.ok-Ensures SoundRun _ (perform-IsSound stepped host.game g e v)))
          (Ensures.ok-Ensures SoundRun r w)

    tic-Sound : (turn : Turn) (r : Running) → SoundRun r → Ensures SoundRun (tic ext env turn r)
    unfolding tic
    tic-Sound turn r v =
        Ensures.bind-Ensures SoundRun (feed_agent_proxy ext env turn.command r) _ (λ r' e.
          let fed = feed-Sound turn.command r v r' e in
          Ensures.bind-Ensures SoundRun (host_of r') _ (λ host f.
            Ensures.bind-Ensures SoundRun (play ext env host r') _ (λ r'' g.
              Ensures.ok-Ensures SoundRun _
                (play-Sound host r' (host-Sound r' fed host f) fed r'' g))))

    timed-Sound :
        (turn : Turn) (host : Host) → IsSound host.game → IsSound (timed ext env turn host).game
    unfolding perform
    timed-Sound turn host v = perform-IsSound (time_set turn.now) host.game _ refl v

    round-Sound :
        (turn : Turn) (r : Running) → SoundRun r → Ensures SoundRound (round ext env turn r)
    unfolding round serve_or_tic
    round-Sound turn r v = Ensures.bind-Ensures SoundRound (host_of r) _ (λ host e.
        let now_sound = timed-Sound turn host (host-Sound r v host e) in
        Ensures.if-Ensures SoundRound host.forced_stop _ _
          (Ensures.ok-Ensures SoundRound (arrived ext env turn r, true) v)
          (branches host now_sound (ltb_ℤ (turn.now -ℤ r.previous_tic) r.tic_duration)))
      where
        branches :
            (host : Host)
            → IsSound (timed ext env turn host).game
            → (b : Bool)
            → Ensures SoundRound (elim b [
              | true ↦ take_message ext env turn (timed ext env turn host) (arrived ext env turn r)
              | false ↦
                  tic ext env turn (record (arrived ext env turn r) {
                    application =
                        put_game
                          (timed ext env turn host).game
                          r.application
                          (timed ext env turn host);
                  })
                  >>= λ r'. ok (r', false)
            ])
        branches host w true =
            take_message-Sound turn (timed ext env turn host) (arrived ext env turn r) w
        branches host w false =
            Ensures.bind-Ensures SoundRound (tic ext env turn _) _
              (λ r' e. Ensures.ok-Ensures SoundRound (r', false) (tic-Sound turn _ w r' e))

    loop-Sound :
        (inside : Bool) (turns : List Turn) (r : Running)
        → SoundRun r
        → Ensures SoundRun (loop ext env inside turns r)
    unfolding loop
    loop-Sound inside [] r v = Ensures.ok-Ensures SoundRun r v
    loop-Sound true (turn ∷ turns) r v =
        Ensures.bind-Ensures SoundRun (round ext env turn r) _
          (λ o e. loop-Sound (not o.1) turns o.0 (round-Sound turn r v o e))
    loop-Sound false (turn ∷ turns) r v =
        Ensures.bind-Ensures SoundRun (host_of r) _
          (λ host _. entered host.main_loop_running (λ b r'. loop-Sound b turns r'))
      where
        entered :
            (b : Bool)
            → ((b : Bool) (r' : Running) → SoundRun r' → Ensures SoundRun (loop ext env b turns r'))
            → Ensures SoundRun (elim b [
              | false ↦ ok r
              | true ↦ feed_agent_proxy ext env turn.entry_command r >>= λ r'.
                  round ext env turn r' >>= λ o. loop ext env (not o.1) turns o.0
            ])
        entered false later = Ensures.ok-Ensures SoundRun r v
        entered true later =
            Ensures.bind-Ensures SoundRun (feed_agent_proxy ext env turn.entry_command r) _ (λ r' e.
              Ensures.bind-Ensures SoundRun (round ext env turn r') _ (λ o f.
                later (not o.1) o.0
                  (round-Sound turn r' (feed-Sound turn.entry_command r v r' e) o f)))

    pub main_loop-Sound :
        (turns : List Turn) (r : Running)
        → SoundRun r
        → Ensures SoundRun (main_loop ext env turns r)
    unfolding main_loop
    main_loop-Sound turns r v =
        Ensures.bind-Ensures SoundRun (host_of r) _
          (λ host e. loop-Sound false turns _ (host-Sound r v host e))
