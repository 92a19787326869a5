-- ===== src/Proxy/Safe/Stepped.antt =====
-- Every command keeps the game sound, and a command in json mode changes nothing.
use Prim.Native.String.{String}
use server_game.Base.{◌≡◌, subst, ok, ok-injective, ℕ, Bool, [], Result, if◌then◌else◌}
use server_game.Base.Key.{◌==◌}
use server_game.Base.Text.{Text, str, text_key}
use server_game.Application.State.{Application}
use server_game.Proxy.Stream.{Stream, extract, extract_u32, read_name}
use server_game.Proxy.Reply.{OutputMode, json, text}
use server_game.Proxy.Agent
use server_game.Proxy.Step
use server_game.Proxy.Safe.Yields
use server_game.Proxy.Safe.Yields.{Yields}
use server_game.Proxy.Safe.Kept.{HasSoundGame, Held, HasSoundGame-Held}
use server_game.Proxy.Safe.Members

abbrev is : Stream → String → Bool
is s word = (extract [] s).0 == str word

abbrev behind : Stream → Stream
behind s = (extract [] s).1

module _ (P : Application → Type 0) (held : Held P) (app : Application) (v : P app) where
  other : Yields P (Step.unparsed app)
  other = Yields.unparsed-Yields P app v

  if_named :
      (b : Bool) (r s : Result Step.Outcome)
      → Yields P r
      → Yields P s
      → Yields P (if b then r else s)
  if_named = Yields.if-Yields P

  named :
      (s : Stream) (f : Text → Application → Result Application)
      → ((name : Text) → Yields.Gives P (f name app))
      → Yields P (Step.dispatch_argument s f app)
  named s f h = Yields.dispatch_argument-Yields P s f app v h

  setting :
      (s : Stream) (f : Text → Text → Text → Application → Result Application)
      → ((name property value : Text) → Yields.Gives P (f name property value app))
      → Yields P (Step.dispatch_setting s f app)
  setting s f h = Yields.dispatch_setting-Yields P s f app v h

  plain :
      (s : Stream) (f : Application → Result Application)
      → Yields.Gives P (f app)
      → Yields P (Step.dispatch s f app)
  plain s f h = Yields.dispatch-Yields P s f app v h

  module _ (env : Step.Surroundings) where
    start-Yields : (s : Stream) → Yields P (Step.start env s app)
    unfolding Step.start
    start-Yields s =
        if_named (is s "game") _ _
          (plain (behind s) (Agent.start_game env.now)
            (Members.start_game-Gives P held app v env.now))
          other

    stop-Yields : (s : Stream) → Yields P (Step.stop s app)
    unfolding Step.stop
    stop-Yields s =
        if_named (is s "application") _ _
          (plain (behind s) Agent.stop_application (Members.stop_application-Gives P held app v))
          (if_named (is s "game") _ _
            (plain (behind s) Agent.stop_game (Members.stop_game-Gives P held app v)) other)

    add-Yields : (s : Stream) → Yields P (Step.add env s app)
    unfolding Step.add
    add-Yields s =
        if_named (is s "team") _ _
          (named (behind s) Agent.add_team (Members.add_team-Gives P held app v))
          (if_named (is s "robot") _ _
            (Yields.bind-Yields P (read_name (extract [] s).1) _ (λ name.
              Yields.bind-Yields P (read_name name.1) _ (λ team.
                plain team.1 (Agent.add_robot env.video_first name.0 team.0)
                  (Members.add_robot-Gives P held app v env.video_first name.0 team.0))))
            (if_named (is s "player") _ _
              (named (behind s) Agent.add_player (Members.add_player-Gives P held app v)) other))

    remove-Yields : (s : Stream) → Yields P (Step.remove s app)
    unfolding Step.remove
    remove-Yields s =
        if_named (is s "team") _ _
          (named (behind s) Agent.remove_team (Members.remove_team-Gives P held app v))
          (if_named (is s "robot") _ _
            (named (behind s) Agent.remove_robot (Members.remove_robot-Gives P held app v))
            (if_named (is s "player") _ _
              (named (behind s) Agent.remove_player (Members.remove_player-Gives P held app v))
              other))

    register-Yields : (s : Stream) → Yields P (Step.register s app)
    unfolding Step.register
    register-Yields s =
        if_named (is s "robot") _ _
          (named (behind s) Agent.register_robot (Members.register_robot-Gives P held app v)) other

    unregister-Yields : (s : Stream) → Yields P (Step.unregister s app)
    unfolding Step.unregister
    unregister-Yields s =
        if_named (is s "robot") _ _
          (named (behind s) Agent.unregister_robot (Members.unregister_robot-Gives P held app v))
          other

    property : Stream → Text × Stream
    property s = extract [] (behind s)

    number : Stream → ℕ × Stream
    number s = extract_u32 env.unset_value (property s).1

    set-Yields : (s : Stream) → Yields P (Step.set env s app)
    unfolding Step.set number property
    set-Yields s =
        if_named (is s "game") _ _
          (plain (number s).1 (Agent.set_game (property s).0 (number s).0)
            (Members.set_game-Gives P held app v (property s).0 (number s).0))
          (if_named (is s "player") _ _
            (setting (behind s) Agent.set_player (Members.set_player-Gives P held app v))
            (if_named (is s "robot") _ _
              (setting (behind s) Agent.set_robot (Members.set_robot-Gives P held app v))
              (if_named (is s "team") _ _
                (setting (behind s) (Agent.set_team env.lexical_u32)
                  (Members.set_team-Gives P held app v env.lexical_u32))
                other)))

    perform-Yields :
        (command action : Text) (s : Stream) → Yields P (Step.perform env command action s app)
    unfolding Step.perform
    perform-Yields command action s = if_named (action == str "start") _ _ (start-Yields s) (
        if_named (action == str "stop") _ _ (stop-Yields s) (
          if_named (action == str "add") _ _ (add-Yields s) (
            if_named (action == str "remove") _ _ (remove-Yields s) (
              if_named (action == str "register") _ _ (register-Yields s) (
                if_named (action == str "unregister") _ _ (unregister-Yields s) (
                  if_named (action == str "set") _ _ (set-Yields s) (
                    if_named (action == str "ping") _ _
                      (λ o e. subst (λ x. P x.0) (ok-injective e) v)
                      (if_named (action == str "json") _ _
                        (Yields.bind-Yields P (Step.substr env 5 command) _
                          (λ rest. Yields.step_json-Yields P env rest app v))
                        other))))))))

-- What is held by the three kinds of change is held by any command, in any mode.
pub step-Held :
    (P : Application → Type 0)
    → Held P
    → (env : Step.Surroundings) (mode : OutputMode) (command : Text) (app : Application) → P app
    → Yields P (Step.step env mode command app)
unfolding Step.step
step-Held P held env json command app v = Yields.step_json-Yields P env command app v
step-Held P held env text command app v =
    Yields.step_text-Yields P env command app v (perform-Yields P held app v env command)

-- A command that AgentProxy::step returns from, whatever its text and the output mode, leaves the
-- game of the server sound: the maps of robots, players and teams in order, and each entry leading
-- to an object of its name or id.
pub step-HasSoundGame :
    (env : Step.Surroundings) (mode : OutputMode) (command : Text) (app app' : Application)
    (understood : Bool) (reply : Text)
    → Step.step env mode command app ≡ ok (app', understood, reply)
    → HasSoundGame app
    → HasSoundGame app'
step-HasSoundGame env mode command app app' understood reply e v =
    step-Held HasSoundGame HasSoundGame-Held env mode command app v (app', understood, reply) e
