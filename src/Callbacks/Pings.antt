-- ===== src/Callbacks/Pings.antt =====
-- src/orwell/callbacks/ProcessPing.cpp, ProcessPong.cpp and ProcessInput.cpp: the messages that
-- are passed on.
pub mod Elapsed
use server_game.Base.{
  ℕ, ◌+◌, ◌-◌, ◌%◌, ◌^◌, Bool, true, false, Option, none, some, List, [], ◌∷◌, ◌++◌, Result, ok,
  if◌then◌else◌, ◌>>=◌, ◌&&◌, not,
}
use server_game.Base.Key.{◌==◌}
use server_game.Base.Text.{Text, str, text_key}
use server_game.Game.Roster.{get_has_robot_by_id, access_robot_by_id}
use server_game.Callbacks.Messages.{Timing, Input, Body, Outgoing, World, publish_message}

abbrev pub this_logger : Text
this_logger = str "server_game"

-- ProcessPing::execute: one timing more, with the time of the server in milliseconds.
unfoldable pub ping : Text → ℕ → List Timing → World → World
ping id now timings w =
    publish_message
      (record {
        routing_id = id;
        body = Body.ping (
            timings
            ++ (record { logger = this_logger; timestamp = some now; elapsed = none } ∷ []));
      })
      w

-- The loop of ProcessPong::execute, which the first of the server's own timings without a time
-- ends. Times are uint64_t.
unfoldable pub stamp : ℕ → List Timing → List Timing
stamp now [] = []
stamp now (t ∷ ts) =
    let later = stamp now ts in
    if this_logger == t.logger
    then elim t.timestamp [
      | none ↦ t ∷ ts
      | some sent ↦ record t { elapsed = some ((now + (2 ^ 64 - sent % 2 ^ 64)) % 2 ^ 64) } ∷ later
    ]
    else t ∷ later

unfoldable pub pong : Text → ℕ → List Timing → World → World
unfolding stamp
pong id now timings w =
    publish_message (record { routing_id = id; body = Body.pong (stamp now timings) }) w

-- ProcessInput::execute. Robot::fire has no body.
unfoldable pub input : Text → Input → World → Result World
input id message w =
    if w.game.is_running
    then (if message.weapon1
        then (if not (get_has_robot_by_id id w.game)
            then ok w
            else access_robot_by_id id w.game >>= λ robot. ok (publish_message relayed w))
        else ok (publish_message relayed w))
    else ok w
  where
    relayed : Outgoing
    relayed = record { routing_id = id; body = Body.input message }
