-- ===== src/Callbacks/Decider.antt =====
-- src/orwell/callbacks/ProcessDecider.cpp: the handler for a message that has come. What protobuf
-- makes of a payload, the cast of a text to a port, the order of addresses and the time are its
-- parameters.
use server_game.Base.{ℕ, Option, List, Result, ok, if◌then◌else◌}
use server_game.Base.Key.{◌==◌}
use server_game.Base.Text.{Text, str, text_key}
use server_game.Game.Types.{Time}
use server_game.Com.RawMessage.{RawMessage}
use server_game.Callbacks.Messages.{
  Channel, Timing, Hello, Register, Input, ServerRobotState, World,
}
use server_game.Callbacks.Pings.{ping, pong, input}
use server_game.Callbacks.Players.{register, hello}
use server_game.Callbacks.Reports.{robot_state}

-- ParsePartialFromString for each class of messages, and the casts.
pub record Externals : Type 0 where
  pub parse_hello : Text → Hello
  pub parse_input : Text → Input
  pub parse_robot_state : Text → ServerRobotState
  pub parse_ping : Text → List Timing
  pub parse_pong : Text → List Timing
  pub parse_register : Text → Register
  pub lexical_cast : Text → Option ℕ
  pub by_address : List ℕ → List ℕ

-- ProcessDecider::process, at a local time, that is also given in milliseconds.
unfoldable pub process : Externals → Time → ℕ → RawMessage → Channel → World → Result World
process ext now milliseconds m channel w =
    if m.type == str "Hello"
    then hello ext.lexical_cast channel m.routing_id (ext.parse_hello m.payload) now w
    else if m.type == str "Input"
    then input m.routing_id (ext.parse_input m.payload) w
    else if m.type == str "ServerRobotState"
    then robot_state ext.by_address m.routing_id (ext.parse_robot_state m.payload) w
    else if m.type == str "Ping"
    then ok (ping m.routing_id milliseconds (ext.parse_ping m.payload) w)
    else if m.type == str "Pong"
    then ok (pong m.routing_id milliseconds (ext.parse_pong m.payload) w)
    else if m.type == str "Register"
    then register channel m.routing_id (ext.parse_register m.payload) w
    else ok w
