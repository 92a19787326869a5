-- ===== src/Callbacks/Encode.antt =====
-- src/orwell/game/ItemEncoder.cpp and src/orwell/callbacks/ProcessTimer.cpp: the items and the
-- state of the game as messages.
pub mod Snapshot
use server_game.Base.{ℕ, Option, none, some, [], ◌∷◌, map}
use server_game.Base.Text.{Text, str}
use server_game.Game.Types.{
  Item, CaptureState, pending, started, succeeded, failed, Game, total_seconds,
}
use server_game.Game.Team.{get_teams, get_team}
use server_game.Game.Rules.{get_seconds_left}
use server_game.Callbacks.Messages.{
  ItemMessage, CaptureStatus, GameState, Body, World, publish_message,
}

-- A name that is empty is not set.
abbrev pub named : Text → Option Text
named [] = none
named (c ∷ cs) = some (c ∷ cs)

abbrev pub status_of : CaptureState → Option CaptureStatus
status_of pending = none
status_of started = some CaptureStatus.started
status_of succeeded = some CaptureStatus.succeeded
status_of failed = some CaptureStatus.failed

-- The capturer is told while a capture is going on alone.
abbrev pub capturer_of : CaptureState → Text → Option Text
capturer_of started team = some team
capturer_of pending team = none
capturer_of succeeded team = none
capturer_of failed team = none

-- ItemEncoder::encode. The type, which FlagEncoder adds, is the same for every item.
unfoldable pub encode : Item → ItemMessage
encode item = record {
  name = item.name;
  owner = named item.owning_team;
  capture_status = status_of item.capture_state;
  capturer = capturer_of item.capture_state item.capturing_team;
}

abbrev pub scored : Game → Text → Text × ℕ
scored game name = (name, (get_team name game).score)

unfoldable pub state_of : Game → GameState
state_of game = record {
  playing = game.is_running;
  seconds = get_seconds_left game;
  total_seconds = total_seconds game.game_duration;
  map_limits = game.map_limits;
  teams = map (scored game) (get_teams [] game);
  items = map encode game.items.all_items;
  winner = game.winner;
}

-- ProcessTimer::execute
unfoldable pub timer : World → World
timer w =
    publish_message
      (record { routing_id = str "all_clients"; body = Body.game_state (state_of w.game) }) w
