-- ===== src/Game/Sound.antt =====
-- The invariant of class Game: its maps of robots, players and teams are in order, and each entry
-- leads to an object of its key.
pub mod Unchanged
pub mod Course
pub mod Added
pub mod Operations
pub mod Detected
use server_game.Base.{ℕ, List}
use server_game.Base.Text.{Text, text_key}
use server_game.Base.StdMap.{Map}
use server_game.Base.StdMap.Order.{IsSorted}
use server_game.Base.Pointers.{Named}
use server_game.Game.Types.{Game, Robot, Player, Team}

abbrev pub robot_name : Robot → Text
robot_name r = r.name

abbrev pub robot_id : Robot → Text
robot_id r = r.robot_id

abbrev pub player_name : Player → Text
player_name p = p.name

abbrev pub team_name : Team → Text
team_name t = t.name

pub record IsSound (game : Game) : Type 0 where
  pub robots_sorted : IsSorted game.robots
  pub ids_sorted : IsSorted game.robots_by_id
  pub players_sorted : IsSorted game.players
  pub teams_sorted : IsSorted game.teams
  pub robots_named : Named robot_name game.robots game.all_robots
  pub ids_named : Named robot_id game.robots_by_id game.all_robots
  pub players_named : Named player_name game.players game.all_players
  pub teams_named : Named team_name game.teams game.all_teams
