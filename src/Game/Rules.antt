-- ===== src/Game/Rules.antt =====
-- The course of the game, in src/orwell/game/Game.cpp: start, stop, the time that is left, and
-- the end by time or by score. Robot::startVideo only writes to the log, and Robot::stop and
-- Robot::readImage have empty bodies, so the loops that call them change nothing.
pub mod Remaining
pub mod Score
pub mod Course
use server_game.Base.{
  ℕ, suc, ◌-◌, ◌%◌, ◌^◌, Bool, true, false, Option, none, some, List, [], ◌∷◌, get_elem?, modify,
  leb, Result, ok, if◌then◌else◌, not, ◌>>=◌,
}
use server_game.Base.Int.{ℤ, pos, negsuc, ◌-ℤ◌}
use server_game.Base.Text.{Text}
use server_game.Base.StdMap.{Map}
use server_game.Game.Types.{Game, Team, Ruleset, Registry, Landmark, Time, Duration, total_seconds}
use server_game.Game.Team.{reset_score}
use server_game.Game.Item.{reset_all_items}
use server_game.Game.Contact.{handle_contacts}

-- The conversion of a signed number to uint64_t.
abbrev pub to_u64 : ℤ → ℕ
to_u64 (pos n) = n % 2 ^ 64
to_u64 (negsuc n) = (2 ^ 64 - suc n % 2 ^ 64) % 2 ^ 64

-- Game::Game. A `ptime` that is not given is `not_a_date_time`; the items are static.
abbrev pub make : Time → Duration → Ruleset → Registry → Game
make not_a_date_time game_duration rules items = record {
  is_running = false;
  robots = [];
  robots_by_id = [];
  players = [];
  teams = [];
  registered_robots = [];
  time = not_a_date_time;
  start_time = not_a_date_time;
  game_duration = game_duration;
  contacts = [];
  winner = none;
  rules = rules;
  map_limits = [];
  flag_detectors_by_robot = [];
  all_robots = [];
  all_players = [];
  all_teams = [];
  items = items;
}

unfoldable pub get_seconds_left : Game → ℕ
get_seconds_left game =
    if game.is_running
    then to_u64 (total_seconds game.game_duration -ℤ total_seconds (game.time -ℤ game.start_time))
    else to_u64 (total_seconds game.game_duration)

unfoldable pub set_duration : Duration → Game → Game
set_duration duration game = record game { game_duration = duration }

unfoldable pub set_time : Time → Game → Game
set_time current_time game = record game { time = current_time }

unfoldable pub set_map_limits : List Landmark → Game → Game
set_map_limits limits game = record game { map_limits = limits }

unfoldable pub stop : Game → Game
stop game =
    if game.is_running
    then record game { is_running = false; items = reset_all_items game.items }
    else game

-- The loop over the map of the teams.
unfoldable pub reset_scores : Map Text ℕ → List Team → List Team
reset_scores [] all = all
reset_scores ((name, team) ∷ rest) all = reset_scores rest (modify all team reset_score)

-- The clock is read where no start is forced.
unfoldable pub begin : Option Time → Time → Game → Game
begin forced_start_time local_time game =
    if game.is_running
    then game
    else (let now : Time = elim forced_start_time [ some t ↦ t | none ↦ local_time ] in
        record game { start_time = now; time = now; is_running = true })

unfoldable pub start : Bool → Option Time → Time → Game → Game
unfolding stop begin
start force_stop forced_start_time local_time game = begin forced_start_time local_time (
    if force_stop
    then stop (record game { winner = none; all_teams = reset_scores game.teams game.all_teams })
    else game)

-- The names of the teams whose score suffices, in the order of the map.
unfoldable pub winning_teams : ℕ → Map Text ℕ → List Team → List Text
winning_teams score_to_win [] all = []
winning_teams score_to_win ((name, team) ∷ rest) all = elim (get_elem? all team) [
  | none ↦ winning_teams score_to_win rest all
  | some t ↦
      let others = winning_teams score_to_win rest all in
      if leb score_to_win t.score then t.name ∷ others else others
]

-- The branches on the number of the winning teams.
unfoldable pub judge : List Text → Game → Game
judge [] game = game
judge (name ∷ []) game = stop (record game { winner = some name })
judge (name ∷ other ∷ more) game = stop game

unfoldable pub stop_if_game_is_finished : Game → Game
stop_if_game_is_finished game =
    if leb (get_seconds_left game) 0
    then stop game
    else judge (winning_teams game.rules.score_to_win game.teams game.all_teams) game

unfoldable pub step : Game → Result Game
step game = do game' ← handle_contacts game; ok (stop_if_game_is_finished game')
