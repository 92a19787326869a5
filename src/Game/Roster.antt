-- ===== src/Game/Roster.antt =====
-- The players and the robots of the game: src/orwell/game/Player.cpp, Robot.cpp and the part of
-- Game.cpp that adds, removes and looks them up.
pub mod NewId
pub mod Available
pub mod Membership
use server_game.Base.{
  ℕ, zero, suc, ◌+◌, ◌%◌, ◌^◌, Bool, true, false, Option, none, some, List, [], ◌∷◌, ◌++◌,
  get_elem?, modify, length, any, Result, ok, err, out_of_range, dangling, endless, or_fault,
  if◌then◌else◌, ◌&&◌, not, ◌>>=◌,
}
use server_game.Base.Int.{pos}
use server_game.Base.Key.{◌==◌, nat_key}
use server_game.Base.Text.{Text, str, text_key}
use server_game.Base.Decimal.{to_string}
use server_game.Base.StdMap.{Map, find, put, insert, erase}
use server_game.Game.Types.{Robot, Player, Game, FlagDetector, outside}
use server_game.Game.Team
use server_game.Game.Item.{is_empty}

-- Player::Player
abbrev pub make_player : Text → Player
make_player name = record { name = name; robot = none; address = [] }

-- Robot::Robot
abbrev pub make_robot : Text → Text → ℕ → ℕ → ℕ → Robot
make_robot name id team video_port command_port = record {
  name = name;
  robot_id = id;
  team = team;
  video_url = [];
  video_retransmission_port = video_port;
  server_command_port = command_port;
  has_real_robot = false;
  player = none;
}

-- `not m_player.expired()`: the map of the players is what keeps a player alive.
unfoldable pub get_has_player : Robot → Game → Bool
get_has_player robot game = elim robot.player [
  | none ↦ false
  | some player ↦ any (λ e. e.1 == player) game.players
]

-- Robot::getPlayer
unfoldable pub get_player : Robot → Game → Option Player
unfolding get_has_player
get_player robot game = elim robot.player [
  | none ↦ none
  | some player ↦ if get_has_player robot game then get_elem? game.all_players player else none
]

unfoldable pub get_is_available : Robot → Game → Bool
unfolding get_has_player
get_is_available robot game = robot.has_real_robot && not (get_has_player robot game)

abbrev pub change_robot : ℕ → (Robot → Robot) → Game → Game
change_robot robot f game = record game { all_robots = modify game.all_robots robot f }

abbrev pub change_player : ℕ → (Player → Player) → Game → Game
change_player player f game = record game { all_players = modify game.all_players player f }

unfoldable pub set_has_real_robot : Bool → Robot → Robot
set_has_real_robot real robot = record robot { has_real_robot = real }

unfoldable pub set_player : ℕ → Robot → Robot
set_player player robot = record robot { player = some player }

unfoldable pub set_video_url : Text → Robot → Robot
set_video_url url robot = record robot { video_url = url }

unfoldable pub set_robot : ℕ → Player → Player
set_robot robot player = record player { robot = some robot }

unfoldable pub set_address : Text → Player → Player
set_address address player = record player { address = address }

-- The accessors throw on a missing key.
unfoldable pub access_robot : Text → Game → Result ℕ
access_robot name game = or_fault out_of_range (find name game.robots)

unfoldable pub access_robot_by_id : Text → Game → Result ℕ
access_robot_by_id id game = or_fault out_of_range (find id game.robots_by_id)

unfoldable pub get_has_robot_by_id : Text → Game → Bool
get_has_robot_by_id id game = elim (find id game.robots_by_id) [ none ↦ false | some robot ↦ true ]

unfoldable pub access_player : Text → Game → Result ℕ
access_player name game = or_fault out_of_range (find name game.players)

unfoldable pub add_player : Text → Game → Game × Bool
add_player name game = elim (find name game.players) [
  | some player ↦ (game, true)
  | none ↦ (
    record game {
      players = insert name (length game.all_players) game.players;
      all_players = game.all_players ++ make_player name ∷ [];
    },
    true,
  )
]

unfoldable pub remove_player : Text → Game → Game × Bool
remove_player name game = elim (find name game.players) [
  | none ↦ (game, false)
  | some player ↦ (record game { players = erase name game.players }, true)
]

-- One entry of the map of the robots: the name, the pointer and the robot behind it.
pub record Entry : Type 0 where
  pub key : Text
  pub pointer : ℕ
  pub robot : Robot

-- A walk over the map of the robots, in the order of their names.
unfoldable pub entries : Map Text ℕ → List Robot → List Entry
entries [] all = []
entries ((name, robot) ∷ rest) all = elim (get_elem? all robot) [
  | none ↦ entries rest all
  | some r ↦ record { key = name; pointer = robot; robot = r } ∷ entries rest all
]

abbrev pub robot_prefix : Text
robot_prefix = str "robot_"

abbrev pub id_of : ℕ → Text
id_of index = robot_prefix ++ to_string index

abbrev pub is_taken : Text → List Entry → Bool
is_taken id = any (λ e. e.robot.robot_id == id)

-- The loop over the index, a uint32_t.
unfoldable pub search_id : ℕ → ℕ → List Entry → Result Text
search_id zero index robots = err endless
search_id (suc fuel) index robots =
    let next = search_id fuel ((index + 1) % 2 ^ 32) robots in
    if is_taken (id_of index) robots then next else ok (id_of index)

-- One round more than there are robots.
unfoldable pub get_new_robot_id : Game → Result Text
unfolding search_id entries
get_new_robot_id game =
    let robots = entries game.robots game.all_robots in search_id (suc (length robots)) 0 robots

-- FlagDetector::FlagDetector
abbrev pub make_detector : ℕ → FlagDetector
make_detector robot = record {
  colour_code = pos 1;
  state = outside;
  robot = robot;
  last_item = none;
}

-- What `addRobot` does once it has an id and a team: the robot enters its team and three maps.
unfoldable pub enter_robot : Text → ℕ → ℕ → ℕ → Text → Game → Game
unfolding Team.add_robot
enter_robot name team video_port command_port id game = record game {
  all_robots = game.all_robots ++ make_robot name id team video_port command_port ∷ [];
  all_teams = modify game.all_teams team (Team.add_robot robot);
  robots = insert name robot game.robots;
  robots_by_id = insert id robot game.robots_by_id;
  flag_detectors_by_robot = insert id (make_detector robot) game.flag_detectors_by_robot;
}
  where
    robot : ℕ
    robot = length game.all_robots

unfoldable pub add_robot : Text → Text → ℕ → ℕ → Text → Game → Result (Game × Bool)
add_robot name team video_port command_port id game = elim (find name game.robots) [
  | some robot ↦ ok (game, false)
  | none ↦ (if is_empty id then get_new_robot_id game else ok id) >>= λ id'.
      elim (find team game.teams) [
        | none ↦ ok (game, false)
        | some t ↦ ok (enter_robot name t video_port command_port id' game, true)
      ]
]

-- The map by id, the registrations and the flag detectors keep what they hold of the robot.
unfoldable pub remove_robot : Text → Game → Game × Bool
remove_robot name game = elim (find name game.robots) [
  | none ↦ (game, false)
  | some robot ↦ (record game { robots = erase name game.robots }, true)
]

-- The first entry that passes a test.
abbrev pub first : (Entry → Bool) → List Entry → Option Entry
first p [] = none
first p (e ∷ es) = elim (p e) [ true ↦ some e | false ↦ first p es ]

unfoldable pub get_available_robot : Game → Option ℕ
unfolding entries get_is_available
get_available_robot game =
    elim (first (λ e. get_is_available e.robot game) (entries game.robots game.all_robots)) [
      | none ↦ none
      | some e ↦ some e.pointer
    ]

-- A robot that asks again under its temporary id gets the robot that it had.
unfoldable pub get_robot_without_real_robot : Text → Game → Result (Game × Option ℕ)
unfolding entries
get_robot_without_real_robot temporary_id game = elim (find temporary_id game.registered_robots) [
  | some name ↦ or_fault out_of_range (find name game.robots) >>= λ robot. ok (game, some robot)
  | none ↦ elim (first (λ e. not e.robot.has_real_robot) (entries game.robots game.all_robots)) [
    | none ↦ ok (game, none)
    | some e ↦ ok (
      record game { registered_robots = put temporary_id e.key game.registered_robots },
      some e.pointer,
    )
  ]
]

abbrev pub belongs_to : Text → Game → Entry → Bool
belongs_to name game e = elim (get_player e.robot game) [ none ↦ false | some p ↦ p.name == name ]

-- The loop does not stop at the first robot of the player: the last one is taken.
abbrev pub last : (Entry → Bool) → List Entry → Option ℕ → Option ℕ
last p [] found = found
last p (e ∷ es) found = last p es (if p e then some e.pointer else found)

unfoldable pub get_robot_for_player : Text → Game → Option ℕ
unfolding entries get_player get_available_robot
get_robot_for_player name game =
    elim (last (belongs_to name game) (entries game.robots game.all_robots) none) [
      | some robot ↦ some robot
      | none ↦ get_available_robot game
    ]
