-- ===== src/Proxy/Describe.antt =====
-- What the agent reads of one object: getAsString of Robot.cpp, Player.cpp, Item.cpp and Game.cpp,
-- and the Simple classes of src/orwell/proxy with their to_json.
use server_game.Base.{
  ℕ, Bool, true, false, Option, none, some, List, [], ◌∷◌, ◌++◌, get_elem?, any, Result, ok,
  dangling, or_fault, if◌then◌else◌, ◌||◌, ◌>>=◌,
}
use server_game.Base.Key.{◌==◌, nat_key}
use server_game.Base.Text.{Text, str, text_key}
use server_game.Base.Decimal.{to_string, signed_text}
use server_game.Base.StdMap.{Map, put}
use server_game.Game.Types.{Robot, Player, Item, Team, Game, total_seconds}
use server_game.Game.Team
use server_game.Game.Roster
use server_game.Game.Rules
use server_game.Proxy.Reply.{
  Json, flag, number, signed, string, array, object, Fields, end, field, json_array,
}

-- `std::to_string` on a bool.
abbrev pub bool_text : Bool → Text
bool_text true = str "1"
bool_text false = str "0"

-- Whether a team that its map still has holds the robot.
abbrev pub in_team : ℕ → Game → Text × ℕ → Bool
in_team robot game e = elim (get_elem? game.all_teams e.1) [
  | none ↦ false
  | some t ↦ any (λ r. r == robot) t.robots
]

-- Whether a pointer keeps the robot alive: one of the maps of the robots, of the contacts or of the
-- flag detectors, or the list of a team.
unfoldable pub robot_is_alive : ℕ → Game → Bool
robot_is_alive robot game =
    any (λ e. e.1 == robot) game.robots
    || any (λ e. e.1 == robot) game.robots_by_id
    || any (λ e. e.1.robot == robot) game.contacts
    || any (λ e. e.1.robot == robot) game.flag_detectors_by_robot
    || any (in_team robot game) game.teams

-- Player::getRobot
unfoldable pub get_robot : Player → Game → Option Robot
unfolding robot_is_alive
get_robot player game = elim player.robot [
  | none ↦ none
  | some r ↦ if robot_is_alive r game then get_elem? game.all_robots r else none
]

-- The name of the player or robot that a weak pointer leads to.
abbrev pub player_name : Option Player → Text
player_name none = []
player_name (some p) = p.name

abbrev pub robot_name : Option Robot → Text
robot_name none = []
robot_name (some r) = r.name

unfoldable pub robot_as_string : Robot → Game → Text
robot_as_string robot game =
    str "Robot name = "
    ++ robot.name
    ++ str " ; "
    ++ (if robot.has_real_robot then [] else str "not ")
    ++ str "registered ; video_url = "
    ++ robot.video_url
    ++ str " ; player = "
    ++ player_name (Roster.get_player robot game)

unfoldable pub player_as_string : Player → Game → Text
player_as_string player game =
    str "Player name = "
    ++ player.name
    ++ str " ; address = "
    ++ player.address
    ++ str " ; robot = "
    ++ robot_name (get_robot player game)

-- A space before each.
abbrev pub spaced : List Text → Text
spaced [] = []
spaced (t ∷ ts) = b' ' ∷ t ++ spaced ts

unfoldable pub item_as_string : Item → Text
item_as_string item =
    str "Item name = "
    ++ item.name
    ++ str " ; RFID ="
    ++ spaced item.tags
    ++ str " ; colour = "
    ++ signed_text item.colour_code
    ++ str " ; team = "
    ++ item.owning_team

unfoldable pub game_as_string : Game → Text
game_as_string game =
    str "Game time = "
    ++ to_string (Rules.get_seconds_left game)
    ++ str " ; running = "
    ++ bool_text game.is_running
    ++ str " ; duration = "
    ++ signed_text (total_seconds game.game_duration)

-- Team::getRobots
unfoldable pub robot_names : List ℕ → Game → Result (List Text)
robot_names [] game = ok []
robot_names (r ∷ rs) game = do
  robot ← or_fault dangling (get_elem? game.all_robots r)
  names ← robot_names rs game
  ok (robot.name ∷ names)

-- The fields of a json object are a map.
abbrev pub sorted_fields : List (Text × Json) → Map Text Json
sorted_fields [] = []
sorted_fields ((k, j) ∷ rest) = put k j (sorted_fields rest)

abbrev pub fields_of : Map Text Json → Fields
fields_of [] = end
fields_of ((k, j) ∷ rest) = field k j (fields_of rest)

abbrev pub json_object : List (Text × Json) → Json
json_object entries = object (fields_of (sorted_fields entries))

abbrev pub strings : List Text → List Json
strings [] = []
strings (t ∷ ts) = string t ∷ strings ts

unfoldable pub item_to_json : Item → Json
item_to_json item = json_object (
    (str "name", string item.name)
    ∷ (str "RFID", array (json_array (strings item.tags)))
    ∷ (str "colour", signed item.colour_code)
    ∷ (str "team", string item.owning_team)
    ∷ [])

unfoldable pub player_to_json : Player → Game → Json
player_to_json player game = json_object (
    (str "name", string player.name)
    ∷ (str "address", string player.address)
    ∷ (str "robot", string (robot_name (get_robot player game)))
    ∷ [])

unfoldable pub robot_to_json : Robot → Game → Result Json
robot_to_json robot game = do
  team ← Team.deref robot.team game
  ok (
      json_object (
        (str "id", string robot.robot_id)
        ∷ (str "name", string robot.name)
        ∷ (str "player", string (player_name (Roster.get_player robot game)))
        ∷ (str "registered", flag robot.has_real_robot)
        ∷ (str "team", string team.name)
        ∷ (str "video_url", string robot.video_url)
        ∷ []))

unfoldable pub team_to_json : Team → Game → Result Json
team_to_json team game = do
  names ← robot_names team.robots game
  ok (
      json_object (
        (str "name", string team.name)
        ∷ (str "score", number team.score)
        ∷ (str "robots", array (json_array (strings names)))
        ∷ []))
