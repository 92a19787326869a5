-- ===== src/Tests.antt =====
-- A small game for the examples: two teams, a robot of the red one and a flag. The modules below
-- apply the theorems to it.
pub mod Capturing
pub mod Joining
pub mod Playing
pub mod Talking
pub mod Serving
pub mod Commanding
pub mod Configuring
pub mod Discovering
pub mod Launching
use server_game.Base.{ℕ, Bool, true, false, Option, none, some, List, [], ◌∷◌}
use server_game.Base.Int.{pos}
use server_game.Base.Text.{Text, str}
use server_game.Game.Types.{
  Game, Team, Robot, Item, Contact, Registry, Ruleset, Kind, pending, started, FlagDetector, inside,
  frontier,
}

abbrev pub red : Text
red = str "red"

abbrev pub blue : Text
blue = str "blue"

abbrev pub gipsy : Text
gipsy = str "gipsy"

abbrev pub robot_0 : Text
robot_0 = str "robot_0"

abbrev pub small_rules : Ruleset
small_rules = record {
  game_name = [];
  score_to_win = 10;
  points_on_capture = 6;
  time_to_capture = pos 5;
}

abbrev pub red_team : Team
red_team = record { name = red; score = 4; robots = 0 ∷ []; is_neutral_team = false }

abbrev pub blue_team : Team
blue_team = record { name = blue; score = 9; robots = []; is_neutral_team = false }

abbrev pub a_robot : Robot
a_robot = record {
  name = gipsy;
  robot_id = robot_0;
  team = 0;
  video_url = str "nc:here:80";
  video_retransmission_port = 9001;
  server_command_port = 9002;
  has_real_robot = true;
  player = none;
}

abbrev pub flag : Item
flag = record {
  kind = Kind.colour;
  name = str "A";
  tags = [];
  colour_code = pos 2;
  owning_team = [];
  capturing_team = [];
  capture_state = pending;
  time_to_capture = pos 5;
  points_on_capture = 6;
}

abbrev pub flags : Registry
flags = record { items_by_rfid = []; items_by_colour = (pos 2, 0) ∷ []; all_items = flag ∷ [] }

abbrev pub a_detector : FlagDetector
a_detector = record { colour_code = pos 1; state = frontier; robot = 0; last_item = none }

abbrev pub a_game : Game
a_game = record {
  is_running = true;
  robots = (gipsy, 0) ∷ [];
  robots_by_id = (robot_0, 0) ∷ [];
  players = [];
  teams = (blue, 1) ∷ (red, 0) ∷ [];
  registered_robots = [];
  time = pos 5_000_000;
  start_time = pos 0;
  game_duration = pos 20_000_000;
  contacts = [];
  winner = none;
  rules = small_rules;
  map_limits = [];
  flag_detectors_by_robot = (robot_0, a_detector) ∷ [];
  all_robots = a_robot ∷ [];
  all_players = [];
  all_teams = red_team ∷ blue_team ∷ [];
  items = flags;
}

abbrev pub a_contact : Contact
a_contact = record { robot = 0; item = 0; stop_time = pos 7; finished = false }

abbrev pub touching : Game
touching = record a_game { contacts = (robot_0, a_contact) ∷ [] }

-- The game once the robot has touched the flag.
abbrev pub touched_game : Game
touched_game = record a_game {
  contacts =
      (robot_0, record { robot = 0; item = 0; stop_time = pos 5_000_005; finished = false }) ∷ [];
  items = record flags {
    all_items = record flag { capturing_team = red; capture_state = started } ∷ [];
  };
}

abbrev pub entered_detector : FlagDetector
entered_detector = record a_detector { state = inside; last_item = some 0; colour_code = pos 2 }
