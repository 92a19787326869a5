-- ===== src/Tests/Joining.antt =====
-- Examples for the players and the robots of the game.
use server_game.Base.{
  ℕ, ◌≡◌, ◌≢◌, refl, true, false, none, some, [], ◌∷◌, ok, get_elem?, arith, List,
}
use server_game.Base.Int.{pos}
use server_game.Base.Text.{Text, str, compare_text, text_key}
use server_game.Base.Decimal.{to_string}
use server_game.Base.StdMap.{find, put, erase, insert}
use server_game.Game.Types.{Game, Robot, Team}
use server_game.Game.Team
use server_game.Game.Roster.{
  entries, get_new_robot_id, get_robot_without_real_robot, remove_robot, add_robot, add_player,
  make_robot, make_player, enter_robot, Entry, make_detector,
}
use server_game.Game.Roster.NewId.{IsFirstFree, get_new_robot_id_total}
use server_game.Base.Pointers.{Named-put}
use server_game.Application.State.{Application, Host, running}
use server_game.Proxy.Agent.{unregister_robot}
use server_game.Proxy.Unregistered.{unregistered_shared}
use server_game.Callbacks.Players.Registered.{told}
use server_game.Game.Team.{deref}
use server_game.Game.Roster.{set_video_url, set_has_real_robot}
use server_game.Callbacks.Messages.{Answered, Body, World, publish, reply_message}
use server_game.Callbacks.Players.{register}
use server_game.Callbacks.Decider.{process}
use server_game.Callbacks.Kept.Apart.{IsApart}
use server_game.Callbacks.Kept.Heard.{Heard, hear, registered-IsApart}
use server_game.Tests.Serving.{externals}
use server_game.Game.Roster.Membership.{add_robot_found, add_robot_shadowed}
use server_game.Game.Rules
use server_game.Game.Sound.{IsSound, robot_name, robot_id}
use server_game.Game.Sound.Operations.{
  Operation, team_added, robot_added, robot_removed, player_added, run, perform, run-IsSound,
}
use server_game.Tests.{a_game, a_robot, flags, red, robot_0, gipsy, small_rules}

get_new_robot_id_total_example :
    (k : ℕ) × IsFirstFree (entries a_game.robots a_game.all_robots) 0 k (get_new_robot_id a_game)
unfolding entries
get_new_robot_id_total_example = get_new_robot_id_total a_game (omega arith)

-- The robot without a real robot in it.
abbrev waiting : Game
waiting = record a_game { all_robots = record a_robot { has_real_robot = false } ∷ [] }

abbrev registered_game : Game
registered_game = record waiting { registered_robots = (str "tmp", gipsy) ∷ [] }

abbrev a_game_entries : List Entry
a_game_entries = record { key = gipsy; pointer = 0; robot = a_robot } ∷ []

add_robot_found_example :
    (after : Game) × (add_robot (str "striker") red 9003 9004 (str "robot_7") a_game
      ≡ ok (after, true))
    × (find (str "striker") after.robots ≡ some 1)
    × (find (str "robot_7") after.robots_by_id ≡ some 1)
    × (find (str "robot_7") after.flag_detectors_by_robot ≡ some (make_detector 1))
    × (get_elem? after.all_robots 1 ≡ some (make_robot (str "striker") (str "robot_7") 0 9003 9004))
    × ((n : Text) → n ≢ str "striker" → find n after.robots ≡ find n a_game.robots)
    × ((n : Text) → n ≢ str "robot_7" → find n after.robots_by_id ≡ find n a_game.robots_by_id)
unfolding find compare_text
add_robot_found_example =
    add_robot_found (str "striker") red (str "robot_7") (str "robot_7") 9003 9004 0 a_game refl refl
      refl refl refl

-- The robot is gone from the map by name alone.
abbrev after_removal : Game
after_removal = record a_game { robots = [] }

add_robot_shadowed_example :
    (after : Game) × (add_robot (str "striker") red 9003 9004 [] after_removal ≡ ok (after, true))
    × (find (str "striker") after.robots ≡ some 1)
    × (get_elem? after.all_robots 1 ≡ some (make_robot (str "striker") robot_0 0 9003 9004))
    × (find robot_0 after.robots_by_id ≡ some 0)
    × ◌≢◌ {A = ℕ} 0 1
unfolding find compare_text get_new_robot_id to_string
add_robot_shadowed_example =
    add_robot_shadowed (str "striker") red [] robot_0 9003 9004 0 after_removal refl refl refl 0
      refl (omega arith)

abbrev operations : List Operation
operations =
    team_added red
    ∷ robot_added gipsy red 9001 9002 []
    ∷ player_added (str "ann")
    ∷ robot_removed gipsy
    ∷ []

abbrev outcome : Game
outcome = record (Rules.make (pos 0) (pos 9) small_rules flags) {
  robots_by_id = (robot_0, 0) ∷ [];
  players = (str "ann", 0) ∷ [];
  teams = (red, 0) ∷ [];
  flag_detectors_by_robot = (robot_0, make_detector 0) ∷ [];
  all_robots = make_robot gipsy robot_0 0 9001 9002 ∷ [];
  all_players = make_player (str "ann") ∷ [];
  all_teams = record (Team.make red) { robots = 0 ∷ [] } ∷ [];
}

run-IsSound_example : IsSound outcome
unfolding run perform add_robot find compare_text enter_robot put insert Team.add_team
    get_new_robot_id remove_robot add_player Team.add_robot erase to_string
run-IsSound_example = run-IsSound (pos 0) (pos 9) small_rules flags operations outcome refl

abbrev unreal_game : Game
unreal_game = record {
  is_running = false;
  robots = (gipsy, 0) ∷ [];
  robots_by_id = (robot_0, 0) ∷ [];
  players = [];
  teams = (red, 0) ∷ [];
  registered_robots = [];
  time = pos 0;
  start_time = pos 0;
  game_duration = pos 9;
  contacts = [];
  winner = none;
  rules = small_rules;
  map_limits = [];
  flag_detectors_by_robot = (robot_0, make_detector 0) ∷ [];
  all_robots = make_robot gipsy robot_0 0 9001 9002 ∷ [];
  all_players = [];
  all_teams = record (Team.make red) { robots = 0 ∷ [] } ∷ [];
  items = flags;
}

unreal_game-IsSound : IsSound unreal_game
unfolding run perform add_robot find compare_text enter_robot put insert Team.add_team
    get_new_robot_id Team.add_robot to_string
unreal_game-IsSound =
    run-IsSound (pos 0) (pos 9) small_rules flags
      (team_added red ∷ robot_added gipsy red 9001 9002 [] ∷ []) unreal_game refl

abbrev unheard : World
unheard = record { game = unreal_game; published = []; replied = [] }

-- A message under whose decoder a real robot registers.
abbrev registrations : List Heard
registrations =
    record {
      now = pos 1;
      milliseconds = 0;
      message = record { routing_id = str "a"; type = str "Register"; payload = [] };
      channel = publish;
    }
    ∷ []

abbrev heard_world : World
heard_world = record {
  game = record unreal_game {
    registered_robots = (str "tmp", gipsy) ∷ [];
    all_robots =
        record (make_robot gipsy robot_0 0 9001 9002) {
          has_real_robot = true;
          video_url = str "first";
        }
        ∷ [];
  };
  published = record { routing_id = str "a"; body = Body.registered (some red) robot_0 } ∷ [];
  replied = [];
}

registered-IsApart_example : IsApart heard_world.game
unfolding hear process compare_text register get_robot_without_real_robot find put deref
    set_video_url set_has_real_robot reply_message entries
registered-IsApart_example =
    registered-IsApart externals registrations unheard heard_world refl unreal_game-IsSound refl

abbrev heard_robot : Robot
heard_robot = record (make_robot gipsy robot_0 0 9001 9002) {
  has_real_robot = true;
  video_url = str "first";
}

abbrev the_team : Team
the_team = record (Team.make red) { robots = 0 ∷ [] }

heard_game-IsSound : IsSound heard_world.game
unfolding find put compare_text
heard_game-IsSound = record {
  robots_sorted = unreal_game-IsSound.robots_sorted;
  ids_sorted = unreal_game-IsSound.ids_sorted;
  players_sorted = tt;
  teams_sorted = unreal_game-IsSound.teams_sorted;
  robots_named = Named-put robot_name [] [] heard_robot (λ n a e. cc);
  ids_named = Named-put robot_id [] [] heard_robot (λ n a e. cc);
  players_named = unreal_game-IsSound.players_named;
  teams_named = unreal_game-IsSound.teams_named;
}

abbrev heard_host : Host
heard_host = record { game = heard_world.game; main_loop_running = true; forced_stop = false }

abbrev heard_application : Application
heard_application = record {
  state = running;
  server = some heard_host;
  broadcast_server = none;
  available_ports = [];
  taken_ports = [];
}

unregistered_shared_example :
    (after : Application) × (host : Host) × (one two : World) × (unregister_robot gipsy
        heard_application
      ≡ ok after)
    × (after.server ≡ some host)
    × (register publish
          (str "b")
          (record { temporary_robot_id = str "other"; video_url = str "second" })
          (record heard_world { game = host.game })
        ≡ ok one)
    × Answered publish (told (str "b") heard_robot the_team) heard_world one
    × (register publish
          (str "a")
          (record { temporary_robot_id = str "tmp"; video_url = str "third" })
          one
        ≡ ok two)
    × Answered publish (told (str "a") heard_robot the_team) one two
unfolding find compare_text set_has_real_robot entries deref
unregistered_shared_example =
    unregistered_shared (str "tmp") (str "other") gipsy heard_application heard_host 0 heard_robot
      the_team
      (record { key = gipsy; pointer = 0; robot = record heard_robot { has_real_robot = false } })
      heard_world publish publish (str "b") (str "a") (str "second") (str "third") refl
      heard_game-IsSound refl refl refl refl refl refl refl
