-- ===== src/Tests/Launching.antt =====
-- Examples for the start of the program.
use server_game.Base.{ok, List, ◌≡◌, refl, true, false, none, some, [], ◌∷◌, ◌<◌, All, arith}
use server_game.Base.Count.{count, Distinct}
use server_game.Base.Int.{pos, ◌-ℤ◌}
use server_game.Base.Text.{str, compare_text, text_key}
use server_game.Base.StdMap.{find, put, insert}
use server_game.Game.Types.{Game, Registry}
use server_game.Game.Team
use server_game.Game.Rules
use server_game.Game.Roster
use server_game.Callbacks.Pings.{ping}
use server_game.Callbacks.Decider.{process}
use server_game.Server.{
  reply_first, next_permutation, process_message_if_available, any_of, receive_and_process, serve,
}
use server_game.Server.Loop.{
  Running, Turn, main_loop, loop, round, serve_or_tic, take_message, feed_agent_proxy,
}
use server_game.Application.State.{Application, Host, State, make, pop_port}
use server_game.Application.Options.{Parameters}
use server_game.Application.Consistency.{
  check_parameters_consistency, check_ports, insert_port, has_neighbours,
}
use server_game.Application.Compare.{same_parameters}
use server_game.Application.Compare.Blind.{same_parameters_iff}
use server_game.Application.Launch.{init_server, enter_robots, enter_teams, enter_items}
use server_game.Application.Launch.Ports.{init_server-Distinct}
use server_game.Application.Launch.Safe.{SoundCourse, run-SoundCourse}
use server_game.Application.Life.{here, next, stopped_by_signal, cleaned}
use server_game.Application.Life.Forward.{Reach-forward}
use server_game.Application.State.{stop, clean}
use server_game.Application.Run.{idle, Process, served, run, run_created, run_server, launch}
use server_game.Tests.{small_rules, gipsy, red}
use server_game.Tests.Configuring.{some_options, some_parameters}
use server_game.Tests.Commanding.{environment}
use server_game.Tests.Serving.{externals}
use server_game.Tests.Talking.{a_message, foreign_timing}

abbrev no_items : Registry
no_items = record { items_by_rfid = []; items_by_colour = []; all_items = [] }

abbrev with_robot : Parameters
with_robot = record some_parameters {
  video_ports = 9102 ∷ 9101 ∷ 9100 ∷ [];
  robots = (str "r", record { name = gipsy; team = red }) ∷ [];
  teams = red ∷ [];
}

abbrev made_game : Game
made_game = record (Rules.make (pos 0) (pos 300_000_000) small_rules no_items) {
  robots = (gipsy, 0) ∷ [];
  robots_by_id = (str "r", 0) ∷ [];
  teams = (red, 0) ∷ [];
  flag_detectors_by_robot = (str "r", Roster.make_detector 0) ∷ [];
  all_robots = Roster.make_robot gipsy (str "r") 0 9100 9101 ∷ [];
  all_teams = record (Team.make red) { robots = 0 ∷ [] } ∷ [];
}

abbrev made_host : Host
made_host = record { game = made_game; main_loop_running = false; forced_stop = false }

abbrev made_application : Application
made_application = record make {
  server = some made_host;
  available_ports = 9102 ∷ [];
  taken_ports = 9100 ∷ 9101 ∷ [];
}

init_server-Distinct_example :
    Distinct (9100 ∷ 9101 ∷ 9102 ∷ [])
    × All (λ q. 0 < count q (9102 ∷ 9101 ∷ 9100 ∷ [])) (9100 ∷ 9101 ∷ [])
unfolding init_server enter_robots enter_teams enter_items Team.add_team Roster.add_robot pop_port
    find put insert compare_text Roster.enter_robot Team.add_robot Rules.set_map_limits
    check_parameters_consistency check_ports insert_port has_neighbours
init_server-Distinct_example =
    init_server-Distinct true (pos 0) no_items with_robot make made_application made_host refl
      (ground arith) refl refl

same_parameters_iff_example :
    same_parameters with_robot
      (record with_robot { options = record some_options { replier_port = none } })
    ≡ true
same_parameters_iff_example =
    (same_parameters_iff with_robot
        (record with_robot { options = record some_options { replier_port = none } }) (tt, tt)
        (tt, tt) tt tt).1
      (record {
        puller_port = refl;
        publisher_port = refl;
        agent_port = refl;
        video_ports = refl;
        tick_interval = refl;
        rc_file_path = refl;
        game_file_path = refl;
        dry_run = refl;
        broadcast = refl;
        robots = refl;
        items = refl;
        teams = refl;
        map_limits = refl;
        broadcast_port = refl;
      })

-- A ping comes before the first tic.
abbrev a_ping_turn : Turn
a_ping_turn = record {
  now = pos 5;
  milliseconds = 3;
  entry_command = none;
  command = none;
  pulled = a_message ∷ [];
  asked = [];
}

abbrev timed_game : Game
timed_game = record made_game { time = pos 5 }

abbrev ended : Running
ended = record {
  application = record made_application {
    state = State.running;
    server = some (record { game = timed_game; main_loop_running = true; forced_stop = false });
  };
  pulled = [];
  asked = [];
  channels = reply_first;
  published =
      (ping (str "me") 3 (foreign_timing ∷ [])
        (record { game = timed_game; published = []; replied = [] })).published;
  replied = [];
  agent_replies = [];
  tic_duration = pos 500_000;
  previous_tic = pos 3;
}

run-SoundCourse_example : SoundCourse (served ended)
unfolding run run_created run_server launch main_loop loop round serve_or_tic take_message
    feed_agent_proxy process_message_if_available any_of receive_and_process serve next_permutation
    process ping init_server enter_robots enter_teams enter_items Team.add_team Roster.add_robot
    pop_port find put insert compare_text Roster.enter_robot Team.add_robot Rules.set_map_limits
    Rules.set_time ◌-ℤ◌
run-SoundCourse_example =
    run-SoundCourse externals environment (pos 0) no_items Process.father (a_ping_turn ∷ [])
      with_robot make (served ended) refl tt

abbrev halted : Application
halted = record made_application { state = State.stopped }

abbrev swept : Application
swept = record halted { server = none }

Reach-forward_example :
    (swept.state ≡ State.stopped)
    × ((process : Process) (turns : List Turn) (p : Parameters)
        → run externals environment (pos 0) no_items process turns p swept ≡ ok (idle swept))
    × (stop swept ≡ (swept, false))
unfolding stop clean
Reach-forward_example =
    (Reach-forward externals environment (pos 0) no_items halted swept
        (next (next here (stopped_by_signal halted)) (cleaned halted))).1
      refl
