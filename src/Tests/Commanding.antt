-- ===== src/Tests/Commanding.antt =====
-- Examples for the commands of the agent and the end of the server's loop.
use server_game.Base.{
  inr, ◌≡◌, ◌⊎◌, ◌<◌, length, err, dangling, refl, ◌++◌, Bool, true, false, Option, none, some,
  List, [], ◌∷◌, Result, ok, ◌>>=◌,
}
use server_game.Base.Int.{pos}
use server_game.Base.StdMap.{find, put, insert}
use server_game.Base.Text.{Text, str, compare_text, text_key}
use server_game.Game.Types.{Game}
use server_game.Game.Rules
use server_game.Game.Roster
use server_game.Game.Team
use server_game.Game.Sound.{IsSound}
use server_game.Game.Sound.Operations.{run, perform, run-IsSound, team_added, robot_added}
use server_game.Server.{publish_first}
use server_game.Server.Loop.{Running, Turn, loop}
use server_game.Server.Loop.Stopping.{stop_ends_loop, told_to_stop}
use server_game.Application.State.{Application, Host, State}
use server_game.Proxy.Reply.{OutputMode}
use server_game.Proxy.Stream.{Stream, open_text, read_name}
use server_game.Proxy.Stream.Ends.{read_name-ends}
use server_game.Proxy.Stream.Words.{before, spaced, IsPlain}
use server_game.Proxy.Stream.Names.{name_words, read_name-before}
use server_game.Proxy.Agent
use server_game.Proxy.Agent.{put_game}
use server_game.Proxy.Step
use server_game.Proxy.Step.{Surroundings, step}
use server_game.Proxy.Step.Commands.{Name, keyword}
use server_game.Proxy.Step.Language.{print}
use server_game.Proxy.Step.Language
use server_game.Proxy.Step.ReadBack.{get-set, with_url}
use server_game.Proxy.Step.Effects.{effect}
use server_game.Proxy.Step.Refined.{step-print}
use server_game.Proxy.Safe.Kept.{HasSoundGame}
use server_game.Proxy.Safe.Stepped.{step-HasSoundGame}
use server_game.Tests.{small_rules, flags}
use server_game.Tests.Serving.{externals}

abbrev pub environment : Surroundings
environment = record {
  video_first = true;
  unset_value = 0;
  now = pos 3;
  dump = λ _. ok (str "null");
  lexical_u32 = λ _. some 4;
}

abbrev empty_game : Game
empty_game = Rules.make (pos 0) (pos 0) small_rules flags

empty_game-IsSound : IsSound empty_game
unfolding run
empty_game-IsSound = run-IsSound (pos 0) (pos 0) small_rules flags [] empty_game refl

abbrev a_host : Host
a_host = record { game = empty_game; main_loop_running = true; forced_stop = false }

abbrev an_application : Application
an_application = record {
  state = State.running;
  server = some a_host;
  broadcast_server = none;
  available_ports = 9001 ∷ 9002 ∷ [];
  taken_ports = [];
}

IsPlain-red : IsPlain (str "red")
IsPlain-red = record { head = refl; clean = ((refl, refl), ((refl, refl), ((refl, refl), tt))) }

abbrev the_red_reds : Name
the_red_reds = record { first = str "red"; others = str "red" ∷ [] }

read_name-before_example :
    read_name (before [] (str "\"red" ∷ str "red\"" ∷ str "score" ∷ []))
    ≡ ok (str "red red", before [] (str "score" ∷ []))
unfolding name_words spaced
read_name-before_example =
    read_name-before [] (str "red") (str "red" ∷ []) (str "score" ∷ []) IsPlain-red
      (IsPlain-red, tt)

-- The quote is not closed, and the text ends.
read_name-ends_example :
    ((o : Text × Stream) × (read_name (open_text (str "\"red dies")) ≡ ok o)
      × (length o.1.rest < length (str "\"red dies")))
    ⊎ (read_name (open_text (str "\"red dies")) ≡ err dangling)
read_name-ends_example = read_name-ends (open_text (str "\"red dies"))

step-print_example :
    step environment OutputMode.text (str "add team \"red red\"") an_application
    ≡ ok (
      put_game (Team.add_team (str "red red") empty_game).0 an_application a_host,
      true,
      str "OK",
    )
unfolding print effect spaced name_words
step-print_example =
    step-print environment (Language.team_added the_red_reds) an_application a_host
      (record { head = IsPlain-red; rest = (IsPlain-red, tt) }) empty_game-IsSound refl

step-HasSoundGame_example :
    HasSoundGame (put_game (Team.add_team (str "red") empty_game).0 an_application a_host)
unfolding step Step.find_action compare_text server_game.Proxy.Stream.extract Step.perform Step.add
    Step.dispatch_argument read_name Agent.add_team Step.fall_back
step-HasSoundGame_example =
    step-HasSoundGame environment OutputMode.text (str "add team red") an_application
      (put_game (Team.add_team (str "red") empty_game).0 an_application a_host) true (str "OK") refl
      empty_game-IsSound

abbrev a_running : Running
a_running = record {
  application = an_application;
  pulled = [];
  asked = [];
  channels = publish_first;
  published = [];
  replied = [];
  agent_replies = [];
  tic_duration = pos 500;
  previous_tic = pos 0;
}

abbrev a_turn : Turn
a_turn = record {
  now = pos 600;
  milliseconds = 0;
  entry_command = none;
  command = some (str "stop application");
  pulled = [];
  asked = [];
}

stop_ends_loop_example :
    loop externals environment true (a_turn ∷ a_turn ∷ a_turn ∷ []) a_running
    ≡ ok (told_to_stop externals environment a_turn a_host a_running)
unfolding server_game.Base.Int.◌-ℤ◌
stop_ends_loop_example =
    stop_ends_loop externals environment a_turn a_turn (a_turn ∷ []) a_running a_host refl refl refl
      refl refl

abbrev joined_game : Game
joined_game = record empty_game {
  teams = (str "red", 0) ∷ [];
  all_teams = record (Team.make (str "red")) { robots = 0 ∷ [] } ∷ [];
  robots = (str "gipsy", 0) ∷ [];
  robots_by_id = (str "r", 0) ∷ [];
  all_robots = Roster.make_robot (str "gipsy") (str "r") 0 1 2 ∷ [];
  flag_detectors_by_robot = (str "r", Roster.make_detector 0) ∷ [];
}

joined_game-IsSound : IsSound joined_game
unfolding run perform Roster.add_robot find Team.add_team put compare_text Roster.enter_robot insert
joined_game-IsSound =
    run-IsSound (pos 0) (pos 0) small_rules flags
      (team_added (str "red") ∷ robot_added (str "gipsy") (str "red") 1 2 (str "r") ∷ [])
      joined_game refl

abbrev joined_host : Host
joined_host = record a_host { game = joined_game }

abbrev joined_application : Application
joined_application = record an_application { server = some joined_host }

abbrev gipsy_name : Name
gipsy_name = record { first = str "gipsy"; others = [] }

IsPlain-gipsy : IsPlain (str "gipsy")
IsPlain-gipsy = record {
  head = refl;
  clean = ((refl, refl), ((refl, refl), ((refl, refl), ((refl, refl), ((refl, refl), tt)))));
}

get-set_example :
    (step environment OutputMode.text
        (str "set robot gipsy video_url nc:here:80")
        joined_application
      >>= λ o. step environment OutputMode.text (str "get robot gipsy video_url") o.0)
    ≡ ok (
      with_url (str "gipsy") (str "nc:here:80") joined_application joined_host,
      true,
      str "nc:here:80",
    )
unfolding find compare_text spaced print name_words
get-set_example =
    get-set environment gipsy_name (str "nc:here:80") joined_application joined_host 0
      (record { head = IsPlain-gipsy; rest = tt }) (keyword (str "nc:here:80") refl refl)
      joined_game-IsSound refl refl
