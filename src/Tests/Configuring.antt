-- ===== src/Tests/Configuring.antt =====
-- Examples for the configuration of the program.
use server_game.Base.{◌≡◌, refl, true, false, none, some, [], ◌∷◌, ok, arith}
use server_game.Base.Int.{pos}
use server_game.Base.Text.{str}
use server_game.Application.Options.{Options, Parameters}
use server_game.Application.Config.{video_ports, tokenize}
use server_game.Application.Config.VideoPorts.{descending, video_ports_lem}
use server_game.Application.Config.Tokens.{separated, tokenize-separated}
use server_game.Application.Consistency.{check_parameters_consistency}
use server_game.Application.Consistency.Distinct.{check_parameters_consistency_iff}
use server_game.Tests.{small_rules}

abbrev pub some_options : Options
some_options = record {
  puller_port = some 9001;
  publisher_port = some 9000;
  agent_port = some 9003;
  replier_port = some 9004;
  rc_file_path = none;
  game_file_path = none;
  tick_interval = some (pos 500);
  game_duration = some (pos 300);
  dry_run = some false;
  broadcast = some true;
  broadcast_port = some 9080;
}

abbrev pub some_parameters : Parameters
some_parameters = record {
  options = some_options;
  video_ports = 9100 ∷ [];
  robots = [];
  items = [];
  teams = [];
  rules = small_rules;
  map_limits = [];
}

video_ports_lem_example : video_ports 9100 9102 [] ≡ ok (9102 ∷ 9101 ∷ 9100 ∷ [])
unfolding descending
video_ports_lem_example = (video_ports_lem 9100 9102 (omega arith)).0 (omega arith)

tokenize-separated_example : tokenize (str "red| blue|") ≡ str "red" ∷ str "blue" ∷ []
unfolding separated
tokenize-separated_example =
    tokenize-separated ((str "red", b'|', b' ' ∷ []) ∷ (str "blue", b'|', []) ∷ []) (
      ((refl, (refl, (refl, (refl, tt)))), refl, (refl, tt)),
      (((refl, (refl, (refl, (refl, (refl, tt))))), refl, tt), tt),
    )

check_parameters_consistency_iff_example : check_parameters_consistency some_parameters ≡ ok true
check_parameters_consistency_iff_example =
    (check_parameters_consistency_iff some_parameters 9000 9001 9003 9004 9080 refl refl refl refl
        refl).1
      (ground arith, ground arith, omega arith, tt)
