-- ===== src/Application/Options.antt =====
-- The options of the program in src/orwell/Application.cpp: what the command line gives, and the
-- defaults. What boost::program_options makes of the arguments is a record of its own.
use server_game.Base.{ℕ, ◌^◌, Bool, true, false, Option, none, some, List, ltb, if◌then◌else◌, ◌||◌}
use server_game.Base.Int.{ℤ, pos, sub_ℕ}
use server_game.Base.Text.{Text, str}
use server_game.Base.StdMap.{Map}
use server_game.Game.Types.{Ruleset, Landmark}

-- Application_CommandLineParameters
pub record Options : Type 0 where
  pub puller_port : Option ℕ
  pub publisher_port : Option ℕ
  pub agent_port : Option ℕ
  pub replier_port : Option ℕ
  pub rc_file_path : Option Text
  pub game_file_path : Option Text
  pub tick_interval : Option ℤ
  pub game_duration : Option ℤ
  pub dry_run : Option Bool
  pub broadcast : Option Bool
  pub broadcast_port : Option ℕ

-- Application::Parameters::Robot and Item
pub record RobotEntry : Type 0 where
  pub name : Text
  pub team : Text

pub record ItemEntry : Type 0 where
  pub name : Text
  pub type : Text
  pub rfids : List Text
  pub colour : ℤ

-- Application::Parameters; a set is the list of its elements in order.
pub record Parameters : Type 0 where
  pub options : Options
  pub video_ports : List ℕ
  pub robots : Map Text RobotEntry
  pub items : Map Text ItemEntry
  pub teams : List Text
  pub rules : Ruleset
  pub map_limits : List Landmark

-- The variables that the parser stored: their values, and whether a flag is there.
pub record Variables : Type 0 where
  pub help : Bool
  pub version : Bool
  pub publisher_port : Option ℕ
  pub puller_port : Option ℕ
  pub agent_port : Option ℕ
  pub replier_port : Option ℕ
  pub orwellrc : Option Text
  pub gamefile : Option Text
  pub tick_interval : Option ℕ
  pub game_duration : Option ℕ
  pub no_broadcast : Bool
  pub dry_run : Bool
  pub broadcast_port : Option ℕ

-- The value that is there, and otherwise the one from before.
abbrev pub or_else {ℓ} : {A : Type ℓ} → Option A → Option A → Option A
or_else none old = old
or_else (some a) old = some a

abbrev pub map_option {ℓ κ} : {A : Type ℓ} {B : Type κ} → (A → B) → Option A → Option B
map_option f none = none
map_option f (some a) = some (f a)

-- The conversion of an uint32_t to int32_t, in two's complement.
abbrev pub to_i32 : ℕ → ℤ
to_i32 n = if ltb n (2 ^ 31) then pos n else sub_ℕ n (2 ^ 32)

-- The two paths are kept before `help` and `version` end the program.
abbrev pub with_paths : Variables → Options → Options
with_paths v o = record o {
  rc_file_path = or_else v.orwellrc o.rc_file_path;
  game_file_path = or_else v.gamefile o.game_file_path;
}

abbrev pub with_variables : Variables → Options → Options
with_variables v o = record o {
  publisher_port = or_else v.publisher_port o.publisher_port;
  puller_port = or_else v.puller_port o.puller_port;
  agent_port = or_else v.agent_port o.agent_port;
  replier_port = or_else v.replier_port o.replier_port;
  tick_interval = or_else (map_option pos v.tick_interval) o.tick_interval;
  game_duration = or_else (map_option to_i32 v.game_duration) o.game_duration;
  dry_run = if v.dry_run then some true else o.dry_run;
  broadcast = if v.no_broadcast then some false else o.broadcast;
  broadcast_port = or_else v.broadcast_port o.broadcast_port;
}

-- ParseParametersFromCommandLine; there are no variables where the parser threw.
unfoldable pub parse_command_line : Option Variables → Parameters → Parameters × Bool
parse_command_line none p = (p, false)
parse_command_line (some v) p =
    let q : Parameters = record p { options = with_paths v p.options } in
    if v.help || v.version
    then (q, false)
    else (record q { options = with_variables v q.options }, true)

-- The default values of ReadParameters.
unfoldable pub with_defaults : Options → Options
with_defaults o = record o {
  publisher_port = or_else o.publisher_port (some 9000);
  puller_port = or_else o.puller_port (some 9001);
  agent_port = or_else o.agent_port (some 9003);
  replier_port = or_else o.replier_port (some 9004);
  tick_interval = or_else o.tick_interval (some (pos 500));
  game_duration = or_else o.game_duration (some (pos 300));
  broadcast = or_else o.broadcast (some true);
  dry_run = or_else o.dry_run (some false);
  broadcast_port = or_else o.broadcast_port (some 9080);
}

unfoldable pub default_rc_file : Options → Options
default_rc_file o = record o {
  rc_file_path = or_else o.rc_file_path (some (str "orwell-config.ini"));
}
