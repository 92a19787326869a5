-- ===== src/Application/Launch.antt =====
-- Application::initServer and initBroadcastServer in
-- src/orwell/Application.cpp.
pub mod Safe
pub mod Ports
use server_game.Base.{
  ℕ, ◌%◌, ◌^◌, ◌*◌, Bool, false, Option, none, some, List, [], ◌∷◌, ◌++◌, Result, ok, dangling,
  or_fault, if◌then◌else◌, ◌>>=◌,
}
use server_game.Base.Int.{ℤ, pos}
use server_game.Base.Text.{Text, str}
use server_game.Base.Decimal.{to_string}
use server_game.Base.StdMap.{Map}
use server_game.Game.Types.{Game, Registry, Ruleset, Time, microseconds}
use server_game.Game.Team
use server_game.Game.Roster
use server_game.Game.Rules
use server_game.Game.Rules.{to_u64}
use server_game.Game.Item.{create_item}
use server_game.Broadcast.{Urls}
use server_game.Application.State.{Application, Host, pop_port}
use server_game.Application.Options.{Parameters, RobotEntry, ItemEntry}

-- The loop over the teams.
unfoldable pub enter_teams : List Text → Game → Game
enter_teams [] game = game
enter_teams (name ∷ rest) game = enter_teams rest (Team.add_team name game).0

-- The loop over the robots: each is given two ports, of which the compiler chooses the video port,
-- and its key in the map as its id.
unfoldable pub enter_robots :
    Bool → Map Text RobotEntry → Application → Game → Result (Application × Game)
enter_robots video_first [] app game = ok (app, game)
enter_robots video_first ((id, robot) ∷ rest) app game =
    let (app', first) = pop_port app in
    let (app'', second) = pop_port app' in
    let video : ℕ = if video_first then first else second in
    let command : ℕ = if video_first then second else first in
    Roster.add_robot robot.name robot.team video command id game >>= λ r.
    enter_robots video_first rest app'' r.0

-- The loop over the items. The log reads each new item, so that an item that is refused ends it.
unfoldable pub enter_items : Map Text ItemEntry → Ruleset → Registry → Result Registry
enter_items [] rules reg = ok reg
enter_items ((key, item) ∷ rest) rules reg =
    let (reg', made) = create_item item.type item.name item.rfids item.colour rules reg in
    or_fault dangling made >>= λ place. enter_items rest rules reg'

-- The seconds of a game, an int32_t that is passed as an uint32_t.
abbrev pub to_u32 : ℤ → ℕ
to_u32 n = to_u64 n % 2 ^ 32

-- `not_a_date_time`, which stands in a game before it is started, and the registry of all items,
-- which is static.
module _ (video_first : Bool) (not_a_date_time : Time) (items : Registry) where
  -- The server's game once it is made, before anything enters it.
  abbrev pub new_game : Parameters → ℤ → Game
  new_game p duration =
      Rules.make not_a_date_time (pos (to_u32 duration * microseconds)) p.rules items

  -- Application::initServer; the ports of the options make its urls.
  unfoldable pub init_server : Parameters → Application → Result Application
  unfolding enter_teams enter_robots enter_items
  init_server p app = do
    agent ← or_fault dangling p.options.agent_port
    publisher ← or_fault dangling p.options.publisher_port
    puller ← or_fault dangling p.options.puller_port
    replier ← or_fault dangling p.options.replier_port
    tick ← or_fault dangling p.options.tick_interval
    duration ← or_fault dangling p.options.game_duration
    let with_ports : Application = record app { available_ports = p.video_ports }
    (app', game) ←
        enter_robots video_first p.robots with_ports (enter_teams p.teams (new_game p duration))
    items' ← enter_items p.items p.rules game.items
    let game' = Rules.set_map_limits p.map_limits (record game { items = items' })
    let host : Host = record { game = game'; main_loop_running = false; forced_stop = false }
    ok (record app' { server = some host })

abbrev pub tcp : ℕ → Text
tcp port = str "tcp://*:" ++ to_string port

abbrev pub is_set : Option Bool → Bool
is_set none = false
is_set (some b) = b

-- Application::initBroadcastServer
unfoldable pub init_broadcast_server : Parameters → Application → Result Application
init_broadcast_server p app =
    if is_set p.options.broadcast
    then (do
      publisher ← or_fault dangling p.options.publisher_port
      puller ← or_fault dangling p.options.puller_port
      replier ← or_fault dangling p.options.replier_port
      agent ← or_fault dangling p.options.agent_port
      port ← or_fault dangling p.options.broadcast_port
      let urls : Urls = record {
        puller_url = tcp puller;
        publisher_url = tcp publisher;
        replier_url = tcp replier;
        agent_url = tcp agent;
      }
      ok (record app {
        broadcast_server =
            some
              (record { port = port; urls = urls; main_loop_running = false; forced_stop = false });
      }))
    else ok app
