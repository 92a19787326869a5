-- ===== src/Application/GameConfig.antt =====
-- ParseGameConfigFromFile in src/orwell/Application.cpp with Ruleset::parseConfig and the
-- ParseConfig of Landmark, Coordinates and RGBColour, and ReadParameters, which puts the sources of
-- the parameters together.
use server_game.Base.{
  ℕ, ◌*◌, ◌%◌, ◌^◌, Option, none, some, List, [], ◌∷◌, ◌++◌, Result, ok, Ordering, if◌then◌else◌,
  ◌>>=◌,
}
use server_game.Base.Int.{pos}
use server_game.Base.Text.{Text, str, text_key, compare_text}
use server_game.Base.StdMap.{Map, put}
use server_game.Game.Types.{Ruleset, Landmark, Coordinates, RgbColour}
use server_game.Game.Item.{is_empty}
use server_game.Application.Options.{Parameters, RobotEntry, ItemEntry, or_else, map_option, to_i32}
use server_game.Application.Config.{Tree, get, tokenize}

-- `std::set::insert`
unfoldable pub insert_name : Text → List Text → List Text
insert_name n [] = n ∷ []
insert_name n (m ∷ ms) = elim (compare_text n m) [
  | Ordering.lt ↦ n ∷ m ∷ ms
  | Ordering.eq ↦ m ∷ ms
  | Ordering.gt ↦ m ∷ insert_name n ms
]

abbrev pub or_zero : Option ℕ → ℕ
or_zero none = 0
or_zero (some n) = n

abbrev pub tokens_at : Tree → Text → List Text
tokens_at t path = elim (t.text_at path) [ none ↦ [] | some s ↦ tokenize s ]

module _ (t : Tree) where
  -- Ruleset::parseConfig, with the capture time in milliseconds.
  unfoldable pub parse_ruleset : Text → Result Ruleset
  parse_ruleset name = do
    game_name ← get (t.text_at (name ++ str ".game_name"))
    ok (record {
      game_name = game_name;
      score_to_win = or_zero (t.u32_at (name ++ str ".score_to_win"));
      points_on_capture = or_zero (t.u32_at (name ++ str ".points_on_capture"));
      time_to_capture = pos (or_zero (t.u32_at (name ++ str ".time_to_capture")) * 1000);
    })

  -- Coordinates::ParseConfig
  unfoldable pub parse_coordinates : Text → Result Coordinates
  parse_coordinates name = do
    x ← get (t.u64_at (name ++ str ".x"))
    y ← get (t.u64_at (name ++ str ".y"))
    ok (record { x = x; y = y })

  -- RGBColour::ParseConfig
  unfoldable pub parse_colour : Text → Result RgbColour
  parse_colour name = do
    r ← get (t.u8_at (name ++ str ".r"))
    g ← get (t.u8_at (name ++ str ".g"))
    b ← get (t.u8_at (name ++ str ".b"))
    ok (record { r = r; g = g; b = b })

  -- The loop over the map limits, with Landmark::ParseConfig.
  unfoldable pub parse_limits : List Text → List Landmark → Result (List Landmark)
  unfolding parse_coordinates parse_colour
  parse_limits [] limits = ok limits
  parse_limits (name ∷ rest) limits = do
    position ← parse_coordinates name
    colour ← parse_colour name
    parse_limits rest (limits ++ record { position = position; colour = colour } ∷ [])

  -- The loop over the robots of a team.
  unfoldable pub parse_robots :
      Text → List Text → Map Text RobotEntry → Result (Map Text RobotEntry)
  parse_robots team [] robots = ok robots
  parse_robots team (robot ∷ rest) robots = do
    name ← get (t.text_at (robot ++ str ".name"))
    parse_robots team rest (put robot (record { name = name; team = team }) robots)

  -- The loop over the teams.
  unfoldable pub parse_teams : List Text → Parameters → Result Parameters
  unfolding parse_robots insert_name
  parse_teams [] p = ok p
  parse_teams (team ∷ rest) p = do
    name ← get (t.text_at (team ++ str ".name"))
    robots ← parse_robots name (tokens_at t (team ++ str ".robots")) p.robots
    parse_teams rest (record p { teams = insert_name name p.teams; robots = robots })

  -- `boost::split` at spaces into a set.
  module _ (split : Text → List Text) where
    -- The loop over the items.
    unfoldable pub parse_items : List Text → Map Text ItemEntry → Result (Map Text ItemEntry)
    parse_items [] items = ok items
    parse_items (item ∷ rest) items = do
      name ← get (t.text_at (item ++ str ".name"))
      type ← get (t.text_at (item ++ str ".type"))
      rfid ← get (t.text_at (item ++ str ".rfid"))
      colour ← get (t.i32_at (item ++ str ".colour"))
      let rfids : List Text = if is_empty rfid then [] else split rfid
      parse_items rest
          (put item (record { name = name; type = type; rfids = rfids; colour = colour }) items)

    -- ParseGameConfigFromFile
    unfoldable pub parse_game_config : Parameters → Result Parameters
    unfolding parse_ruleset parse_teams parse_items parse_limits
    parse_game_config p = do
      let duration =
          or_else p.options.game_duration (map_option to_i32 (t.u32_at (str "game.duration")))
      ruleset_name ← get (t.text_at (str "game.ruleset"))
      rules ← parse_ruleset ruleset_name
      p1 ← parse_teams (tokens_at t (str "game.teams")) (record p { rules = rules })
      items ← parse_items (tokens_at t (str "game.items")) p1.items
      limits ← parse_limits (tokens_at t (str "game.map_limits")) p1.map_limits
      let port =
          or_else p.options.broadcast_port
            (map_option (λ n. n % 2 ^ 16) (t.u32_at (str "server.broadcast-port")))
      ok (record p1 {
        items = items;
        map_limits = limits;
        options = record p.options { game_duration = duration; broadcast_port = port };
      })
