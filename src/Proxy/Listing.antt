-- ===== src/Proxy/Listing.antt =====
-- src/orwell/proxy/List.cpp and View.cpp: what the agent lists, and a team in detail.
use server_game.Base.{
  ℕ, Bool, true, false, List, [], ◌∷◌, ◌++◌, get_elem?, Result, ok, dangling, or_fault,
  if◌then◌else◌, ◌>>=◌,
}
use server_game.Base.Key.{◌==◌}
use server_game.Base.Text.{Text, str, text_key}
use server_game.Base.Decimal.{to_string}
use server_game.Base.StdMap.{Map}
use server_game.Game.Types.{Item, Game}
use server_game.Game.Team
use server_game.Proxy.Reply.{
  OutputMode, Reply, no_reply, assign, append, fail_with, Json, null, array, json_array, keyed,
}
use server_game.Proxy.Describe.{
  robot_as_string, player_as_string, item_as_string, robot_names, strings, item_to_json,
  player_to_json, robot_to_json, team_to_json,
}
use server_game.Proxy.Stream.{Stream, extract, read_name}

abbrev pub tab : ℕ
tab = 9

abbrev pub newline : Text
newline = 10 ∷ []

abbrev pub heading : Text → Reply
heading title = assign (title ++ str ":" ++ newline) no_reply

-- One line of a list, in two parts.
abbrev pub list_line : Text → Text → Reply → Reply
list_line name description r = append (description ++ newline) (append (tab ∷ name ++ str " -> ") r)

unfoldable pub player_lines : Map Text ℕ → Game → Reply → Result Reply
player_lines [] game r = ok r
player_lines ((name, player) ∷ rest) game r = do
  p ← or_fault dangling (get_elem? game.all_players player)
  player_lines rest game (list_line name (player_as_string p game) r)

unfoldable pub players_json : Map Text ℕ → Game → Result (List Json)
players_json [] game = ok []
players_json ((name, player) ∷ rest) game = do
  p ← or_fault dangling (get_elem? game.all_players player)
  js ← players_json rest game
  ok (player_to_json p game ∷ js)

unfoldable pub robot_lines : Map Text ℕ → Game → Reply → Result Reply
robot_lines [] game r = ok r
robot_lines ((name, robot) ∷ rest) game r = do
  robot' ← or_fault dangling (get_elem? game.all_robots robot)
  robot_lines rest game (list_line name (robot_as_string robot' game) r)

unfoldable pub robots_json : Map Text ℕ → Game → Result (List Json)
robots_json [] game = ok []
robots_json ((name, robot) ∷ rest) game = do
  robot' ← or_fault dangling (get_elem? game.all_robots robot)
  j ← robot_to_json robot' game
  js ← robots_json rest game
  ok (j ∷ js)

unfoldable pub team_lines : List Text → Reply → Reply
team_lines [] r = r
team_lines (name ∷ rest) r = team_lines rest (append (tab ∷ name ++ newline) r)

unfoldable pub flag_lines : List Item → Reply → Reply
flag_lines [] r = r
flag_lines (item ∷ rest) r = flag_lines rest (append (tab ∷ item_as_string item ++ newline) r)

unfoldable pub flags_json : List Item → List Json
flags_json [] = []
flags_json (item ∷ rest) = item_to_json item ∷ flags_json rest

-- The names of the robots in quotes, with commas between.
unfoldable pub quoted_names : Bool → List Text → Reply → Reply
quoted_names first [] r = r
quoted_names first (name ∷ rest) r =
    quoted_names false rest
      (append (34 ∷ name ++ 34 ∷ []) (if first then r else append (str ", ") r))

module _ (dump : Json → Result Text) where
  abbrev pub dumped : Json → Result Reply
  dumped j = dump j >>= λ t. ok (assign t no_reply)

  unfoldable pub list_player : OutputMode → Game → Result Reply
  list_player OutputMode.text game = player_lines game.players game (heading (str "Players"))
  list_player OutputMode.json game = do
    js ← players_json game.players game
    dumped (keyed (str "Players") (array (json_array js)))

  unfoldable pub list_robot : OutputMode → Game → Result Reply
  list_robot OutputMode.text game = robot_lines game.robots game (heading (str "Robots"))
  list_robot OutputMode.json game = do
    js ← robots_json game.robots game
    dumped (keyed (str "Robots") (array (json_array js)))

  unfoldable pub list_team : OutputMode → Game → Result Reply
  list_team OutputMode.text game = ok (team_lines (Team.get_teams [] game) (heading (str "Teams")))
  list_team OutputMode.json game =
      dumped (keyed (str "Teams") (array (json_array (strings (Team.get_teams [] game)))))

  unfoldable pub list_flag : OutputMode → Game → Result Reply
  list_flag OutputMode.text game = ok (flag_lines game.items.all_items (heading (str "Flags")))
  list_flag OutputMode.json game =
      dumped (keyed (str "Flags") (array (json_array (flags_json game.items.all_items))))

  -- List::process
  unfoldable pub list_process : OutputMode → Stream → Game → Result Reply
  list_process mode s game =
      let (what, s') = extract [] s in
      if s'.eof
      then if what == str "player"
        then list_player mode game
        else if what == str "robot"
        then list_robot mode game
        else if what == str "team"
        then list_team mode game
        else if what == str "flag"
        then list_flag mode game
        else ok (fail_with (str "Invalid object for list: '" ++ what ++ str "'") no_reply)
      else ok (
          fail_with (str "Unexpected text after list " ++ what ++ str ": '" ++ s'.whole ++ str "'")
            no_reply)

  unfoldable pub view_team : OutputMode → Text → Game → Result Reply
  view_team OutputMode.text name game =
      let team = Team.get_team name game in
      if team.is_neutral_team
      then ok (fail_with (str "Invalid team name (" ++ name ++ str ")") no_reply)
      else robot_names team.robots game >>= λ names. ok (
          append (str "]") (
            quoted_names true names (
              append (str "robots = [") (
                append (tab ∷ str "score = " ++ to_string team.score ++ str " ; ")
                  (assign (str "Team " ++ name ++ str ":" ++ newline) no_reply)))))
  view_team OutputMode.json name game =
      let team = Team.get_team name game in
      if team.is_neutral_team
      then dumped (keyed (str "Team") null)
      else team_to_json team game >>= λ j. dumped (keyed (str "Team") j)

  -- View::process
  unfoldable pub view_process : OutputMode → Stream → Game → Result Reply
  view_process mode s game =
      let (what, s') = extract [] s in
      if what == str "team"
      then (read_name s' >>= λ r.
          if r.1.eof
          then view_team mode r.0 game
          else ok (
              fail_with
                (str "Unexpected text after view "
                  ++ what
                  ++ str " "
                  ++ r.0
                  ++ str ": '"
                  ++ r.1.whole
                  ++ str "'")
                no_reply))
      else ok (fail_with (str "Invalid object for view: '" ++ what ++ str "'") no_reply)
