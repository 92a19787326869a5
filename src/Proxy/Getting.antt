-- ===== src/Proxy/Getting.antt =====
-- src/orwell/proxy/Get.cpp: one object, or one of its properties. An exception leaves the reply as
-- it was.
use server_game.Base.{
  Bool, true, false, Option, none, some, [], ◌∷◌, ◌++◌, get_elem?, Result, ok, dangling, or_fault,
  catching, if◌then◌else◌, ◌&&◌, ◌||◌, ◌>>=◌, err, out_of_range, logic_error, runtime_error,
  bad_cast, endless,
}
use server_game.Base.Key.{◌==◌}
use server_game.Base.Text.{Text, str, text_key}
use server_game.Game.Types.{Robot, Player, Team, Game, total_seconds}
use server_game.Game.Team
use server_game.Game.Roster
use server_game.Game.Rules
use server_game.Proxy.Reply.{
  OutputMode, Reply, no_reply, assign, fail_with, fail, Json, null, flag, number, signed, string,
  keyed,
}
use server_game.Base.Decimal.{to_string, signed_text}
use server_game.Proxy.Describe.{
  bool_text, robot_as_string, player_as_string, game_as_string, player_to_json, robot_to_json,
  json_object,
}
use server_game.Proxy.Stream.{Stream, extract, read_name}

abbrev pub ko : Text
ko = str "KO"

-- Game::getRobot and Game::getPlayer, with the object behind the pointer.
abbrev pub robot_of : Text → Game → Result Robot
robot_of name game =
    Roster.access_robot name game >>= λ i. or_fault dangling (get_elem? game.all_robots i)

abbrev pub player_of : Text → Game → Result Player
player_of name game =
    Roster.access_player name game >>= λ i. or_fault dangling (get_elem? game.all_players i)

unfoldable pub robot_text : Option Text → Robot → Game → Reply
robot_text none robot game = assign (robot_as_string robot game) no_reply
robot_text (some p) robot game =
    if p == str "id"
    then assign robot.robot_id no_reply
    else if p == str "video_url"
    then assign robot.video_url no_reply
    else if p == str "video_port"
    then assign (to_string robot.video_retransmission_port) no_reply
    else if p == str "video_command_port"
    then assign (to_string robot.server_command_port) no_reply
    else fail_with ko no_reply

-- The json, and the reply that it is to replace.
unfoldable pub robot_json : Option Text → Robot → Game → Result (Json × Reply)
robot_json none robot game = robot_to_json robot game >>= λ j. ok (j, no_reply)
robot_json (some p) robot game =
    ok
      (if p == str "id" then (keyed p (string robot.robot_id), no_reply) else (null, fail no_reply))

unfoldable pub team_text : Option Text → Team → Reply
team_text none team = fail_with ko no_reply
team_text (some p) team =
    if p == str "score" then assign (to_string team.score) no_reply else fail_with ko no_reply

unfoldable pub team_json : Option Text → Team → Json × Reply
team_json none team = (null, fail no_reply)
team_json (some p) team =
    if p == str "score" then (keyed p (number team.score), no_reply) else (null, fail no_reply)

unfoldable pub player_text : Option Text → Player → Game → Reply
player_text none player game = assign (player_as_string player game) no_reply
player_text (some p) player game =
    if p == str "address" then assign player.address no_reply else fail_with ko no_reply

unfoldable pub player_json : Option Text → Player → Game → Json × Reply
player_json none player game = (player_to_json player game, no_reply)
player_json (some p) player game =
    if p == str "address"
    then (keyed p (string player.address), no_reply)
    else (null, fail no_reply)

-- `catch (std::out_of_range const &)` before the catch of every other exception.
abbrev pub catching_range {ℓ} : {A : Type ℓ} → A → Result A → Result A
catching_range other (ok a) = ok a
catching_range other (err out_of_range) = ok other
catching_range other (err logic_error) = err logic_error
catching_range other (err runtime_error) = err runtime_error
catching_range other (err bad_cast) = err bad_cast
catching_range other (err dangling) = err dangling
catching_range other (err endless) = err endless

-- GetGameText
unfoldable pub get_game_text : Option Text → Game → Reply
get_game_text none game = assign (game_as_string game) no_reply
get_game_text (some p) game =
    if p == str "time"
    then assign (to_string (Rules.get_seconds_left game)) no_reply
    else if p == str "running"
    then assign (bool_text game.is_running) no_reply
    else if p == str "duration"
    then assign (signed_text (total_seconds game.game_duration)) no_reply
    else fail_with ko no_reply

module _ (dump : Json → Result Text) where
  -- The json takes the place of the reply; what `dump` throws is caught.
  abbrev pub dump_into : Json × Reply → Result Reply
  dump_into r = catching r.1 (dump r.0 >>= λ t. ok (assign t r.1))

  -- GetRobot
  unfoldable pub get_robot : OutputMode → Text → Option Text → Game → Result Reply
  get_robot OutputMode.text name property game =
      catching no_reply (robot_of name game >>= λ r. ok (robot_text property r game))
  get_robot OutputMode.json name property game =
      catching no_reply
        (robot_of name game >>= λ r. robot_json property r game >>= λ j. dump_into j)

  -- GetTeam: the team of no name is not told from a missing one.
  unfoldable pub get_team : OutputMode → Text → Option Text → Game → Result Reply
  get_team mode name property game =
      let team = Team.get_team name game in
      if Team.same_team Team.neutral team then ok (fail no_reply) else elim mode [
        | OutputMode.text ↦ ok (team_text property team)
        | OutputMode.json ↦ dump_into (team_json property team)
      ]

  -- GetPlayer: a name that is not found fails the reply.
  unfoldable pub get_player : OutputMode → Text → Option Text → Game → Result Reply
  get_player OutputMode.text name property game = catching no_reply (
      catching_range (fail no_reply)
        (player_of name game >>= λ p. ok (player_text property p game)))
  get_player OutputMode.json name property game = catching no_reply (
      catching_range (fail no_reply)
        (player_of name game >>= λ p. dump_into (player_json property p game)))

  -- GetGameJson, in which nothing is caught.
  unfoldable pub get_game_json : Game → Result Reply
  get_game_json game =
      dump (
        json_object (
          (str "time", number (Rules.get_seconds_left game))
          ∷ (str "running", flag game.is_running)
          ∷ (str "duration", signed (total_seconds game.game_duration))
          ∷ []))
      >>= λ t. ok (assign t no_reply)

  abbrev pub is_named : Text → Bool
  is_named what = what == str "robot" || what == str "team" || what == str "player"

  -- The word behind the name, unless the text has ended.
  abbrev pub optional_word : Stream → Option Text
  optional_word s = if s.eof then none else some (extract [] s).0

  -- The dispatch on the kind of the object.
  unfoldable pub get_object : OutputMode → Text → Text → Stream → Game → Result Reply
  get_object mode what name s game =
      let property = optional_word s in
      if what == str "robot"
      then get_robot mode name property game
      else if what == str "team"
      then get_team mode name property game
      else if what == str "game"
      then ok (get_game_text property game)
      else if what == str "player"
      then get_player mode name property game
      else elim mode [
        | OutputMode.text ↦ ok (
            fail_with (str "Unexpected text after list " ++ what ++ str ": '" ++ s.whole ++ str "'")
              no_reply)
        | OutputMode.json ↦ ok (fail no_reply)
      ]

  -- Get::process
  unfoldable pub get_process : OutputMode → Stream → Game → Result Reply
  get_process mode s game =
      let (what, s') = extract [] s in
      let in_json : Bool = elim mode [ OutputMode.text ↦ false | OutputMode.json ↦ true ] in
      (if is_named what then read_name s' else ok ([], s')) >>= λ r.
      if what == str "game" && in_json
      then get_game_json game
      else get_object mode what r.0 r.1 game
