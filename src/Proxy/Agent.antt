-- ===== src/Proxy/Agent.antt =====
-- The member functions of AgentProxy that a command calls, in src/orwell/proxy/AgentProxy.cpp. What
-- they throw is caught in those with a `try` alone.
use server_game.Base.{
  ℕ, ◌*◌, Bool, true, false, Option, none, some, [], modify, Result, ok, bad_cast, or_fault,
  catching, if◌then◌else◌, ◌>>=◌,
}
use server_game.Base.Int.{pos}
use server_game.Base.Key.{◌==◌}
use server_game.Base.Text.{Text, str, text_key}
use server_game.Base.StdMap.{find}
use server_game.Game.Types.{Game, Robot, Player, Time, microseconds}
use server_game.Game.Team
use server_game.Game.Roster
use server_game.Game.Rules
use server_game.Application.State.{Application, Host, access_server, stop, pop_port}

abbrev pub put_game : Game → Application → Host → Application
put_game game app host = record app { server = some (record host { game = game }) }

-- A call on the game of the server.
unfoldable pub with_game : (Game → Result Game) → Application → Result Application
with_game f app = do host ← access_server app; game ← f host.game; ok (put_game game app host)

unfoldable pub stop_application : Application → Result Application
unfolding stop
stop_application app = ok (stop app).0

unfoldable pub add_team : Text → Application → Result Application
unfolding with_game
add_team name app = with_game (λ game. ok (Team.add_team name game).0) app

unfoldable pub remove_team : Text → Application → Result Application
unfolding with_game
remove_team name app = with_game (λ game. ok (Team.remove_team name game).0) app

-- The score of a team that its map has.
unfoldable pub change_score : ℕ → Text → Game → Game
change_score score name game = elim (find name game.teams) [
  | none ↦ game
  | some t ↦ record game { all_teams = modify game.all_teams t (Team.set_score score) }
]

unfoldable pub add_player : Text → Application → Result Application
unfolding with_game
add_player name app = with_game (λ game. ok (Roster.add_player name game).0) app

unfoldable pub remove_player : Text → Application → Result Application
unfolding with_game
remove_player name app = with_game (λ game. ok (Roster.remove_player name game).0) app

unfoldable pub remove_robot : Text → Application → Result Application
unfolding with_game
remove_robot name app = with_game (λ game. ok (Roster.remove_robot name game).0) app

-- The two ports are popped before the call; which of them becomes the video port is left to the
-- compiler.
unfoldable pub add_robot : Bool → Text → Text → Application → Result Application
unfolding with_game pop_port
add_robot video_first name team app =
    let (app', first) = pop_port app in
    let (app'', second) = pop_port app' in
    let video : ℕ = if video_first then first else second in
    let command : ℕ = if video_first then second else first in
    with_game (λ game. Roster.add_robot name team video command [] game >>= λ r. ok r.0) app''

-- A change of the robot, or of the player, of that name.
abbrev pub change_robot_named : Text → (Robot → Robot) → Game → Result Game
change_robot_named name f game =
    Roster.access_robot name game >>= λ i. ok (Roster.change_robot i f game)

abbrev pub change_player_named : Text → (Player → Player) → Game → Result Game
change_player_named name f game =
    Roster.access_player name game >>= λ i. ok (Roster.change_player i f game)

unfoldable pub register_robot : Text → Application → Result Application
unfolding with_game
register_robot name app =
    catching app (with_game (change_robot_named name (Roster.set_has_real_robot true)) app)

unfoldable pub unregister_robot : Text → Application → Result Application
unfolding with_game
unregister_robot name app =
    catching app (with_game (change_robot_named name (Roster.set_has_real_robot false)) app)

-- A robot that is missing and a property that is unknown leave the game as it is.
unfoldable pub set_robot : Text → Text → Text → Application → Result Application
unfolding with_game
set_robot name property value app = catching app (
    with_game
      (change_robot_named name
        (λ robot. if property == str "video_url" then Roster.set_video_url value robot else robot))
      app)

unfoldable pub set_player : Text → Text → Text → Application → Result Application
unfolding with_game
set_player name property value app = catching app (
    with_game
      (change_player_named name
        (λ player. if property == str "address" then Roster.set_address value player else player))
      app)

unfoldable pub start_game : Time → Application → Result Application
unfolding with_game
start_game now app = with_game (λ game. ok (Rules.start true none now game)) app

unfoldable pub stop_game : Application → Result Application
unfolding with_game
stop_game app = with_game (λ game. ok (Rules.stop game)) app

unfoldable pub set_game : Text → ℕ → Application → Result Application
unfolding with_game
set_game property value app = catching app (
    with_game
      (λ game. ok (
        if property == str "duration"
        then Rules.set_duration (pos (value * microseconds)) game
        else game))
      app)

-- `boost::lexical_cast< uint32_t >`, which throws where there is no number.
module _ (lexical_u32 : Text → Option ℕ) where
  -- The team of no name is taken for the neutral one.
  unfoldable pub score_set : Text → Text → Text → Game → Result Game
  unfolding change_score
  score_set name property value game =
      if Team.same_team Team.neutral (Team.get_team name game)
      then ok game
      else if property == str "score"
      then (or_fault bad_cast (lexical_u32 value) >>= λ score. ok (change_score score name game))
      else ok game

  unfoldable pub set_team : Text → Text → Text → Application → Result Application
  unfolding with_game score_set
  set_team name property value app = catching app (with_game (score_set name property value) app)
