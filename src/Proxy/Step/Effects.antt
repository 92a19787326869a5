-- ===== src/Proxy/Step/Effects.antt =====
-- What each command of the agent is to do.
use server_game.Base.{
  ℕ, Bool, true, false, Option, none, some, [], Result, ok, if◌then◌else◌, ◌>>=◌, modify,
}
use server_game.Base.Text.{Text, text_key}
use server_game.Base.StdMap.{find}
use server_game.Game.Types.{Game, Robot, Player}
use server_game.Game.Team
use server_game.Game.Roster
use server_game.Game.Rules
use server_game.Application.State.{Application, Host, stop, pop_port}
use server_game.Proxy.Agent.{put_game}
use server_game.Proxy.Step.{Surroundings}
use server_game.Proxy.Step.Commands.{name_text}
use server_game.Proxy.Step.Language.{
  Command, game_started, game_stopped, application_stopped, team_added, team_removed, player_added,
  player_removed, robot_removed, registered, unregistered, robot_added, video_url_set, address_set,
  score_set,
}

-- The robot or the player of that name, if there is one, is changed.
unfoldable pub tell_robot : Text → (Robot → Robot) → Game → Game
tell_robot name f game = elim (find name game.robots) [
  | none ↦ game
  | some i ↦ Roster.change_robot i f game
]

unfoldable pub tell_player : Text → (Player → Player) → Game → Game
tell_player name f game = elim (find name game.players) [
  | none ↦ game
  | some i ↦ Roster.change_player i f game
]

-- The team of that name, if there is one, gets the score, if it is a number.
unfoldable pub tell_score : Option ℕ → Text → Game → Game
tell_score none name game = game
tell_score (some score) name game = elim (find name game.teams) [
  | none ↦ game
  | some t ↦ record game { all_teams = modify game.all_teams t (Team.set_score score) }
]

-- What a command is to do to the game.
unfoldable pub game_effect : Surroundings → Command → Game → Game
unfolding tell_robot tell_player tell_score
game_effect env game_started game = Rules.start true none env.now game
game_effect env game_stopped game = Rules.stop game
game_effect env application_stopped game = Rules.stop game
game_effect env (team_added n) game = (Team.add_team (name_text n) game).0
game_effect env (team_removed n) game = (Team.remove_team (name_text n) game).0
game_effect env (player_added n) game = (Roster.add_player (name_text n) game).0
game_effect env (player_removed n) game = (Roster.remove_player (name_text n) game).0
game_effect env (robot_removed n) game = (Roster.remove_robot (name_text n) game).0
game_effect env (registered n) game = tell_robot (name_text n) (Roster.set_has_real_robot true) game
game_effect env (unregistered n) game =
    tell_robot (name_text n) (Roster.set_has_real_robot false) game
game_effect env (robot_added n t) game = game
game_effect env (video_url_set n v) game = tell_robot (name_text n) (Roster.set_video_url v) game
game_effect env (address_set n v) game = tell_player (name_text n) (Roster.set_address v) game
game_effect env (score_set n v) game = tell_score (env.lexical_u32 v) (name_text n) game

-- A robot gets the last two video ports.
unfoldable pub add_with_ports : Bool → Text → Text → Application → Host → Result Application
add_with_ports video_first name team app host =
    let (app', first) = pop_port app in
    let (app'', second) = pop_port app' in
    let ports : ℕ × ℕ = if video_first then (first, second) else (second, first) in
    Roster.add_robot name team ports.0 ports.1 [] host.game >>= λ r. ok (put_game r.0 app'' host)

-- What it is to do to the application with its server: two commands reach beyond the game.
unfoldable pub effect : Surroundings → Command → Application → Host → Result Application
unfolding game_effect add_with_ports
effect env application_stopped app host = ok (stop app).0
effect env (robot_added n t) app host =
    add_with_ports env.video_first (name_text n) (name_text t) app host
effect env c app host = ok (put_game (game_effect env c host.game) app host)
