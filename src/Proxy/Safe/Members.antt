-- ===== src/Proxy/Safe/Members.antt =====
-- Every member function of the agent proxy keeps what its three kinds of change keep.
use server_game.Base.{ℕ, ◌*◌, refl, Bool, true, Option, none, [], ok-injective, subst}
use server_game.Base.Key.{◌==◌}
use server_game.Base.Int.{pos}
use server_game.Base.Text.{Text, str, text_key}
use server_game.Game.Types.{Game, Time, microseconds}
use server_game.Game.Roster
use server_game.Game.Rules
use server_game.Game.Sound.{IsSound}
use server_game.Game.Sound.Operations.{
  perform, team_added, team_removed, player_added, player_removed, robot_removed, robot_added,
  started, stopped,
}
use server_game.Application.State.{Application, pop_port}
use server_game.Proxy.Agent
use server_game.Proxy.Agent.{put_game}
use server_game.Proxy.Safe.Yields.{Gives, catching-Gives}
use server_game.Proxy.Safe.Kept.{
  Held, robot-KeepsSound, player-KeepsSound, kept-Sounds, if-IsSound, score_set-KeepsSound,
  operation-KeepsSound, set_video_url-same, set_address-same, set_duration-IsSound,
}

module _ (P : Application → Type 0) (held : Held P) (app : Application) (v : P app) where
  pub stop_application-Gives : Gives P (Agent.stop_application app)
  unfolding Agent.stop_application
  stop_application-Gives b e = subst P (ok-injective e) (held.stopped app v)

  pub add_team-Gives : (name : Text) → Gives P (Agent.add_team name app)
  unfolding Agent.add_team perform
  add_team-Gives name = held.game_changed _ app (operation-KeepsSound (team_added name)) v

  pub remove_team-Gives : (name : Text) → Gives P (Agent.remove_team name app)
  unfolding Agent.remove_team perform
  remove_team-Gives name = held.game_changed _ app (operation-KeepsSound (team_removed name)) v

  pub add_player-Gives : (name : Text) → Gives P (Agent.add_player name app)
  unfolding Agent.add_player perform
  add_player-Gives name = held.game_changed _ app (operation-KeepsSound (player_added name)) v

  pub remove_player-Gives : (name : Text) → Gives P (Agent.remove_player name app)
  unfolding Agent.remove_player perform
  remove_player-Gives name = held.game_changed _ app (operation-KeepsSound (player_removed name)) v

  pub remove_robot-Gives : (name : Text) → Gives P (Agent.remove_robot name app)
  unfolding Agent.remove_robot perform
  remove_robot-Gives name = held.game_changed _ app (operation-KeepsSound (robot_removed name)) v

  pub start_game-Gives : (now : Time) → Gives P (Agent.start_game now app)
  unfolding Agent.start_game perform
  start_game-Gives now = held.game_changed _ app (operation-KeepsSound (started true none now)) v

  pub stop_game-Gives : Gives P (Agent.stop_game app)
  unfolding Agent.stop_game perform
  stop_game-Gives = held.game_changed _ app (operation-KeepsSound stopped) v

  pub register_robot-Gives : (name : Text) → Gives P (Agent.register_robot name app)
  unfolding Agent.register_robot Roster.set_has_real_robot
  register_robot-Gives name =
      catching-Gives P app _ v
        (held.game_changed _ app (robot-KeepsSound name _ (λ r. (refl, refl))) v)

  pub unregister_robot-Gives : (name : Text) → Gives P (Agent.unregister_robot name app)
  unfolding Agent.unregister_robot Roster.set_has_real_robot
  unregister_robot-Gives name =
      catching-Gives P app _ v
        (held.game_changed _ app (robot-KeepsSound name _ (λ r. (refl, refl))) v)

  pub set_robot-Gives :
      (name property value : Text) → Gives P (Agent.set_robot name property value app)
  unfolding Agent.set_robot
  set_robot-Gives name property value = catching-Gives P app _ v (
      held.game_changed _ app
        (robot-KeepsSound name _ (set_video_url-same (property == str "video_url") value)) v)

  pub set_player-Gives :
      (name property value : Text) → Gives P (Agent.set_player name property value app)
  unfolding Agent.set_player
  set_player-Gives name property value = catching-Gives P app _ v (
      held.game_changed _ app
        (player-KeepsSound name _ (set_address-same (property == str "address") value)) v)

  pub set_team-Gives :
      (lexical_u32 : Text → Option ℕ) (name property value : Text)
      → Gives P (Agent.set_team lexical_u32 name property value app)
  unfolding Agent.set_team
  set_team-Gives lexical_u32 name property value =
      catching-Gives P app _ v
        (held.game_changed _ app (score_set-KeepsSound lexical_u32 name property value) v)

  pub set_game-Gives : (property : Text) (value : ℕ) → Gives P (Agent.set_game property value app)
  unfolding Agent.set_game
  set_game-Gives property value = catching-Gives P app _ v (
      held.game_changed _ app
        (λ g h e w. kept-Sounds _ (if-IsSound (property == str "duration") _ g (timed g w) w) h e)
        v)
    where
      timed : (g : Game) → IsSound g → IsSound (Rules.set_duration (pos (value * microseconds)) g)
      timed g w = set_duration-IsSound (pos (value * microseconds)) g w

  pub add_robot-Gives :
      (video_first : Bool) (name team : Text) → Gives P (Agent.add_robot video_first name team app)
  unfolding Agent.add_robot perform
  add_robot-Gives video_first name team =
      held.game_changed _ _ (operation-KeepsSound (robot_added name team _ _ []))
        (held.port_popped (pop_port app).0 (held.port_popped app v))
