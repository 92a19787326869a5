-- ===== src/Proxy/Unregistered.antt =====
-- What AgentProxy::unregisterRobot leaves to ProcessRegister.
use server_game.Base.{ℕ, ◌≡◌, refl, false, some, none, get_elem?, get_elem?-modify_self, ok}
use server_game.Base.Text.{Text, text_key}
use server_game.Base.StdMap.{find, put}
use server_game.Game.Types.{Game, Robot, Team}
use server_game.Game.Team.{deref}
use server_game.Game.Sound.{IsSound}
use server_game.Game.Roster.{
  Entry, entries, first, access_robot, change_robot, set_has_real_robot, set_video_url,
}
use server_game.Game.Roster.Available.{unreal, freed_is_given, registration_is_stable}
use server_game.Application.State.{Application, Host}
use server_game.Callbacks.Messages.{
  Channel, World, reply_message, reply_message-game, Answered, reply_message-Answered,
}
use server_game.Callbacks.Players.{register}
use server_game.Callbacks.Players.Registered.{real_with, with_url, told, registers, with_url-there}
use server_game.Proxy.Agent.{unregister_robot, put_game, with_game}

unregistered :
    (name : Text) (app : Application) (host : Host) (robot : ℕ)
    → app.server ≡ some host
    → find name host.game.robots ≡ some robot
    → unregister_robot name app
      ≡ ok (put_game (change_robot robot (set_has_real_robot false) host.game) app host)
unfolding unregister_robot with_game access_robot
unregistered name app host robot there known = rw there (rw known refl)

-- A real robot is registered under a temporary id, and the agent unregisters the robot it was given,
-- which is then the first of the map that is marked as no real one. Then a real robot registers under
-- a temporary id that is new, and the one from before registers again, each over any channel and with
-- any url, and the game is sound at first: both are answered with the id of this one robot.
pub unregistered_shared :
    (old new name : Text) (app : Application) (host : Host) (robot : ℕ) (r : Robot) (t : Team)
    (e : Entry) (w : World) (channel channel' : Channel) (id id' url url' : Text)
    → app.server ≡ some host
    → IsSound host.game
    → find old host.game.registered_robots ≡ some name
    → find new host.game.registered_robots ≡ none
    → find name host.game.robots ≡ some robot
    → get_elem? host.game.all_robots robot ≡ some r
    → deref r.team host.game ≡ ok t
    → let freed = change_robot robot (set_has_real_robot false) host.game in
      first unreal (entries freed.robots freed.all_robots) ≡ some e
      → e.key ≡ name
      → (after : Application) × (host' : Host) × (one two : World) × (unregister_robot name app
          ≡ ok after)
        × (after.server ≡ some host')
        × (register channel id
              (record { temporary_robot_id = new; video_url = url })
              (record w { game = host'.game })
            ≡ ok one)
        × Answered channel (told id r t) w one
        × (register channel' id' (record { temporary_robot_id = old; video_url = url' }) one
            ≡ ok two)
        × Answered channel' (told id' r t) one two
unfolding set_has_real_robot set_video_url deref
unregistered_shared old new name app host robot r t e w channel channel' id id' url url' server
      sound known unknown there placed team first_one key =
    let game = host.game in
    let freed = change_robot robot (set_has_real_robot false) game in
    let after : Game = record freed { registered_robots = put new e.key game.registered_robots } in
    let (given, again) =
      freed_is_given old new name game robot e sound.robots_sorted known unknown there first_one
        key in
    let r' = set_has_real_robot false r in
    let there' : get_elem? freed.all_robots robot ≡ some r' =
      get_elem?-modify_self game.all_robots robot (set_has_real_robot false) r placed in
    let game' = with_url url robot after in
    let one = reply_message channel (told id r t) (record w { game = game' }) in
    let kept = reply_message-game channel (told id r t) (record w { game = game' }) in
    let stable =
      registration_is_stable old after after game' robot sound.robots_sorted again refl refl in
    (
      put_game freed app host,
      record host { game = freed },
      one,
      reply_message channel' (told id' r t) (record one { game = with_url url' robot game' }),
      unregistered name app host robot server there,
      refl,
      registers channel id (record { temporary_robot_id = new; video_url = url })
          (record w { game = freed }) after robot r' t given there' team,
      reply_message-Answered channel (told id r t) w game',
      registers channel' id' (record { temporary_robot_id = old; video_url = url' }) one game' robot
          (real_with url r') t (rw kept stable) (with_url-there url robot after r' there') team,
      reply_message-Answered channel' (told id' r t) one (with_url url' robot game'),
    )
