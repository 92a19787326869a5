-- ===== src/Callbacks/Players/Linked.antt =====
-- What a player and a robot are to each other once the player has said hello.
use server_game.Base.{
  ℕ, ◌≡◌, ◌≢◌, refl, ◌∙◌, ap, Bool, true, false, Option, none, some, get_elem?,
  get_elem?-modify_self, get_elem?-modify_ne, ok, arith, ◌⊎◌,
}
use server_game.Base.Text.{Text, text_key}
use server_game.Base.StdMap.{find}
use server_game.Game.Types.{Player, Robot, Game, Time}
use server_game.Game.Roster.{set_player, set_robot, add_player, get_robot_for_player}
use server_game.Game.Rules.{start, begin, stop}
use server_game.Game.Sound.{IsSound}
use server_game.Game.Sound.Added.{add_player-IsSound}
use server_game.Callbacks.Messages.{
  Channel, Hello, World, reply_message, reply_message-game, Answered, reply_message-Answered,
}
use server_game.Callbacks.Players.{hello, link, start_if_ready}
use server_game.Callbacks.Players.Greeted.{
  with_address, with_address-player, with_address-rest, HasAddress, added, add_player-robots,
  welcoming, hello_answers, linked-there,
}
use server_game.Callbacks.Players.Chosen.{IsFor, get_robot_for_player-IsFor}
use server_game.Callbacks.Players.Video.{IsVideo, video_of-IsVideo}
use server_game.Callbacks.Players.Starting.{
  Starts, Stays, start_if_ready-course, course-with_address, course-linked,
}

-- What the start of a game leaves.
start_if_ready-objects :
    (ready : Option Bool) (now : Time) (game : Game)
    → ((start_if_ready ready now game).all_robots ≡ game.all_robots)
      × ((start_if_ready ready now game).all_players ≡ game.all_players)
      × ((start_if_ready ready now game).players ≡ game.players)
unfolding start_if_ready start begin stop
start_if_ready-objects none now game = (refl, refl, refl)
start_if_ready-objects (some false) now game = (refl, refl, refl)
start_if_ready-objects (some true) now game = (ground arith, ground arith, ground arith)

linked-player :
    (player robot : ℕ) (game : Game) (p : Player)
    → get_elem? game.all_players player ≡ some p
    → get_elem? (link player robot game).all_players player ≡ some (record p { robot = some robot })
unfolding link set_robot
linked-player player robot game p there =
    get_elem?-modify_self game.all_players player (set_robot robot) p there

linked-rest :
    (player robot j : ℕ) (game : Game)
    → ((link player robot game).players ≡ game.players)
      × ((link player robot game).robots ≡ game.robots)
      × (robot ≢ j → get_elem? (link player robot game).all_robots j ≡ get_elem? game.all_robots j)
unfolding link
linked-rest player robot j game =
    (refl, refl, λ other. get_elem?-modify_ne game.all_robots robot j (set_player player) other)

-- A video is that of the robot still once it has a player.
linked-IsVideo :
    (cast : Text → Option ℕ) (player : ℕ) (r : Robot) (address : Text) (port : ℕ)
    → IsVideo cast r address port
    → IsVideo cast (set_player player r) address port
unfolding set_player
linked-IsVideo cast player r address port h = h

-- A player of a sound game for whom there is a robot, whose video can be told: the answer is one
-- Welcome, to the routing id and over the channel of the message, with the name and the id of the
-- robot and its video, and nothing else is sent. The robot was the player's already, or it is real
-- and had no player. It has the player of that name afterwards, and is otherwise as it was, the
-- player has the robot, and the address if one was given; the other robots are as before. If the
-- player is ready and no robot is left that waits for a player, the game runs from now on, without
-- a winner and a score; otherwise a robot waits or the player is not ready, and whether the game
-- runs, its times, its winner and the teams are as before.
pub hello_with_robot :
    (cast : Text → Option ℕ) (channel : Channel) (id : Text) (message : Hello) (now : Time)
    (w : World) (robot : ℕ) (r : Robot) (address : Text) (port : ℕ)
    → IsSound w.game
    → get_robot_for_player message.name (add_player message.name w.game).0 ≡ some robot
    → get_elem? w.game.all_robots robot ≡ some r
    → IsVideo cast r address port
    → (after : World) × (player : ℕ) × (hello cast channel id message now w ≡ ok after)
      × Answered channel (welcoming id r address port) w after
      × IsFor message.name (add_player message.name w.game).0 r
      × (get_elem? after.game.all_robots robot ≡ some (record r { player = some player }))
      × ((j : ℕ) → robot ≢ j → get_elem? after.game.all_robots j ≡ get_elem? w.game.all_robots j)
      × (find message.name after.game.players ≡ some player)
      × ((q : Player) × (get_elem? after.game.all_players player ≡ some q)
          × (q.name ≡ message.name)
          × (q.robot ≡ some robot)
          × HasAddress message.address q)
      × (Starts message.ready now after.game ⊎ Stays message.ready w.game after.game)
unfolding set_player
hello_with_robot cast channel id message now w robot r address port sound rb there video =
    let g = (add_player message.name w.game).0 in
    let robots = add_player-robots message.name w.game in
    let (player, known, success, found, (p, placed, named)) = added message.name w.game sound in
    let linked = link player robot g in
    let started = start_if_ready message.ready now linked in
    let game = with_address player message.address started in
    let (same_robots, same_objects, same_players) =
      start_if_ready-objects message.ready now linked in
    let (robots_kept, players_kept) = with_address-rest player message.address started in
    let m = welcoming id r address port in
    let kept = reply_message-game channel m (record w { game = game }) in
    let there' : get_elem? g.all_robots robot ≡ some r =
      ap (λ l. get_elem? l robot) robots ∙ there in
    let (q, last, same_name, same_robot, has) =
      with_address-player player message.address started (record p { robot = some robot })
        (ap (λ l. get_elem? l player) same_objects ∙ linked-player player robot g p placed) in
    (
      reply_message channel m (record w { game = game }),
      player,
      hello_answers cast channel id message now w robot player r address port known rb there' (
          video_of-IsVideo cast (set_player player r) address port
            (linked-IsVideo cast player r address port video)),
      reply_message-Answered channel m w game,
      get_robot_for_player-IsFor message.name g robot r rb there',
      rw (kept, robots_kept, same_robots) (linked-there player robot g r there'),
      λ j other.
          rw (kept, robots_kept, same_robots)
            ((linked-rest player robot j g).2 other ∙ ap (λ l. get_elem? l j) robots),
      rw (kept, players_kept, same_players, (linked-rest player robot 0 g).0) found,
      (q, rw kept last, same_name ∙ named, same_robot, has),
      rw kept (
          course-linked message.ready now message.name player robot w.game game (
            course-with_address message.ready now player message.address linked started (
              start_if_ready-course message.ready now linked (
                rw ((linked-rest player robot 0 g).1)
                  (add_player-IsSound message.name w.game sound).robots_sorted)))),
    )
