-- ===== src/Callbacks/Players.antt =====
-- src/orwell/callbacks/ProcessRegister.cpp and ProcessHello.cpp: how a real robot gets an id and a
-- player gets a robot.
pub mod Registered
pub mod Greeted
pub mod Video
pub mod Chosen
pub mod Starting
pub mod Linked
use server_game.Base.{
  ℕ, Bool, true, false, Option, none, some, List, [], ◌∷◌, get_elem?, Result, ok, err, bad_cast,
  dangling, or_fault, if◌then◌else◌, ◌>>=◌,
}
use server_game.Base.Key.{◌==◌, nat_key}
use server_game.Base.Text.{Text, str}
use server_game.Game.Types.{Robot, Game, Time}
use server_game.Game.Team.{deref}
use server_game.Game.Roster.{
  change_robot, change_player, set_has_real_robot, set_video_url, set_player, set_robot,
  set_address, access_player, add_player, get_robot_without_real_robot, get_robot_for_player,
  get_available_robot,
}
use server_game.Game.Rules.{start}
use server_game.Com.RawMessage.{split_at}
use server_game.Callbacks.Messages.{
  Channel, Hello, Register, Welcome, Body, Outgoing, World, reply_message,
}

-- ProcessRegister::execute
unfoldable pub register : Channel → Text → Register → World → Result World
register channel id message w = do
  (game, found) ← get_robot_without_real_robot message.temporary_robot_id w.game
  elim found [
    | none ↦ ok (
        reply_message channel (record { routing_id = id; body = Body.registered none [] })
          (record w { game = game }))
    | some robot ↦ or_fault dangling (get_elem? game.all_robots robot) >>= λ r.
        deref r.team game >>= λ team. ok (
          reply_message channel
            (record { routing_id = id; body = Body.registered (some team.name) r.robot_id })
            (record w {
              game =
                  change_robot robot (set_video_url message.video_url)
                    (change_robot robot (set_has_real_robot true) game);
            }))
  ]

abbrev pub colon : ℕ
colon = b':'

-- What stands behind a text that another one starts with.
abbrev pub behind : Text → Text → Option Text
behind [] text = some text
behind (p ∷ ps) [] = none
behind (p ∷ ps) (c ∷ cs) = if p == c then behind ps cs else none

abbrev pub cast_port : (Text → Option ℕ) → Text → Text → Result (Text × ℕ)
cast_port lexical_cast address port = or_fault bad_cast (lexical_cast port) >>= λ p. ok (address, p)

-- The address and the port of the video, for `nc:ADDRESS:PORT` those of the url. Without a second
-- colon the text for the port is the whole url, since the place behind `npos` is 0.
unfoldable pub video_of : (Text → Option ℕ) → Robot → Result (Text × ℕ)
unfolding split_at
video_of lexical_cast r = elim (behind (str "nc:") r.video_url) [
  | none ↦ ok (str "localhost", r.video_retransmission_port)
  | some rest ↦ elim (split_at colon rest) [
    | none ↦ cast_port lexical_cast rest r.video_url
    | some (address, port) ↦ cast_port lexical_cast address port
  ]
]

-- The player and the robot are linked to each other.
unfoldable pub link : ℕ → ℕ → Game → Game
unfolding set_player set_robot
link player robot game =
    change_robot robot (set_player player) (change_player player (set_robot robot) game)

-- A start without a forced time, where the player is ready and no robot waits for a player.
unfoldable pub start_if_ready : Option Bool → Time → Game → Game
start_if_ready (some true) now game = elim (get_available_robot game) [
  | none ↦ start true none now game
  | some robot ↦ game
]
start_if_ready _ now game = game

-- The part of ProcessHello::execute for a robot that is there: the links, the answer and the start.
unfoldable pub welcome_player :
    (Text → Option ℕ) → Channel → Text → Hello → Time → ℕ → World → Result World
welcome_player lexical_cast channel id message now robot w = do
  player ← access_player message.name w.game
  let game = link player robot w.game
  r ← or_fault dangling (get_elem? game.all_robots robot)
  (address, port) ← video_of lexical_cast r
  let answer : Welcome = record {
    robot = r.name;
    team = str "team_red";
    id = r.robot_id;
    video_address = address;
    video_port = port;
  }
  ok (
      reply_message channel (record { routing_id = id; body = Body.welcome answer })
        (record w { game = start_if_ready message.ready now game }))

unfoldable pub note_address : Text → Option Text → World → Result World
unfolding set_address
note_address name none w = ok w
note_address name (some address) w = access_player name w.game >>= λ player.
    ok (record w { game = change_player player (set_address address) w.game })

abbrev pub say_goodbye : Channel → Text → World → World
say_goodbye channel id w = reply_message channel (record { routing_id = id; body = Body.goodbye }) w

-- ProcessHello::execute
unfoldable pub hello : (Text → Option ℕ) → Channel → Text → Hello → Time → World → Result World
hello lexical_cast channel id message now w =
    let (game, added) = add_player message.name w.game in
    let w' : World = record w { game = game } in
    if added
    then elim (get_robot_for_player message.name game) [
      | some robot ↦ welcome_player lexical_cast channel id message now robot w' >>= λ greeted.
          note_address message.name message.address greeted
      | none ↦ note_address message.name message.address w' >>= λ noted.
          ok (say_goodbye channel id noted)
    ]
    else ok (say_goodbye channel id w')
