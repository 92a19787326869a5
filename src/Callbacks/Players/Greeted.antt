-- ===== src/Callbacks/Players/Greeted.antt =====
-- What a player is told who says hello.
use server_game.Base.{
  ℕ, ◌≡◌, refl, ◌∙◌, ap, Bool, true, false, Option, none, some, get_elem?, get_elem?-modify_self,
  ok, arith, length, Option-cases, All, List, [], ◌∷◌, inl, inr,
}
use server_game.Base.Text.{Text, str, text_key, text_iff}
use server_game.Base.StdMap.{find, find-insert}
use server_game.Game.Types.{Robot, Player, Game, Time}
use server_game.Game.Roster.{
  change_player, set_player, set_address, access_player, add_player, get_robot_for_player, Entry,
  entries, first, last, belongs_to, get_is_available, get_available_robot,
}
use server_game.Game.Sound.{IsSound}
use server_game.Game.Sound.Added.{add_player-IsSound}
use server_game.Game.Rules.{start, begin, stop}
use server_game.Callbacks.Messages.{
  Channel, Hello, Body, Outgoing, World, reply_message, reply_message-game, reply_message-record,
  Answered, reply_message-Answered,
}
use server_game.Callbacks.Players.{
  hello, link, welcome_player, note_address, start_if_ready, video_of,
}

-- The game once the player is known, and the place of the player.
add_player-find :
    (name : Text) (game : Game)
    → (player : ℕ) × (access_player name (add_player name game).0 ≡ ok player)
      × ((add_player name game).1 ≡ true)
unfolding add_player access_player
add_player-find name game = elim (Option-cases (find name game.players)) [
  | inl new ↦ (
    length game.all_players,
    ground (
      arith,
      new,
      find-insert name name (length game.all_players) game.players,
      text_iff name name,
    ),
    ground (arith, new),
  )
  | inr (player, known) ↦ (player, ground (arith, known), ground (arith, known))
]

-- The game with the address of the player, where the message has one.
abbrev pub with_address : ℕ → Option Text → Game → Game
with_address player none game = game
with_address player (some address) game = change_player player (set_address address) game

link-players : (player robot : ℕ) (game : Game) → (link player robot game).players ≡ game.players
unfolding link
link-players player robot game = refl

start_if_ready-players :
    (ready : Option Bool) (now : Time) (game : Game)
    → (start_if_ready ready now game).players ≡ game.players
unfolding start_if_ready start begin stop
start_if_ready-players none now game = refl
start_if_ready-players (some false) now game = refl
start_if_ready-players (some true) now game = ground arith

note_address-known :
    (name : Text) (player : ℕ) (address : Option Text) (w : World)
    → access_player name w.game ≡ ok player
    → note_address name address w ≡ ok (record w { game = with_address player address w.game })
unfolding note_address
note_address-known name player none w there = refl
note_address-known name player (some a) w there = rw there refl

pub add_player-robots :
    (name : Text) (game : Game) → (add_player name game).0.all_robots ≡ game.all_robots
unfolding add_player
add_player-robots name game = elim (Option-cases (find name game.players)) [
  | inl e ↦ rw (e, add_player) refl
  | inr (a, e) ↦ rw (e, add_player) refl
]

-- The address is the one that was given, if one was.
abbrev pub HasAddress : Option Text → Player → Type 0
HasAddress none p = Unit
HasAddress (some address) p = p.address ≡ address

-- The map has the player of that name, with the address that was given.
abbrev pub IsKnown : Text → Option Text → Game → Type 0
IsKnown name address game =
    (player : ℕ) × (find name game.players ≡ some player)
    × ((p : Player) × (get_elem? game.all_players player ≡ some p)
        × (p.name ≡ name)
        × HasAddress address p)

pub with_address-player :
    (player : ℕ) (address : Option Text) (game : Game) (p : Player)
    → get_elem? game.all_players player ≡ some p
    → (q : Player) × (get_elem? (with_address player address game).all_players player ≡ some q)
      × (q.name ≡ p.name)
      × (q.robot ≡ p.robot)
      × HasAddress address q
unfolding set_address
with_address-player player none game p there = (p, there, refl, refl, tt)
with_address-player player (some a) game p there = (
  set_address a p,
  get_elem?-modify_self game.all_players player (set_address a) p there,
  refl,
  refl,
  refl,
)

pub with_address-rest :
    (player : ℕ) (address : Option Text) (game : Game)
    → ((with_address player address game).all_robots ≡ game.all_robots)
      × ((with_address player address game).players ≡ game.players)
with_address-rest player none game = (refl, refl)
with_address-rest player (some a) game = (refl, refl)

-- The player once added, of a game that is sound.
pub added :
    (name : Text) (game : Game)
    → IsSound game
    → (player : ℕ) × (access_player name (add_player name game).0 ≡ ok player)
      × ((add_player name game).1 ≡ true)
      × (find name (add_player name game).0.players ≡ some player)
      × ((p : Player) × (get_elem? (add_player name game).0.all_players player ≡ some p)
          × (p.name ≡ name))
unfolding access_player
added name game sound =
    let g = (add_player name game).0 in
    let (player, there, success) = add_player-find name game in
    let known : find name g.players ≡ some player = elim (Option-cases (find name g.players)) [
      | inl gone ↦ absurd (ground (arith, gone, there))
      | inr (a, e) ↦ ground (arith, e, there)
    ] in
    (
      player,
      there,
      success,
      known,
      (add_player-IsSound name game sound).players_named name player known,
    )

-- No robot of the map is the player's, and none waits for a player.
abbrev pub NoRobotFor : Text → Game → Type 0
NoRobotFor name game =
    All (λ e. (belongs_to name game e ≡ false) × (get_is_available e.robot game ≡ false))
      (entries game.robots game.all_robots)

last-Fails :
    (p : Entry → Bool) (q : Entry → Bool) (es : List Entry) (found : Option ℕ)
    → All (λ e. (p e ≡ false) × (q e ≡ false)) es
    → (last p es found ≡ found) × (first q es ≡ none)
last-Fails p q [] found h = (refl, refl)
last-Fails p q (e ∷ es) found ((miss, missed), h) =
    rw (miss, last) (rw (missed, first) (last-Fails p q es found h))

nobody : (name : Text) (game : Game) → NoRobotFor name game → get_robot_for_player name game ≡ none
unfolding get_robot_for_player get_available_robot
nobody name game h =
    let (mine, free) =
      last-Fails (belongs_to name game) (λ e. get_is_available e.robot game)
        (entries game.robots game.all_robots) none h in
    rw (mine, get_robot_for_player) (rw (free, get_available_robot) refl)

-- A player of a sound game with no robot of the map for it: none is the player's, and none waits for
-- a player. The answer is one Goodbye, to the routing id and over the channel of the message. The
-- player is in the map afterwards, with the address if one was given, and the robots are as before.
pub hello_without_robot :
    (cast : Text → Option ℕ) (channel : Channel) (id : Text) (message : Hello) (now : Time)
    (w : World)
    → IsSound w.game
    → NoRobotFor message.name (add_player message.name w.game).0
    → (after : World) × (hello cast channel id message now w ≡ ok after)
      × Answered channel (record { routing_id = id; body = Body.goodbye }) w after
      × IsKnown message.name message.address after.game
      × (after.game.all_robots ≡ w.game.all_robots)
unfolding hello
hello_without_robot cast channel id message now w sound none_there =
    let g = (add_player message.name w.game).0 in
    let (player, known, success, found, (p, there, named)) = added message.name w.game sound in
    let (q, placed, same_name, same_robot, has) =
      with_address-player player message.address g p there in
    let (same_robots, same_players) = with_address-rest player message.address g in
    let m : Outgoing = record { routing_id = id; body = Body.goodbye } in
    let w' : World = record w { game = with_address player message.address g } in
    let kept = reply_message-game channel m w' in
    (
      reply_message channel m w',
      rw (success, nobody message.name g none_there)
          (rw (note_address-known message.name player message.address (record w { game = g }) known)
            refl),
      reply_message-Answered channel m w (with_address player message.address g),
      (player, rw (kept, same_players) found, (q, rw kept placed, same_name ∙ named, has)),
      rw (kept, same_robots) (add_player-robots message.name w.game),
    )

abbrev pub welcoming : Text → Robot → Text → ℕ → Outgoing
welcoming id r address port = record {
  routing_id = id;
  body = Body.welcome (record {
    robot = r.name;
    team = str "team_red";
    id = r.robot_id;
    video_address = address;
    video_port = port;
  });
}

pub linked-there :
    (player robot : ℕ) (game : Game) (r : Robot)
    → get_elem? game.all_robots robot ≡ some r
    → get_elem? (link player robot game).all_robots robot ≡ some (set_player player r)
unfolding link
linked-there player robot game r there =
    get_elem?-modify_self game.all_robots robot (set_player player) r there

welcoming_same :
    (id : Text) (player : ℕ) (r : Robot) (address : Text) (port : ℕ)
    → welcoming id (set_player player r) address port ≡ welcoming id r address port
unfolding set_player
welcoming_same id player r address port = refl

welcome_player-known :
    (cast : Text → Option ℕ) (channel : Channel) (id : Text) (message : Hello) (now : Time)
    (w : World) (robot player : ℕ) (r : Robot) (address : Text) (port : ℕ)
    → access_player message.name w.game ≡ ok player
    → get_elem? w.game.all_robots robot ≡ some r
    → video_of cast (set_player player r) ≡ ok (address, port)
    → welcome_player cast channel id message now robot w
      ≡ ok (
          reply_message channel
            (welcoming id r address port)
            (record w { game = start_if_ready message.ready now (link player robot w.game) }))
unfolding welcome_player
welcome_player-known cast channel id message now w robot player r address port pl there video =
    rw pl (
      rw (linked-there player robot w.game r there) (
        rw video (
          ap
            (λ m. ok (
              reply_message channel m
                (record w { game = start_if_ready message.ready now (link player robot w.game) })))
            (welcoming_same id player r address port))))

access_player-same :
    (name : Text) (f g : Game) → f.players ≡ g.players → access_player name f ≡ access_player name g
unfolding access_player
access_player-same name f g same = rw same refl

pub hello_answers :
    (cast : Text → Option ℕ) (channel : Channel) (id : Text) (message : Hello) (now : Time)
    (w : World) (robot player : ℕ) (r : Robot) (address : Text) (port : ℕ)
    → access_player message.name (add_player message.name w.game).0 ≡ ok player
    → get_robot_for_player message.name (add_player message.name w.game).0 ≡ some robot
    → get_elem? (add_player message.name w.game).0.all_robots robot ≡ some r
    → video_of cast (set_player player r) ≡ ok (address, port)
    → hello cast channel id message now w
      ≡ ok (
          reply_message channel (welcoming id r address port) (record w {
            game = with_address player message.address (
                start_if_ready message.ready now
                  (link player robot (add_player message.name w.game).0));
          }))
unfolding hello
hello_answers cast channel id message now w robot player r address port pl rb there video =
    let known = (add_player message.name w.game).0 in
    let started = start_if_ready message.ready now (link player robot known) in
    let m = welcoming id r address port in
    let greeted = reply_message channel m (record w { game = started }) in
    let kept : greeted.game ≡ started =
      reply_message-game channel m (record w { game = started }) in
    let still : access_player message.name greeted.game ≡ ok player =
      access_player-same message.name greeted.game known (
        ap (λ (g : Game). g.players) kept
        ∙ start_if_ready-players message.ready now (link player robot known)
        ∙ link-players player robot known)
      ∙ pl in
    rw ((add_player-find message.name w.game).2, rb)
      (rw
        (welcome_player-known cast channel id message now (record w { game = known }) robot player r
          address port pl there video)
        (note_address-known message.name player message.address greeted still
          ∙ ap ok (
              ap (λ g. record greeted { game = with_address player message.address g }) kept
              ∙ reply_message-record channel m w started
                  (with_address player message.address started))))
