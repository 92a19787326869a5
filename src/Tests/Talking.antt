-- ===== src/Tests/Talking.antt =====
-- Examples for the messages.
use server_game.Base.{
  ℕ, Bool, List, ◌⊎◌, ◌≢◌, inl, ◌≡◌, refl, true, false, Option, none, some, [], ◌∷◌, ◌++◌, ok,
  get_elem?, arith,
}
use server_game.Base.Int.{pos}
use server_game.Base.Text.{Text, str, compare_text, text_key}
use server_game.Base.StdMap.{find, put, insert}
use server_game.Game.Types.{Game, Player, Robot}
use server_game.Game.Team.{deref}
use server_game.Game.Roster.{
  get_robot_for_player, add_player, get_robot_without_real_robot, entries, get_player,
  get_available_robot, get_is_available, set_has_real_robot, set_video_url,
}
use server_game.Com.RawMessage.{RawMessage}
use server_game.Com.Socket.{
  Received, nothing, came, Sent, accepted, send_error, Zmq, receive, receive_string, send,
  send_string,
}
use server_game.Com.Socket.Exchange.{
  keeping, Takes, Puts, Ordered, sends, receives, Spaceless, received, taken, finally, exchanged,
}
use server_game.Com.Url.{make}
use server_game.Com.Url.Consistent.{host_set, port_set, apply_all, apply_all_consistent}
use server_game.Callbacks.Messages.{
  publish, reply, Timing, Hello, Register, Input, World, reply_message, Answered, Body,
}
use server_game.Callbacks.Pings.{ping, pong, this_logger}
use server_game.Callbacks.Pings.Elapsed.{last_timings, stamped_timing, pong-ping}
use server_game.Callbacks.Players.{hello, register}
use server_game.Callbacks.Players.Registered.{register_again, told, with_url}
use server_game.Callbacks.Players.Greeted.{hello_without_robot, welcoming, HasAddress, IsKnown}
use server_game.Callbacks.Players.Chosen.{IsFor}
use server_game.Callbacks.Players.Starting.{Starts, Stays}
use server_game.Base.Pointers.{Named, Named-put}
use server_game.Game.Sound.{IsSound, robot_name, robot_id, player_name, team_name}
use server_game.Callbacks.Players.Linked.{hello_with_robot}
use server_game.Tests.{a_game, a_robot, red, red_team, blue_team, gipsy}

abbrev pub a_message : RawMessage
a_message = record { routing_id = str "me"; type = str "Ping"; payload = str "a b " }

-- A pair of sockets that holds one text, and refuses a further one until it is received.
abbrev narrow_recv : Bool → List Text → Received × List Text
narrow_recv blocking [] = (nothing, [])
narrow_recv blocking (text ∷ texts) = (came text, texts)

abbrev narrow_send : Text → List Text → Sent × List Text
narrow_send text [] = (accepted, text ∷ [])
narrow_send text (first ∷ texts) = (send_error, first ∷ texts)

abbrev narrow : Zmq (List Text)
narrow = record { recv = narrow_recv; send = narrow_send }

abbrev narrow_recv-Takes :
    (blocking : Bool) (w : List Text)
    → Takes keeping (narrow_recv blocking w).0 w (narrow_recv blocking w).1
narrow_recv-Takes blocking [] = refl
narrow_recv-Takes blocking (text ∷ texts) = refl

abbrev narrow_send-Puts :
    (text : Text) (w : List Text)
    → Puts keeping text (narrow_send text w).0 w (narrow_send text w).1
narrow_send-Puts text [] = refl
narrow_send-Puts text (first ∷ texts) = refl

abbrev narrow-Ordered : Ordered keeping narrow
narrow-Ordered = record {
  on_the_way = λ w. w;
  recv_takes = narrow_recv-Takes;
  send_puts = narrow_send-Puts;
}

abbrev a_message-Spaceless : Spaceless (sends a_message)
a_message-Spaceless = (
  (omega arith, (omega arith, tt)),
  (omega arith, (omega arith, (omega arith, (omega arith, tt)))),
)

-- The first message is accepted, the second is not, and the first is received.
exchanged_example :
    received narrow (sends a_message ∷ sends a_message ∷ receives false a_message ∷ []) [] ++ []
    ≡ a_message ∷ []
unfolding received finally taken receive receive_string send send_string
exchanged_example =
    exchanged narrow keeping narrow-Ordered
      (sends a_message ∷ sends a_message ∷ receives false a_message ∷ []) []
      (a_message-Spaceless, (a_message-Spaceless, (tt, tt)))

-- A cast that writes every port alike.
abbrev no_port : ℕ → Text
no_port port = str "80"

apply_all_consistent_example :
    (apply_all no_port
      (host_set [] ∷ port_set 80 ∷ [])
      (make no_port (str "tcp") (str "*") 9000)).url
    ≡ str "tcp://*:80"
apply_all_consistent_example =
    (apply_all_consistent no_port (host_set [] ∷ port_set 80 ∷ []) (str "tcp") (str "*") 9000).3

abbrev pub a_world : World
a_world = record { game = a_game; published = []; replied = [] }

abbrev pub foreign_timing : Timing
foreign_timing = record { logger = str "robot"; timestamp = some 5; elapsed = none }

abbrev pub own_timing : Timing
own_timing = record { logger = this_logger; timestamp = none; elapsed = none }

pong-ping_example :
    last_timings
      (pong
        (str "b")
        130
        (last_timings (ping (str "a") 100 (foreign_timing ∷ []) a_world).published
          ++ (foreign_timing ∷ []))
        a_world).published
    ≡ foreign_timing ∷ stamped_timing 100 30 ∷ foreign_timing ∷ []
unfolding compare_text
pong-ping_example =
    pong-ping (str "a") (str "b") 100 130 (foreign_timing ∷ []) (foreign_timing ∷ []) a_world
      a_world (refl, tt) (refl, tt) (omega arith) (omega arith)

abbrev pub a_shot : Input
a_shot = record { content = str "x"; weapon1 = true }

abbrev pub a_registration : Register
a_registration = record { temporary_robot_id = str "tmp"; video_url = str "first" }

abbrev unreal_robot : Robot
unreal_robot = record a_robot { has_real_robot = false }

abbrev before_registration : World
before_registration = record a_world { game = record a_game { all_robots = unreal_robot ∷ [] } }

abbrev registered_game : Game
registered_game = record before_registration.game { registered_robots = (str "tmp", gipsy) ∷ [] }

register_again_example :
    (first second : World) × (register publish (str "me") a_registration before_registration
      ≡ ok first)
    × (register publish (str "me") (record a_registration { video_url = str "second" }) first
        ≡ ok second)
    × (second
        ≡ reply_message publish (told (str "me") unreal_robot red_team) (
            reply_message publish (told (str "me") unreal_robot red_team) (record a_world {
              game = with_url (str "second") 0 (with_url (str "first") 0 registered_game);
            })))
    × (get_elem? second.game.all_robots 0 ≡ some (record a_robot { video_url = str "second" }))
unfolding get_robot_without_real_robot find put compare_text entries deref set_has_real_robot
    set_video_url
register_again_example =
    register_again publish (str "me") a_registration before_registration registered_game 0
      unreal_robot red_team (str "second") (tt, tt) refl refl refl

abbrev pub ann : Hello
ann = record { name = str "ann"; ready = some true; address = some (str "here") }

-- Every text is cast to the same port.
abbrev pub to_port : Text → Option ℕ
to_port text = some 80

no_name {ℓ} : {A : Type ℓ} (name : A → Text) → Named name [] []
unfolding find
no_name name n a e = cc

a_game-IsSound : IsSound a_game
unfolding put compare_text
a_game-IsSound = record {
  robots_sorted = (tt, tt);
  ids_sorted = (tt, tt);
  players_sorted = tt;
  teams_sorted = ((refl, tt), (tt, tt));
  robots_named = Named-put robot_name [] [] a_robot (no_name robot_name);
  ids_named = Named-put robot_id [] [] a_robot (no_name robot_id);
  players_named = no_name player_name;
  teams_named =
      Named-put team_name ((red, 0) ∷ []) (red_team ∷ []) blue_team
        (Named-put team_name [] [] red_team (no_name team_name));
}

hello_with_robot_example :
    (after : World) × (player : ℕ) × (hello to_port reply (str "me") ann (pos 7) a_world ≡ ok after)
    × Answered reply (welcoming (str "me") a_robot (str "here") 80) a_world after
    × IsFor (str "ann") (add_player (str "ann") a_game).0 a_robot
    × (get_elem? after.game.all_robots 0 ≡ some (record a_robot { player = some player }))
    × ((j : ℕ) → ◌≢◌ {A = ℕ} 0 j → get_elem? after.game.all_robots j ≡ get_elem? (a_robot ∷ []) j)
    × (find (str "ann") after.game.players ≡ some player)
    × ((q : Player) × (get_elem? after.game.all_players player ≡ some q)
        × (q.name ≡ str "ann")
        × (q.robot ≡ some 0)
        × HasAddress (some (str "here")) q)
    × (Starts (some true) (pos 7) after.game ⊎ Stays (some true) a_game after.game)
unfolding add_player find compare_text insert put get_robot_for_player get_player entries
    get_available_robot get_is_available
hello_with_robot_example =
    hello_with_robot to_port reply (str "me") ann (pos 7) a_world 0 a_robot (str "here") 80
      a_game-IsSound refl refl
      (inl (str "80", refl, (omega arith, (omega arith, (omega arith, (omega arith, tt)))), refl))

abbrev robotless : World
robotless = record a_world { game = record a_game { robots = [] } }

robotless-IsSound : IsSound robotless.game
unfolding find
robotless-IsSound = record {
  robots_sorted = tt;
  ids_sorted = a_game-IsSound.ids_sorted;
  players_sorted = tt;
  teams_sorted = a_game-IsSound.teams_sorted;
  robots_named = λ n a e. cc;
  ids_named = a_game-IsSound.ids_named;
  players_named = a_game-IsSound.players_named;
  teams_named = a_game-IsSound.teams_named;
}

hello_without_robot_example :
    (after : World) × (hello to_port reply (str "me") ann (pos 7) robotless ≡ ok after)
    × Answered reply (record { routing_id = str "me"; body = Body.goodbye }) robotless after
    × IsKnown (str "ann") (some (str "here")) after.game
    × (after.game.all_robots ≡ a_robot ∷ [])
unfolding add_player find compare_text entries
hello_without_robot_example =
    hello_without_robot to_port reply (str "me") ann (pos 7) robotless robotless-IsSound tt
