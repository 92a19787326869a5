-- ===== src/Tests/Serving.antt =====
-- Examples for the sockets' turns and for a report of a robot.
use server_game.Base.{◌≡◌, refl, true, none, some, [], ◌∷◌, ok}
use server_game.Base.Int.{pos, ◌+ℤ◌}
use server_game.Base.Text.{str, compare_text, text_key}
use server_game.Base.StdMap.{find, put}
use server_game.Game.Types.{Game, started}
use server_game.Game.Team.{deref}
use server_game.Game.Roster.{get_has_robot_by_id}
use server_game.Callbacks.Messages.{ServerRobotState, World}
use server_game.Callbacks.Pings.{ping}
use server_game.Callbacks.Decider.{Externals, process}
use server_game.Server.{Server, publish_first, process_message_if_available}
use server_game.Server.Turns.{both_served}
use server_game.Game.Contact
use server_game.Game.Contact.{robot_is_in_contact_with}
use server_game.Game.Item.{start_capture, get_item_by_colour}
use server_game.Game.Detector.{set_colour, enter}
use server_game.Callbacks.Encode.{encode}
use server_game.Callbacks.Reports.{robot_state, look_for_rfid, look_for_colour, player_message}
use server_game.Callbacks.Reports.Told.{robot_state_told, telling}
use server_game.Base.StdMap.Order.{IsSorted}
use server_game.Callbacks.Encode.Snapshot.{timer_tells}
use server_game.Tests.{blue}
use server_game.Tests.{red, touched_game, entered_detector, flag, a_game, robot_0}
use server_game.Tests.Talking.{
  a_message, a_world, foreign_timing, own_timing, a_registration, ann, to_port, a_shot,
}

-- A decoder under which every ping has the same timings.
abbrev pub externals : Externals
externals = record {
  parse_hello = λ _. ann;
  parse_input = λ _. a_shot;
  parse_robot_state = λ _. record { rfids = []; colours = []; battery = none; ultrasound = none };
  parse_ping = λ _. foreign_timing ∷ [];
  parse_pong = λ _. own_timing ∷ [];
  parse_register = λ _. a_registration;
  lexical_cast = to_port;
  by_address = λ items. items;
}

abbrev first_world : World
first_world = ping (str "me") 7 (foreign_timing ∷ []) a_world

abbrev second_world : World
second_world = ping (str "me") 8 (foreign_timing ∷ []) first_world

both_served_example :
    (middle : Server) × (process_message_if_available externals (pos 7) 7 (record {
      world = a_world;
      pulled = a_message ∷ [];
      asked = a_message ∷ [];
      channels = publish_first;
    })
      ≡ ok (middle, true))
    × (middle.asked ≡ a_message ∷ [])
    × (process_message_if_available externals (pos 8) 8 middle
        ≡ ok (
          record { world = second_world; pulled = []; asked = []; channels = publish_first },
          true,
        ))
unfolding process compare_text
both_served_example =
    both_served externals (pos 7) (pos 8) 7 8 a_message a_message [] [] a_world first_world
      second_world refl refl

abbrev a_report : ServerRobotState
a_report = record {
  rfids = [];
  colours = pos 2 ∷ [];
  battery = some (str "full");
  ultrasound = none;
}

abbrev reported_game : Game
reported_game = record touched_game { flag_detectors_by_robot = (robot_0, entered_detector) ∷ [] }

robot_state_told_example :
    robot_state (λ items. items) robot_0 a_report a_world
    ≡ ok (
        telling
          (player_message robot_0 (record {
            battery = some (str "full");
            ultrasound = none;
            item = some (encode (record flag { capturing_team = red; capture_state = started }));
          })
            ∷ [])
          (record a_world { game = reported_game }))
unfolding get_has_robot_by_id look_for_rfid look_for_colour find put compare_text set_colour
    robot_is_in_contact_with deref start_capture get_item_by_colour Contact.make ◌+ℤ◌ enter
robot_state_told_example =
    robot_state_told (λ items. items) robot_0 a_report a_world ([], a_game) (0 ∷ [], reported_game)
      (record flag { capturing_team = red; capture_state = started } ∷ []) refl refl refl refl

a_game-IsSorted : IsSorted a_game.teams
unfolding compare_text
a_game-IsSorted = ((refl, tt), (tt, tt))

timer_tells_example : (timer_tells a_world a_game-IsSorted).0.teams ≡ (blue, 9) ∷ (red, 4) ∷ []
unfolding compare_text
timer_tells_example = (timer_tells a_world a_game-IsSorted).6
