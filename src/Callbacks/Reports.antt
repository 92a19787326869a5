-- ===== src/Callbacks/Reports.antt =====
-- src/orwell/callbacks/ProcessRobotState.cpp: the contacts and the colours that a robot reports.
pub mod Told
use server_game.Base.{
  ℕ, Bool, true, false, Option, none, some, List, [], ◌∷◌, ◌++◌, any, get_elem?, Result, ok,
  dangling, or_fault, if◌then◌else◌, ◌>>=◌,
}
use server_game.Base.Int.{ℤ}
use server_game.Base.Key.{◌==◌, nat_key}
use server_game.Base.Text.{Text, text_key}
use server_game.Base.StdMap.{find, put}
use server_game.Game.Types.{Game}
use server_game.Game.Item.{get_item_by_rfid}
use server_game.Game.Contact.{robot_is_in_contact_with, robot_drops_contact_with}
use server_game.Game.Detector.{set_colour}
use server_game.Game.Roster.{get_has_robot_by_id}
use server_game.Callbacks.Messages.{
  Status, on, off, Rfid, ServerRobotState, PlayerState, ItemMessage, Body, Outgoing, World,
  publish_message,
}
use server_game.Callbacks.Encode.{encode}

-- The set of the items that a report is about, and the game.
abbrev pub Visit : Type 0
Visit = List ℕ × Game

abbrev pub add_visited : ℕ → List ℕ → List ℕ
add_visited item visited = if any (λ i. i == item) visited then visited else visited ++ (item ∷ [])

abbrev pub touch : Status → Text → ℕ → Game → Result Game
touch on id item game = robot_is_in_contact_with id item game
touch off id item game = ok (robot_drops_contact_with id item game)

-- ProcessRobotState::lookForRfid
unfoldable pub look_for_rfid : Text → List Rfid → Visit → Result Visit
unfolding get_item_by_rfid
look_for_rfid id [] visit = ok visit
look_for_rfid id (r ∷ rest) (visited, game) = elim (get_item_by_rfid r.rfid game.items) [
  | none ↦ look_for_rfid id rest (visited, game)
  | some item ↦ touch r.status id item game >>= λ game'.
      look_for_rfid id rest (add_visited item visited, game')
]

abbrev pub visit_found : Option ℕ → List ℕ → List ℕ
visit_found none visited = visited
visit_found (some item) visited = add_visited item visited

-- ProcessRobotState::lookForColour
unfoldable pub look_for_colour : Text → List ℤ → Visit → Result Visit
look_for_colour id [] visit = ok visit
look_for_colour id (code ∷ rest) (visited, game) = elim (find id game.flag_detectors_by_robot) [
  | none ↦ look_for_colour id rest (visited, game)
  | some detector ↦ do
    (detector', game', item) ← set_colour code detector game
    look_for_colour id rest (
      visit_found item visited,
      record game' { flag_detectors_by_robot = put id detector' game'.flag_detectors_by_robot },
    )
]

-- The state of one item for the player. The first one has what the robot measured with it.
abbrev pub item_state : ServerRobotState → Bool → ItemMessage → PlayerState
item_state report is_first item =
    if is_first
    then record { battery = report.battery; ultrasound = report.ultrasound; item = some item }
    else record { battery = none; ultrasound = none; item = some item }

abbrev pub player_message : Text → PlayerState → Outgoing
player_message id state = record { routing_id = id; body = Body.player_state state }

-- The loop over the set, in the order of the pointers.
unfoldable pub tell : Text → ServerRobotState → Bool → List ℕ → World → Result World
unfolding encode
tell id report is_first [] w = ok w
tell id report is_first (item ∷ rest) w = do
  i ← or_fault dangling (get_elem? w.game.items.all_items item)
  tell id report false rest
      (publish_message (player_message id (item_state report is_first (encode i))) w)

abbrev pub tell_all : Text → ServerRobotState → List ℕ → World → Result World
tell_all id report [] w = ok (
    publish_message
      (player_message id
        (record { battery = report.battery; ultrasound = report.ultrasound; item = none }))
      w)
tell_all id report (item ∷ rest) w = tell id report true (item ∷ rest) w

-- The order of the pointers in the set is that of the addresses of the items.
module _ (by_address : List ℕ → List ℕ) where
  -- ProcessRobotState::execute
  unfoldable pub robot_state : Text → ServerRobotState → World → Result World
  robot_state id report w =
      if get_has_robot_by_id id w.game
      then (do
        touched ← look_for_rfid id report.rfids ([], w.game)
        (visited, game) ← look_for_colour id report.colours touched
        tell_all id report (by_address visited) (record w { game = game }))
      else ok w
