-- ===== src/Game/Detector.antt =====
-- src/orwell/game/item/FlagDectector.cpp: which flag a robot stands on, from the colours that its
-- sensor reports. The time of a report is not used there. The contact handler is the game.
pub mod Machine
pub mod Contacts
use server_game.Base.{
  ℕ, Bool, true, false, Option, none, some, get_elem?, Result, ok, dangling, or_fault,
  if◌then◌else◌, ◌>>=◌,
}
use server_game.Base.Int.{ℤ, pos, int_key}
use server_game.Base.Key.{◌==◌}
use server_game.Game.Types.{
  FlagDetector, Game, States, outside, frontier, unknown_from_frontier, inside,
  transition_from_inside,
}
use server_game.Game.Item.{get_item_by_colour}
use server_game.Game.Contact.{robot_is_in_contact_with, robot_drops_contact_with}

abbrev pub frontier_colour_code : ℤ
frontier_colour_code = pos 1

-- What a case of the switch leaves: the detector, the game, and whether the item changed.
abbrev pub Outcome : Type 0
Outcome = Result (FlagDetector × Game × Bool)

-- The item is entered, and the game is told.
unfoldable pub enter : ℤ → ℕ → FlagDetector → Game → Outcome
enter code item detector game = do
  robot ← or_fault dangling (get_elem? game.all_robots detector.robot)
  game' ← robot_is_in_contact_with robot.robot_id item game
  ok (record detector { state = inside; last_item = some item; colour_code = code }, game', true)

-- Back on the frontier: the game is told of the item that is left, if there is one.
unfoldable pub leave : FlagDetector → Game → Outcome
leave detector game = elim detector.last_item [
  | none ↦ ok (out, game, false)
  | some item ↦ or_fault dangling (get_elem? game.all_robots detector.robot) >>= λ robot.
      ok (out, robot_drops_contact_with robot.robot_id item game, false)
]
  where
    out : FlagDetector
    out = record detector { state = frontier; colour_code = frontier_colour_code; last_item = none }

-- One function for each case of the switch.
from_outside : ℤ → FlagDetector → Game → Outcome
from_outside code detector game =
    if frontier_colour_code == code
    then ok (record detector { state = frontier }, game, false)
    else ok (detector, game, false)

from_frontier : ℤ → FlagDetector → Game → Outcome
from_frontier code detector game = elim (get_item_by_colour code game.items) [
  | some item ↦ enter code item detector game
  | none ↦ ok (record detector { state = unknown_from_frontier }, game, false)
]

from_unknown : ℤ → FlagDetector → Game → Outcome
from_unknown code detector game = elim (get_item_by_colour code game.items) [
  | some item ↦ elim detector.last_item [
    | some last ↦ ok (record detector { state = inside; colour_code = code }, game, false)
    | none ↦ enter code item detector game
  ]
  | none ↦ ok (detector, game, false)
]

from_inside : ℤ → FlagDetector → Game → Outcome
from_inside code detector game =
    if frontier_colour_code == code
    then leave detector game
    else if code == detector.colour_code
    then ok (detector, game, false)
    else ok (record detector { state = transition_from_inside }, game, false)

from_transition : ℤ → FlagDetector → Game → Outcome
from_transition code detector game =
    if code == detector.colour_code
    then elim detector.last_item [
      | some item ↦ ok (record detector { state = inside }, game, false)
      | none ↦ ok (detector, game, false)
    ]
    else if frontier_colour_code == code
    then leave detector game
    else ok (detector, game, false)

unfoldable pub react : States → ℤ → FlagDetector → Game → Outcome
unfolding from_outside from_frontier from_unknown from_inside from_transition
react outside = from_outside
react frontier = from_frontier
react unknown_from_frontier = from_unknown
react inside = from_inside
react transition_from_inside = from_transition

-- The item is handed out when it has changed.
unfoldable pub set_colour : ℤ → FlagDetector → Game → Result (FlagDetector × Game × Option ℕ)
unfolding react
set_colour code detector game = do
  (detector', game', changed) ← react detector.state code detector game
  ok (detector', game', if changed then detector'.last_item else none)
