-- ===== src/Game/Contact.antt =====
-- src/orwell/game/Contact.cpp, and the contacts that the game keeps, one for each robot id.
pub mod Steps
pub mod Captures
use server_game.Base.{
  ℕ, Bool, true, false, Option, none, some, List, [], ◌∷◌, ◌++◌, get_elem?, modify, Result, ok, err,
  logic_error, dangling, or_fault, if◌then◌else◌, ◌>>=◌,
}
use server_game.Base.Int.{◌+ℤ◌, ltb_ℤ}
use server_game.Base.Text.{Text, text_key}
use server_game.Base.StdMap.{Map, find, put, erase}
use server_game.Game.Types.{Contact, Game, Item, Time, StepSignal, staying_alive, silence_i_kill_u}
use server_game.Game.Team.{deref}
use server_game.Game.Item.{start_capture, abort_capture, capture, update_item}

abbrev pub change_item : ℕ → (Item → Item) → Game → Game
change_item item f game = record game { items = update_item item f game.items }

-- Contact::Contact, which starts the capture for the team of the robot.
unfoldable pub make : Time → Time → ℕ → ℕ → Game → Result (Contact × Game)
make start_time timer_duration robot item game = do
  r ← or_fault dangling (get_elem? game.all_robots robot)
  team ← deref r.team game
  ok (
    record {
      robot = robot;
      item = item;
      stop_time = start_time +ℤ timer_duration;
      finished = false;
    },
    change_item item (start_capture team.name) game,
  )

-- Contact::~Contact
unfoldable pub destroy : Contact → Game → Game
destroy contact game =
    if contact.finished then game else change_item contact.item abort_capture game

-- Team::captureItem: the team scores and the item changes hands.
unfoldable pub capture_item : ℕ → ℕ → Game → Result Game
capture_item team item game = do
  t ← deref team game
  i ← or_fault dangling (get_elem? game.items.all_items item)
  let (i', t') = capture i t
  ok (change_item item (λ _. i') (record game { all_teams = modify game.all_teams team (λ _. t') }))

-- Contact::step
unfoldable pub step : Contact → Time → Game → Result (StepSignal × Contact × Game)
step contact current_time game =
    if contact.finished
    then err logic_error
    else if ltb_ℤ contact.stop_time current_time
    then (do
      r ← or_fault dangling (get_elem? game.all_robots contact.robot)
      game' ← capture_item r.team contact.item game
      ok (silence_i_kill_u, record contact { finished = true }, game'))
    else ok (staying_alive, contact, game)

-- What is left of a contact after its step: it is erased, and so destroyed, or it stays.
abbrev pub settle : Text → StepSignal × Contact × Game → Map Text Contact × Game
settle id (silence_i_kill_u, contact, game) = ([], destroy contact game)
settle id (staying_alive, contact, game) = ((id, contact) ∷ [], game)

-- The loop over the map, with the entries that it leaves there. A step does not touch the map.
unfoldable pub step_all : Map Text Contact → Time → Game → Result (Map Text Contact × Game)
step_all [] current_time game = ok ([], game)
step_all ((id, contact) ∷ rest) current_time game = do
  stepped ← step contact current_time game
  let (now, game') = settle id stepped
  (later, game'') ← step_all rest current_time game'
  ok (now ++ later, game'')

unfoldable pub handle_contacts : Game → Result Game
handle_contacts game = do
  (left, game') ← step_all game.contacts game.time game
  ok (record game' { contacts = left })

-- The contact that the robot had is destroyed once the new one has been made.
unfoldable pub robot_is_in_contact_with : Text → ℕ → Game → Result Game
robot_is_in_contact_with id item game = do
  robot ← or_fault dangling (find id game.robots_by_id)
  (contact, game') ← make game.time game.rules.time_to_capture robot item game
  let game'' = record game' { contacts = put id contact game.contacts }
  ok (elim (find id game.contacts) [ none ↦ game'' | some old ↦ destroy old game'' ])

-- The item is named in a log alone.
unfoldable pub robot_drops_contact_with : Text → ℕ → Game → Game
robot_drops_contact_with id item game = elim (find id game.contacts) [
  | none ↦ game
  | some old ↦ destroy old (record game { contacts = erase id game.contacts })
]
