-- ===== src/Game/Roster/Membership.antt =====
-- What the addition of a robot leaves in the maps, by name and by id.
use server_game.Base.{
  ℕ, ◌<◌, ◌≡◌, ◌≢◌, true, false, none, some, [], arith, get_elem?, get_elem?-append_new, length,
  Result, ok, if◌then◌else◌,
}
use server_game.Base.Int.{pos}
use server_game.Base.Text.{Text, text_key, text_iff}
use server_game.Base.StdMap.{Map, find, insert, find-insert}
use server_game.Game.Types.{Game, outside}
use server_game.Game.Item.{is_empty}
use server_game.Game.Roster.{add_robot, enter_robot, make_robot, make_detector, get_new_robot_id}

find-insert_new {ℓ} :
    {V : Type ℓ} (k : Text) (v : V) (m : Map Text V)
    → find k m ≡ none
    → find k (insert k v m) ≡ some v
find-insert_new k v m new = ground (arith, find-insert k k v m, new, text_iff k k)

find-insert_old {ℓ} :
    {V : Type ℓ} (k : Text) (v w : V) (m : Map Text V)
    → find k m ≡ some w
    → find k (insert k v m) ≡ some w
find-insert_old k v w m old = ground (arith, find-insert k k v m, old)

find-insert_ne {ℓ} :
    {V : Type ℓ} (k j : Text) (v : V) (m : Map Text V) → j ≢ k → find j (insert k v m) ≡ find j m
find-insert_ne k j v m ne = ground (arith, find-insert k j v m, text_iff j k)

-- The id that a call of `addRobot` settles on.
abbrev pub chosen_id : Text → Game → Result Text
chosen_id id game = if is_empty id then get_new_robot_id game else ok id

module _ (name team id id' : Text) (video_port command_port t : ℕ) (game : Game)
    (new_name : find name game.robots ≡ none) (team_there : find team game.teams ≡ some t)
    (chosen : chosen_id id game ≡ ok id') where
  abbrev new_robot : ℕ
  new_robot = length game.all_robots

  added :
      add_robot name team video_port command_port id game
      ≡ ok (enter_robot name t video_port command_port id' game, true)
  unfolding add_robot
  added = ground (arith, new_name, chosen, team_there)

  -- A robot with a new name and a new id, in a team that is there: it is added, found by its name
  -- and by its id, with a flag detector that has seen no item, with its ports, and without a real
  -- robot, an url and a player. What is found by any other name or id stays.
  pub add_robot_found :
      find id' game.robots_by_id ≡ none
      → find id' game.flag_detectors_by_robot ≡ none
      → (after : Game) × (add_robot name team video_port command_port id game ≡ ok (after, true))
        × (find name after.robots ≡ some new_robot)
        × (find id' after.robots_by_id ≡ some new_robot)
        × (find id' after.flag_detectors_by_robot
            ≡ some (record {
              colour_code = pos 1;
              state = outside;
              robot = new_robot;
              last_item = none;
            }))
        × (get_elem? after.all_robots new_robot
            ≡ some (record {
              name = name;
              robot_id = id';
              team = t;
              video_url = [];
              video_retransmission_port = video_port;
              server_command_port = command_port;
              has_real_robot = false;
              player = none;
            }))
        × ((n : Text) → n ≢ name → find n after.robots ≡ find n game.robots)
        × ((n : Text) → n ≢ id' → find n after.robots_by_id ≡ find n game.robots_by_id)
  unfolding enter_robot
  add_robot_found new_id new_detector = (
    enter_robot name t video_port command_port id' game,
    added,
    find-insert_new name new_robot game.robots new_name,
    find-insert_new id' new_robot game.robots_by_id new_id,
    find-insert_new id' (make_detector new_robot) game.flag_detectors_by_robot new_detector,
    get_elem?-append_new game.all_robots (make_robot name id' t video_port command_port),
    λ n ne. find-insert_ne name n new_robot game.robots ne,
    λ n ne. find-insert_ne id' n new_robot game.robots_by_id ne,
  )

  -- A robot with a new name whose id is in the map by id already, as that of a robot that was
  -- removed is: it is added, and has that id, but by that id the other robot is found still.
  pub add_robot_shadowed :
      (old : ℕ)
      → find id' game.robots_by_id ≡ some old
      → old < new_robot
      → (after : Game) × (add_robot name team video_port command_port id game ≡ ok (after, true))
        × (find name after.robots ≡ some new_robot)
        × (get_elem? after.all_robots new_robot
            ≡ some (make_robot name id' t video_port command_port))
        × (find id' after.robots_by_id ≡ some old)
        × (old ≢ new_robot)
  unfolding enter_robot
  add_robot_shadowed old there before = (
    enter_robot name t video_port command_port id' game,
    added,
    find-insert_new name new_robot game.robots new_name,
    get_elem?-append_new game.all_robots (make_robot name id' t video_port command_port),
    find-insert_old id' new_robot old game.robots_by_id there,
    omega arith,
  )
