-- ===== src/Application/Compare.antt =====
-- The comparisons of parameters in src/orwell/Application.cpp, with the ones of Landmark.cpp,
-- Coordinates.cpp and RGBColour.cpp that they call.
pub mod Blind
use server_game.Base.{
  ℕ, Bool, true, false, Option, none, some, List, [], ◌∷◌, length, if◌then◌else◌, ◌&&◌, not,
}
use server_game.Base.Int.{ℤ, int_key}
use server_game.Base.Key.{Key, ◌==◌, nat_key}
use server_game.Base.Text.{Text, text_key}
use server_game.Base.StdMap.{Map, find}
use server_game.Game.Types.{Coordinates, RgbColour, Landmark}
use server_game.Application.Options.{Options, Parameters, RobotEntry, ItemEntry}

-- `==` on two bools, two `boost::optional`, and two containers of one type.
abbrev pub same_bool : Bool → Bool → Bool
same_bool true b = b
same_bool false b = not b

abbrev pub same_option {ℓ} : {A : Type ℓ} → (A → A → Bool) → Option A → Option A → Bool
same_option eq none none = true
same_option eq none (some b) = false
same_option eq (some a) none = false
same_option eq (some a) (some b) = eq a b

abbrev pub same_list {ℓ} : {A : Type ℓ} → (A → A → Bool) → List A → List A → Bool
same_list eq [] [] = true
same_list eq [] (y ∷ ys) = false
same_list eq (x ∷ xs) [] = false
same_list eq (x ∷ xs) (y ∷ ys) = eq x y && same_list eq xs ys

unfoldable pub same_coordinates : Coordinates → Coordinates → Bool
same_coordinates a b = (a.x == b.x) && (a.y == b.y)

-- RGBColour::operator==
unfoldable pub same_colour : RgbColour → RgbColour → Bool
same_colour a b = (a.r == b.r) && ((a.g == b.g) && (a.b == b.b))

-- Landmark::operator==
unfoldable pub same_landmark : Landmark → Landmark → Bool
unfolding same_coordinates same_colour
same_landmark a b = same_coordinates a.position b.position && same_colour a.colour b.colour

unfoldable pub same_robot : RobotEntry → RobotEntry → Bool
same_robot a b = (a.name == b.name) && (a.team == b.team)

-- The early returns in their order.
unfoldable pub same_item : ItemEntry → ItemEntry → Bool
same_item a b =
    if not (a.name == b.name)
    then false
    else if not (a.type == b.type)
    then false
    else if not (same_list ◌==◌ a.rfids b.rfids)
    then false
    else if not (a.colour == b.colour)
    then false
    else true

-- The loop over the entries of the left map, each of which is looked up in the right one.
unfoldable pub same_entries {ℓ} : {V : Type ℓ} → (V → V → Bool) → Map Text V → Map Text V → Bool
same_entries eq [] right = true
same_entries eq ((key, v) ∷ rest) right = elim (find key right) [
  | none ↦ false
  | some w ↦ elim (eq v w) [ true ↦ same_entries eq rest right | false ↦ false ]
]

-- The sizes first: the loop is not entered where they differ.
unfoldable pub same_map {ℓ} : {V : Type ℓ} → (V → V → Bool) → Map Text V → Map Text V → Bool
unfolding same_entries
same_map eq left right = (length left == length right) && same_entries eq left right

-- operator== on Parameters, with the conjuncts of its `return`.
unfoldable pub same_parameters : Parameters → Parameters → Bool
unfolding same_map
same_parameters a b =
    let o = a.options in
    let p = b.options in
    same_option ◌==◌ o.puller_port p.puller_port
    && (same_option ◌==◌ o.publisher_port p.publisher_port
        && (same_option ◌==◌ o.agent_port p.agent_port
            && (same_list ◌==◌ a.video_ports b.video_ports
                && (same_option ◌==◌ o.tick_interval p.tick_interval
                    && (same_option ◌==◌ o.rc_file_path p.rc_file_path
                        && (same_option ◌==◌ o.game_file_path p.game_file_path
                            && (same_option same_bool o.dry_run p.dry_run
                                && (same_option same_bool o.broadcast p.broadcast
                                    && (same_map same_robot a.robots b.robots
                                        && (same_map same_item a.items b.items
                                            && (same_list ◌==◌ a.teams b.teams
                                                && (same_list same_landmark a.map_limits
                                                      b.map_limits
                                                    && same_option ◌==◌ o.broadcast_port
                                                        p.broadcast_port))))))))))))

-- operator!=
unfoldable pub differ : Parameters → Parameters → Bool
unfolding same_parameters
differ a b = not (same_parameters a b)
