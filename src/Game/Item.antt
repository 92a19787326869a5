-- ===== src/Game/Item.antt =====
-- src/orwell/game/Item.cpp and src/orwell/game/item/Flag.cpp: the items of the program, kept in
-- static members, and the capture of one of them.
use server_game.Base.{
  ℕ, Bool, true, false, Option, none, some, List, [], ◌∷◌, ◌++◌, length, modify, map, if◌then◌else◌,
  ◌&&◌, not,
}
use server_game.Base.Int.{ℤ, negsuc, int_key}
use server_game.Base.Key.{◌==◌}
use server_game.Base.Text.{Text, str, text_key}
use server_game.Base.StdMap.{find, put}
use server_game.Game.Types.{
  Item, Kind, Registry, Ruleset, Team, Duration, pending, started, succeeded, failed,
}
use server_game.Game.Team.{increase_score}

-- The colour code of an item that has none.
abbrev pub no_colour : ℤ
no_colour = negsuc 0

-- Flag::Flag over Item::Item, by RFIDs.
abbrev pub make_by_rfids : Text → List Text → Duration → ℕ → Item
make_by_rfids name tags time_to_capture points = record {
  kind = Kind.rfids;
  name = name;
  tags = tags;
  colour_code = no_colour;
  owning_team = [];
  capturing_team = [];
  capture_state = pending;
  time_to_capture = time_to_capture;
  points_on_capture = points;
}

-- Flag::Flag over Item::Item, by a colour.
abbrev pub make_by_colour : Text → ℤ → Duration → ℕ → Item
make_by_colour name code time_to_capture points = record {
  kind = Kind.colour;
  name = name;
  tags = [];
  colour_code = code;
  owning_team = [];
  capturing_team = [];
  capture_state = pending;
  time_to_capture = time_to_capture;
  points_on_capture = points;
}

-- The vector of all items is not emptied.
unfoldable pub initialize_static_maps : Registry → Registry
initialize_static_maps reg = record reg { items_by_rfid = []; items_by_colour = [] }

unfoldable pub get_item_by_rfid : Text → Registry → Option ℕ
get_item_by_rfid rfid reg = find rfid reg.items_by_rfid

unfoldable pub get_item_by_colour : ℤ → Registry → Option ℕ
get_item_by_colour code reg = find code reg.items_by_colour

-- The loop over the RFIDs of a new item: one that another item has is left to it.
unfoldable pub add_rfids : List Text → ℕ → Registry → Registry
add_rfids [] item reg = reg
add_rfids (rfid ∷ rest) item reg = add_rfids rest item (elim (find rfid reg.items_by_rfid) [
  | some other ↦ reg
  | none ↦ record reg { items_by_rfid = put rfid item reg.items_by_rfid }
])

abbrev pub push_back : Item → Registry → Registry
push_back item reg = record reg { all_items = reg.all_items ++ item ∷ [] }

create_by_colour : Text → ℤ → Ruleset → Registry → Registry × Option ℕ
create_by_colour name code rules reg = elim (find code reg.items_by_colour) [
  | some other ↦ (reg, none)
  | none ↦ (
    push_back (make_by_colour name code rules.time_to_capture rules.points_on_capture)
        (record reg { items_by_colour = put code (length reg.all_items) reg.items_by_colour }),
    some (length reg.all_items),
  )
]

create_by_rfids : Text → List Text → Ruleset → Registry → Registry × Option ℕ
create_by_rfids name tags rules reg = (
  push_back (make_by_rfids name tags rules.time_to_capture rules.points_on_capture)
      (add_rfids tags (length reg.all_items) reg),
  some (length reg.all_items),
)

abbrev pub is_empty {ℓ} : {A : Type ℓ} → List A → Bool
is_empty [] = true
is_empty (x ∷ xs) = false

unfoldable pub create_item : Text → Text → List Text → ℤ → Ruleset → Registry → Registry × Option ℕ
unfolding create_by_colour create_by_rfids add_rfids
create_item type name tags code rules reg =
    if str "flag" == type
    then (if is_empty tags && not (no_colour == code)
        then create_by_colour name code rules reg
        else if not (is_empty tags) && (no_colour == code)
        then create_by_rfids name tags rules reg
        else (reg, none))
    else (reg, none)

unfoldable pub reset : Item → Item
reset item = record item { owning_team = []; capturing_team = []; capture_state = pending }

unfoldable pub reset_all_items : Registry → Registry
unfolding reset
reset_all_items reg = record reg { all_items = map reset reg.all_items }

unfoldable pub start_capture : Text → Item → Item
start_capture team item =
    if item.owning_team == team
    then item
    else record item { capturing_team = team; capture_state = started }

unfoldable pub abort_capture : Item → Item
abort_capture item = record item { capture_state = failed }

-- Flag::innerCapture
unfoldable pub inner_capture : Item → Team → Team
unfolding increase_score
inner_capture item team = increase_score item.points_on_capture team

unfoldable pub capture : Item → Team → Item × Team
unfolding inner_capture
capture item team = if team.name == item.owning_team then (item, team) else (
  record item { owning_team = team.name; capture_state = succeeded },
  inner_capture item team,
)

-- A change of the item at that place.
abbrev pub update_item : ℕ → (Item → Item) → Registry → Registry
update_item item f reg = record reg { all_items = modify reg.all_items item f }
