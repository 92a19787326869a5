-- ===== src/Application/Printing.antt =====
-- operator<< on Parameters in src/orwell/Application.cpp, with the ones of Landmark.cpp,
-- Coordinates.cpp and RGBColour.cpp that it calls.
use server_game.Base.{ℕ, ◌≡◌, refl, Bool, true, false, Option, List, [], ◌∷◌, ◌++◌}
use server_game.Base.Int.{ℤ}
use server_game.Base.Text.{Text, str, text_key}
use server_game.Base.Decimal.{to_string, signed_text}
use server_game.Base.StdMap.Order.{IsSorted}
use server_game.Game.Types.{Coordinates, RgbColour, Landmark}
use server_game.Application.Options.{Parameters, RobotEntry, ItemEntry}
use server_game.Application.Compare.{same_parameters}
use server_game.Application.Compare.Blind.{same_parameters_iff}

-- What boost prints for a `boost::optional`, for each type that stands in one.
record Optionals : Type 0 where
  of_number : Option ℕ → Text
  of_signed : Option ℤ → Text
  of_text : Option Text → Text
  of_flag : Option Bool → Text

-- The text of each element, one behind the other.
abbrev print_all {ℓ} : {A : Type ℓ} → (A → Text) → List A → Text
print_all print [] = []
print_all print (x ∷ xs) = print x ++ print_all print xs

-- What goes to a stream, one after the other.
abbrev streamed : List Text → Text
streamed = print_all (λ text. text)

print_coordinates : Coordinates → Text
print_coordinates c =
    streamed (str "Coordinates : " ∷ to_string c.x ∷ str " ; " ∷ to_string c.y ∷ [])

-- The parts of a colour are `uint8_t`, which a stream takes for characters.
print_colour : RgbColour → Text
print_colour c = streamed (
    str "Colour : { "
    ∷ str "R = "
    ∷ (c.r ∷ [])
    ∷ str " ; "
    ∷ str "G = "
    ∷ (c.g ∷ [])
    ∷ str " ; "
    ∷ str "B = "
    ∷ (c.b ∷ [])
    ∷ str " }"
    ∷ [])

print_landmark : Landmark → Text
unfolding print_coordinates print_colour
print_landmark l =
    streamed
      (str "Landmark : " ∷ print_coordinates l.position ∷ str " ; " ∷ print_colour l.colour ∷ [])

print_robot : Text × RobotEntry → Text
print_robot (key, robot) =
    streamed (key ∷ str ":" ∷ robot.name ∷ str "@" ∷ robot.team ∷ str ", " ∷ [])

-- The loop over the RFIDs, with a space in front of each but the first.
print_rfids : Bool → List Text → Text
print_rfids first [] = []
print_rfids first (rfid ∷ rfids) =
    (elim first [ true ↦ [] | false ↦ str " " ]) ++ rfid ++ print_rfids false rfids

print_item : Text × ItemEntry → Text
unfolding print_rfids
print_item (key, item) = streamed (
    key
    ∷ str ":"
    ∷ item.name
    ∷ str "("
    ∷ item.type
    ∷ str "), rfid="
    ∷ print_rfids true item.rfids
    ∷ str ", colour="
    ∷ signed_text item.colour
    ∷ [])

-- An element and `", "` behind it.
abbrev listed {ℓ} : {A : Type ℓ} → (A → Text) → List A → Text
listed print = print_all (λ x. print x ++ str ", ")

module _ (boost : Optionals) where
  -- The list of the robots is open still where the items follow.
  print_parameters : Parameters → Text
  unfolding print_landmark print_robot print_item
  print_parameters a =
      let o = a.options in
      streamed (
        str "puller port ["
        ∷ boost.of_number o.puller_port
        ∷ str "] ; "
        ∷ str "publisher port ["
        ∷ boost.of_number o.publisher_port
        ∷ str "] ; "
        ∷ str "agent port ["
        ∷ boost.of_number o.agent_port
        ∷ str "] ; "
        ∷ str "available video ports ["
        ∷ listed to_string a.video_ports
        ∷ str "] ; "
        ∷ str "tick interval ["
        ∷ boost.of_signed o.tick_interval
        ∷ str "] ; "
        ∷ str "rc file path ["
        ∷ boost.of_text o.rc_file_path
        ∷ str "] ; "
        ∷ str "game config file path ["
        ∷ boost.of_text o.game_file_path
        ∷ str "] ; "
        ∷ str "dry run ["
        ∷ boost.of_flag o.dry_run
        ∷ str "] ; "
        ∷ str "broadcast ["
        ∷ boost.of_flag o.broadcast
        ∷ str "] "
        ∷ str "robots ["
        ∷ print_all print_robot a.robots
        ∷ print_all print_item a.items
        ∷ str "] ; "
        ∷ str "teams ["
        ∷ listed (λ team. team) a.teams
        ∷ str "] ; "
        ∷ str "map limits ["
        ∷ listed print_landmark a.map_limits
        ∷ str "] ; "
        ∷ str "broadcast port = "
        ∷ boost.of_number o.broadcast_port
        ∷ str " ; "
        ∷ [])

  -- Parameters that operator== takes for equal, with the maps of the robots and of the items in
  -- order, are printed as one text, whatever boost makes of a value that may be missing.
  same_printed :
      (a b : Parameters)
      → IsSorted a.robots
      → IsSorted b.robots
      → IsSorted a.items
      → IsSorted b.items
      → same_parameters a b ≡ true
      → print_parameters a ≡ print_parameters b
  unfolding print_parameters
  same_printed a b ra rb ia ib same =
      let h = (same_parameters_iff a b ra rb ia ib).0 same in
      rw
        (
          h.puller_port, h.publisher_port, h.agent_port, h.video_ports, h.tick_interval,
          h.rc_file_path, h.game_file_path, h.dry_run, h.broadcast, h.robots, h.items, h.teams,
          h.map_limits, h.broadcast_port,
        )
        refl
