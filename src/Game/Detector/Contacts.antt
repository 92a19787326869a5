-- ===== src/Game/Detector/Contacts.antt =====
-- What a flag detector tells the game: a contact from the frontier into a flag, its end back on it.
use server_game.Base.{
  ℕ, ◌≡◌, ◌≢◌, refl, subst, true, false, none, some, arith, get_elem?, inl, inr, ok, ◌⊎◌,
}
use server_game.Base.Int.{ℤ, int_key, int_iff}
use server_game.Game.Types.{
  FlagDetector, Game, Robot, frontier, unknown_from_frontier, inside, transition_from_inside,
}
use server_game.Game.Item.{get_item_by_colour}
use server_game.Game.Contact.{robot_is_in_contact_with, robot_drops_contact_with}
use server_game.Game.Detector.{enter, leave, set_colour, frontier_colour_code}
use server_game.Game.Detector.Machine.{IsCoherent, HasItem}

module _ (code : ℤ) (d : FlagDetector) (g : Game) (r : Robot)
    (robot_there : get_elem? g.all_robots d.robot ≡ some r) (coherent : IsCoherent d) where
  entered :
      (item : ℕ) (g' : Game)
      → robot_is_in_contact_with r.robot_id item g ≡ ok g'
      → enter code item d g
        ≡ ok (record d { state = inside; last_item = some item; colour_code = code }, g', true)
  unfolding enter
  entered item g' touched = rw (robot_there) (rw touched refl)

  left :
      (item : ℕ)
      → d.last_item ≡ some item
      → leave d g
        ≡ ok (
          record d { state = frontier; last_item = none; colour_code = frontier_colour_code },
          robot_drops_contact_with r.robot_id item g,
          false,
        )
  unfolding leave
  left item there = ground (arith, there, robot_there)

  -- From the frontier, also after colours that are no item's, the colour of an item leads inside:
  -- the game records the contact of the robot with that item, and the item is handed out.
  set_colour_enters :
      (item : ℕ) (g' : Game)
      → (d.state ≡ frontier) ⊎ (d.state ≡ unknown_from_frontier)
      → get_item_by_colour code g.items ≡ some item
      → robot_is_in_contact_with r.robot_id item g ≡ ok g'
      → set_colour code d g
        ≡ ok (record d { state = inside; last_item = some item; colour_code = code }, g', some item)
  unfolding set_colour
  set_colour_enters item g' (inl at) known touched =
      ground (arith, at, known, entered item g' touched)
  set_colour_enters item g' (inr at) known touched =
      ground
        (arith, at, known, entered item g' touched, subst (λ s. HasItem s d.last_item) at coherent)

  -- Inside a flag, or beside it, the colour of the frontier leads back there: the contact with the
  -- item is dropped, the item is forgotten and nothing is handed out.
  set_colour_leaves :
      (item : ℕ)
      → (d.state ≡ inside) ⊎ (d.state ≡ transition_from_inside)
      → d.last_item ≡ some item
      → d.colour_code ≢ frontier_colour_code
      → code ≡ frontier_colour_code
      → set_colour code d g
        ≡ ok (
          record d { state = frontier; last_item = none; colour_code = frontier_colour_code },
          robot_drops_contact_with r.robot_id item g,
          none,
        )
  unfolding set_colour
  set_colour_leaves item (inl at) there other same =
      ground (arith, at, left item there, int_iff frontier_colour_code code, same)
  set_colour_leaves item (inr at) there other same = ground (
    arith,
    at,
    left item there,
    int_iff frontier_colour_code code,
    int_iff code d.colour_code,
    same,
    other,
  )
