-- ===== src/Game/Sound/Detected.antt =====
-- The colours that a robot reports add and remove nothing.
use server_game.Base.{
  ℕ, Bool, Option, none, some, Result, ok, or_fault, dangling, get_elem?, inl, inr, Option-cases,
}
use server_game.Base.Ensures
use server_game.Base.Ensures.{Ensures}
use server_game.Base.Int.{ℤ, int_key}
use server_game.Base.Key.{◌==◌}
use server_game.Game.Types.{
  Game, FlagDetector, States, outside, frontier, unknown_from_frontier, inside,
  transition_from_inside,
}
use server_game.Game.Item.{get_item_by_colour}
use server_game.Game.Contact.{robot_is_in_contact_with}
use server_game.Game.Detector.{enter, leave, react, set_colour, frontier_colour_code}
use server_game.Game.Sound.Unchanged.{SameNames, SameNames-refl, touch-SameNames, drop-SameNames}

module _ (g : Game) where
  -- The game that a case of the switch leaves has the names of the game before.
  abbrev Same : FlagDetector × Game × Bool → Type 0
  Same o = SameNames g o.1

  stay : (d : FlagDetector) (b : Bool) → Ensures Same (ok (d, g, b))
  stay d b = Ensures.ok-Ensures Same (d, g, b) (SameNames-refl g)

  enter-Same : (code : ℤ) (item : ℕ) (d : FlagDetector) → Ensures Same (enter code item d g)
  unfolding enter
  enter-Same code item d =
      Ensures.bind-Ensures Same (or_fault dangling (get_elem? g.all_robots d.robot)) _ (λ r _.
        Ensures.bind-Ensures Same (robot_is_in_contact_with r.robot_id item g) _
          (λ h e. Ensures.ok-Ensures Same _ (touch-SameNames r.robot_id item g h e)))

  leave-Same : (d : FlagDetector) → Ensures Same (leave d g)
  unfolding leave
  leave-Same d = elim (Option-cases d.last_item) [
    | inl e ↦ rw (leave, e) (stay _ _)
    | inr (item, e) ↦
        rw (leave, e)
          (Ensures.bind-Ensures Same (or_fault dangling (get_elem? g.all_robots d.robot)) _
            (λ r _. Ensures.ok-Ensures Same _ (drop-SameNames r.robot_id item g)))
  ]

  found-Same :
      (o : Option ℕ) (some_case : ℕ → Result (FlagDetector × Game × Bool))
      (none_case : Result (FlagDetector × Game × Bool))
      → ((item : ℕ) → Ensures Same (some_case item))
      → Ensures Same none_case
      → Ensures Same (elim o [ some item ↦ some_case item | none ↦ none_case ])
  found-Same none f r hf hr = hr
  found-Same (some item) f r hf hr = hf item

  react-Same : (s : States) (code : ℤ) (d : FlagDetector) → Ensures Same (react s code d g)
  unfolding react
  react-Same outside code d =
      Ensures.if-Ensures Same (frontier_colour_code == code) _ _ (stay _ _) (stay _ _)
  react-Same frontier code d =
      found-Same (get_item_by_colour code g.items) _ _ (λ item. enter-Same code item d) (stay _ _)
  react-Same unknown_from_frontier code d =
      found-Same (get_item_by_colour code g.items) _ _
        (λ item. found-Same d.last_item _ _ (λ last. stay _ _) (enter-Same code item d)) (stay _ _)
  react-Same inside code d =
      Ensures.if-Ensures Same (frontier_colour_code == code) _ _ (leave-Same d)
        (Ensures.if-Ensures Same (code == d.colour_code) _ _ (stay _ _) (stay _ _))
  react-Same transition_from_inside code d =
      Ensures.if-Ensures Same (code == d.colour_code) _ _
        (found-Same d.last_item _ _ (λ item. stay _ _) (stay _ _))
        (Ensures.if-Ensures Same (frontier_colour_code == code) _ _ (leave-Same d) (stay _ _))

  pub set_colour-SameNames :
      (code : ℤ) (d : FlagDetector) → Ensures (λ o. SameNames g o.1) (set_colour code d g)
  unfolding set_colour
  set_colour-SameNames code d =
      Ensures.bind-Ensures (λ o. SameNames g o.1) (react d.state code d g) _
        (λ o e. Ensures.ok-Ensures (λ p. SameNames g p.1) _ (react-Same d.state code d o e))
