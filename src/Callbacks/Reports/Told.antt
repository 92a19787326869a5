-- ===== src/Callbacks/Reports/Told.antt =====
-- What a player is told of a report of the robot.
use server_game.Base.{
  ℕ, ◌≡◌, refl, ◌∙◌, ap, true, false, Option, none, some, List, [], ◌∷◌, ◌++◌, map, get_elem?, ok,
  arith, inl, inr, Option-cases, subst, sym,
}
use server_game.Base.Text.{Text}
use server_game.Game.Types.{Item}
use server_game.Game.Roster.{get_has_robot_by_id}
use server_game.Callbacks.Messages.{ServerRobotState, PlayerState, Outgoing, World, publish_message}
use server_game.Callbacks.Encode.{encode}
use server_game.Callbacks.Reports.{
  Visit, look_for_rfid, look_for_colour, tell, tell_all, robot_state, player_message, item_state,
}

-- The items at the given places, if all of them are there.
abbrev pub items_at : List ℕ → List Item → Option (List Item)
items_at [] all = some []
items_at (place ∷ places) all = elim (get_elem? all place) [
  | none ↦ none
  | some i ↦ elim (items_at places all) [ none ↦ none | some is ↦ some (i ∷ is) ]
]

abbrev pub bare : Item → PlayerState
bare i = record { battery = none; ultrasound = none; item = some (encode i) }

-- One state for each item, with what the robot measured in the first alone, and one without an item
-- where there is none.
abbrev pub states : ServerRobotState → List Item → List PlayerState
states report [] =
    record { battery = report.battery; ultrasound = report.ultrasound; item = none } ∷ []
states report (i ∷ is) =
    record { battery = report.battery; ultrasound = report.ultrasound; item = some (encode i) }
    ∷ map bare is

append_assoc : (a b c : List Outgoing) → (a ++ b) ++ c ≡ a ++ (b ++ c)
append_assoc [] b c = refl
append_assoc (x ∷ a) b c = ap (◌∷◌ x) (append_assoc a b c)

append_nil : (a : List Outgoing) → a ++ [] ≡ a
append_nil [] = refl
append_nil (x ∷ a) = ap (◌∷◌ x) (append_nil a)

-- The world with more messages.
abbrev pub telling : List Outgoing → World → World
telling ms w = record w { published = w.published ++ ms }

abbrev others_told : Text → List Item → List Outgoing
others_told id = map (λ i. player_message id (bare i))

some-injective {ℓ} : {A : Type ℓ} {a b : A} → some a ≡ some b → a ≡ b
some-injective h = cc

items_at-cons :
    (place : ℕ) (places : List ℕ) (all items : List Item)
    → items_at (place ∷ places) all ≡ some items
    → (i : Item) × (is : List Item) × (get_elem? all place ≡ some i)
      × (items_at places all ≡ some is)
      × ((i ∷ is) ≡ items)
items_at-cons place places all items h = elim (Option-cases (get_elem? all place)) [
  | inl gone ↦ absurd (ground (arith, h, gone))
  | inr (i, there) ↦ elim (Option-cases (items_at places all)) [
    | inl gone ↦ absurd (ground (arith, h, there, gone))
    | inr (is, rest) ↦ (i, is, there, rest, ground (arith, h, there, rest))
  ]
]

tell_rest :
    (id : Text) (report : ServerRobotState) (places : List ℕ) (items : List Item) (w : World)
    → items_at places w.game.items.all_items ≡ some items
    → tell id report false places w ≡ ok (telling (others_told id items) w)
unfolding tell
tell_rest id report [] items w h =
    let none_left : [] ≡ items = some-injective h in
    subst (λ l. tell id report false [] w ≡ ok (telling (others_told id l) w)) none_left
      (ap (λ ms. ok (record w { published = ms })) (sym (append_nil w.published)))
tell_rest id report (place ∷ places) items w h =
    let (i, is, there, rest, split) = items_at-cons place places w.game.items.all_items items h in
    let m = player_message id (bare i) in
    subst (λ l. tell id report false (place ∷ places) w ≡ ok (telling (others_told id l) w)) split
      (rw there (
        tell_rest id report places is (publish_message m w) rest
        ∙ ap (λ ms. ok (record w { published = ms }))
            (append_assoc w.published (m ∷ []) (others_told id is))))

map-map : (id : Text) (is : List Item) → map (player_message id) (map bare is) ≡ others_told id is
map-map id [] = refl
map-map id (i ∷ is) = ap (◌∷◌ (player_message id (bare i))) (map-map id is)

all_told :
    (id : Text) (report : ServerRobotState) (places : List ℕ) (items : List Item) (w : World)
    → items_at places w.game.items.all_items ≡ some items
    → tell_all id report places w ≡ ok (telling (map (player_message id) (states report items)) w)
unfolding tell
all_told id report [] items w h =
    let none_left : [] ≡ items = some-injective h in
    subst
      (λ l. tell_all id report [] w ≡ ok (telling (map (player_message id) (states report l)) w))
      none_left refl
all_told id report (place ∷ places) items w h =
    let (i, is, there, rest, split) = items_at-cons place places w.game.items.all_items items h in
    let m = player_message id (item_state report true (encode i)) in
    subst
      (λ l.
        tell_all id report (place ∷ places) w
        ≡ ok (telling (map (player_message id) (states report l)) w))
      split
      (rw there (
        tell_rest id report places is (publish_message m w) rest
        ∙ ap (λ ms. ok (record w { published = ms }))
            (append_assoc w.published (m ∷ []) (others_told id is)
              ∙ ap (λ ms. w.published ++ (m ∷ ms)) (sym (map-map id is)))))

-- A report of a robot that is known. What is touched by it and the colours that it reports change
-- the game as these handlers do, one after the other. Then the player is told of every item that
-- was visited, in the order of the addresses: one message for each, to the robot's id, the first of
-- them with what the robot measured; and one message without an item where none was visited.
pub robot_state_told :
    (by_address : List ℕ → List ℕ) (id : Text) (report : ServerRobotState) (w : World)
    (touched visited : Visit) (items : List Item)
    → get_has_robot_by_id id w.game ≡ true
    → look_for_rfid id report.rfids ([], w.game) ≡ ok touched
    → look_for_colour id report.colours touched ≡ ok visited
    → items_at (by_address visited.0) visited.1.items.all_items ≡ some items
    → robot_state by_address id report w
      ≡ ok (telling (map (player_message id) (states report items)) (record w { game = visited.1 }))
unfolding robot_state
robot_state_told by_address id report w touched visited items known rfids colours there = rw known (
    rw rfids (
      rw colours
        (all_told id report (by_address visited.0) items (record w { game = visited.1 }) there)))
