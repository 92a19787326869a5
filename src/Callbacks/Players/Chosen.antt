-- ===== src/Callbacks/Players/Chosen.antt =====
-- Which robot getRobotForPlayer gives a player.
use server_game.Base.{
  ℕ, ◌≡◌, Bool, true, false, Option, none, some, List, [], ◌∷◌, get_elem?, arith, ◌⊎◌, inl, inr,
  Bool-cases, Option-cases, subst,
}
use server_game.Base.Key.{==_iff}
use server_game.Base.Text.{Text, text_key}
use server_game.Base.StdMap.{Map}
use server_game.Game.Types.{Game, Robot, Player}
use server_game.Game.Roster.{
  Entry, entries, first, last, belongs_to, get_player, get_has_player, get_is_available,
  get_available_robot, get_robot_for_player,
}
use server_game.Game.Roster.Available.{first_robot}

-- An entry at that place passes the test.
Passing : (Entry → Bool) → List Robot → ℕ → Type 0
Passing p all a = (e : Entry) × (get_elem? all a ≡ some e.robot) × (p e ≡ true)

last_cases :
    (p : Entry → Bool) (m : Map Text ℕ) (all : List Robot) (found : Option ℕ) (a : ℕ)
    → last p (entries m all) found ≡ some a
    → (found ≡ some a) ⊎ Passing p all a
unfolding entries Passing
last_cases p [] all found a h = inl h
last_cases p ((n, b) ∷ m) all found a h = elim (Option-cases (get_elem? all b)) [
  | inl gone ↦ last_cases p m all found a (ground (arith, gone, h))
  | inr (r, there) ↦
      let x : Entry = record { key = n; pointer = b; robot = r } in
      elim (Bool-cases (p x)) [
        | inr miss ↦ last_cases p m all found a (ground (arith, there, miss, h))
        | inl hit ↦ elim (last_cases p m all (some b) a (ground (arith, there, hit, h))) [
          | inl same ↦ inr (x, cc, hit)
          | inr other ↦ inr other
        ]
      ]
]

-- The player of the robot has that name, or the robot is real and has no player.
abbrev pub IsFor : Text → Game → Robot → Type 0
IsFor name game r =
    ((p : Player) × (get_player r game ≡ some p) × (p.name ≡ name))
    ⊎ ((r.has_real_robot ≡ true) × (get_has_player r game ≡ false))

passing-IsFor :
    (name : Text) (game : Game) (e : Entry)
    → (belongs_to name game e ≡ true) ⊎ (get_is_available e.robot game ≡ true)
    → IsFor name game e.robot
unfolding get_is_available
passing-IsFor name game e (inl h) = elim (Option-cases (get_player e.robot game)) [
  | inl gone ↦ absurd (ground (arith, h, gone))
  | inr (p, has) ↦ inl (p, has, ground (arith, h, has, ==_iff p.name name))
]
passing-IsFor name game e (inr h) = inr (ground (arith, h), ground (arith, h))

-- The robot that is there is the one of the entry.
placed-IsFor :
    (name : Text) (game : Game) (robot : ℕ) (r : Robot) (e : Entry)
    → get_elem? game.all_robots robot ≡ some r
    → get_elem? game.all_robots robot ≡ some e.robot
    → (belongs_to name game e ≡ true) ⊎ (get_is_available e.robot game ≡ true)
    → IsFor name game r
placed-IsFor name game robot r e there here h =
    let same : e.robot ≡ r = cc in subst (IsFor name game) same (passing-IsFor name game e h)

available_cases :
    (game : Game) (robot : ℕ)
    → get_available_robot game ≡ some robot
    → Passing (λ e. get_is_available e.robot game) game.all_robots robot
unfolding get_available_robot Passing
available_cases game robot h =
    let free = λ (e : Entry). get_is_available e.robot game in
    elim (Option-cases (first free (entries game.robots game.all_robots))) [
      | inl nobody ↦ absurd (ground (arith, nobody, h))
      | inr (e, found) ↦
          let (there, passes) = first_robot free game.robots game.all_robots e found in
          let same : e.pointer ≡ robot = ground (arith, found, h) in
          (e, subst (λ a. get_elem? game.all_robots a ≡ some e.robot) same there, passes)
    ]

pub get_robot_for_player-IsFor :
    (name : Text) (game : Game) (robot : ℕ) (r : Robot)
    → get_robot_for_player name game ≡ some robot
    → get_elem? game.all_robots robot ≡ some r
    → IsFor name game r
unfolding get_robot_for_player Passing
get_robot_for_player-IsFor name game robot r h there =
    let mine = belongs_to name game in
    let es = entries game.robots game.all_robots in
    elim (Option-cases (last mine es none)) [
      | inl nobody ↦
          let (e, here, passes) = available_cases game robot (ground (arith, nobody, h)) in
          placed-IsFor name game robot r e there here (inr passes)
      | inr (a, found) ↦
          let own : last mine es none ≡ some robot = ground (arith, found, h) in
          elim (last_cases mine game.robots game.all_robots none robot own) [
            | inl bad ↦ cc
            | inr (e, here, passes) ↦ placed-IsFor name game robot r e there here (inl passes)
          ]
    ]
