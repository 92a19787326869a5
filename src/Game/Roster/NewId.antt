-- ===== src/Game/Roster/NewId.antt =====
-- Game::getNewRobotId: the loop ends, and what it finds is free.
use server_game.Base.{
  ℕ, zero, suc, ◌+◌, ◌%◌, ◌^◌, ◌≤◌, ◌<◌, ◌≡◌, ◌≢◌, refl, subst, ltb, ltb→lt, true, false, List, [],
  ◌∷◌, arith, length, ◌⊎◌, inl, inr, Bool-cases, Result, ok, if◌then◌else◌,
}
use server_game.Base.Key.{◌==◌}
use server_game.Base.Text.{Text, text_key, text_iff}
use server_game.Base.Decimal.{to_string-injective}
use server_game.Game.Types.{Game}
use server_game.Game.Roster.{Entry, entries, id_of, is_taken, search_id, get_new_robot_id}

-- The ids with the next `fuel` indices are all taken.
abbrev pub AllTaken : ℕ → ℕ → List Entry → Type 0
AllTaken index zero robots = Unit
AllTaken index (suc fuel) robots =
    (is_taken (id_of index) robots ≡ true) × AllTaken (suc index) fuel robots

id_of-injective : (i j : ℕ) → id_of i ≡ id_of j → i ≡ j
id_of-injective i j e = to_string-injective i j (cc)

drop_id : Text → List Entry → List Entry
drop_id id [] = []
drop_id id (e ∷ es) = let rest = e ∷ drop_id id es in if e.robot.robot_id == id then es else rest

length-drop_id :
    (id : Text) (robots : List Entry)
    → is_taken id robots ≡ true
    → length robots ≡ suc (length (drop_id id robots))
unfolding drop_id
length-drop_id id [] h = cc
length-drop_id id (e ∷ es) h = ground (arith, length-drop_id id es)

is_taken-drop_id :
    (id other : Text) (robots : List Entry)
    → id ≢ other
    → is_taken other robots ≡ true
    → is_taken other (drop_id id robots) ≡ true
unfolding drop_id
is_taken-drop_id id other [] ne h = h
is_taken-drop_id id other (e ∷ es) ne h = ground (
  arith,
  is_taken-drop_id id other es,
  text_iff e.robot.robot_id id,
  text_iff e.robot.robot_id other,
)

AllTaken-drop_id :
    (fuel i j : ℕ) (robots : List Entry)
    → i < j
    → AllTaken j fuel robots
    → AllTaken j fuel (drop_id (id_of i) robots)
AllTaken-drop_id zero i j robots lt h = tt
AllTaken-drop_id (suc fuel) i j robots lt h = (
  is_taken-drop_id (id_of i) (id_of j) robots (λ e. absurd (omega (arith, id_of-injective i j e)))
      h.0,
  AllTaken-drop_id fuel i (suc j) robots (omega arith) h.1,
)

-- So many different ids need as many robots.
AllTaken-le-length :
    (fuel index : ℕ) (robots : List Entry) → AllTaken index fuel robots → fuel ≤ length robots
AllTaken-le-length zero index robots h = omega arith
AllTaken-le-length (suc fuel) index robots h = omega (
  arith,
  length-drop_id (id_of index) robots h.0,
  AllTaken-le-length fuel (suc index) (drop_id (id_of index) robots)
      (AllTaken-drop_id fuel index (suc index) robots (omega arith) h.1),
)

-- The least free index, and the ids before it, which are taken.
pub record IsFirstFree (robots : List Entry) (start k : ℕ) (result : Result Text) : Type 0 where
  pub found : result ≡ ok (id_of k)
  pub free : is_taken (id_of k) robots ≡ false
  pub taken : (j : ℕ) → start ≤ j → j < k → is_taken (id_of j) robots ≡ true
  pub bounded : start ≤ k

later_free :
    (index k : ℕ) (robots : List Entry) {result : Result Text}
    → is_taken (id_of index) robots ≡ true
    → IsFirstFree robots (suc index) k result
    → IsFirstFree robots index k result
later_free index k robots taken f = record {
  found = f.found;
  free = f.free;
  taken = λ j lo hi. elim (Bool-cases (ltb index j)) [
    | inl after ↦ f.taken j (ltb→lt index j after) hi
    | inr here ↦ subst (λ i. is_taken (id_of i) robots ≡ true) (meets j lo here) taken
  ];
  bounded = omega (arith, f.bounded);
}
  where
    meets : (j : ℕ) → index ≤ j → ltb index j ≡ false → index ≡ j
    meets j lo here = ground arith

search_id_cases :
    (fuel index : ℕ) (robots : List Entry)
    → index + fuel < 2 ^ 32
    → AllTaken index fuel robots
      ⊎ ((k : ℕ) × IsFirstFree robots index k (search_id fuel index robots))
unfolding search_id
search_id_cases zero index robots h = inl tt
search_id_cases (suc fuel) index robots h = elim (Bool-cases (is_taken (id_of index) robots)) [
  | inr free ↦ inr (
    index,
    record {
      found = rw free;
      free = free;
      taken = λ j lo hi. absurd (omega arith);
      bounded = omega arith;
    },
  )
  | inl taken ↦
      let next : (index + 1) % 2 ^ 32 ≡ suc index = omega arith in
      rw (taken, next)
        (elim (search_id_cases fuel (suc index) robots (omega arith)) [
          | inl all ↦ inl (refl, all)
          | inr (k, f) ↦ inr (k, later_free index k robots taken f)
        ])
]

-- The loop of `getNewRobotId` ends, on the least index whose id no robot of the map has.
pub get_new_robot_id_total :
    (game : Game)
    → length (entries game.robots game.all_robots) + 1 < 2 ^ 32
    → (k : ℕ) × IsFirstFree (entries game.robots game.all_robots) 0 k (get_new_robot_id game)
unfolding get_new_robot_id
get_new_robot_id_total game h =
    let robots = entries game.robots game.all_robots in
    elim (search_id_cases (suc (length robots)) 0 robots (omega arith)) [
      | inl all ↦ absurd (omega (arith, AllTaken-le-length (suc (length robots)) 0 robots all))
      | inr found ↦ found
    ]
