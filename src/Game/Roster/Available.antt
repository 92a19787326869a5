-- ===== src/Game/Roster/Available.antt =====
-- Which robot a player or a real robot is given.
use server_game.Base.{
  ℕ, ◌≡◌, refl, sym, ◌∙◌, ap, Bool, true, false, none, some, List, [], ◌∷◌, ◌++◌, arith, ◌⊎◌, inl,
  inr, Bool-cases, Option-cases, All, subst, get_elem?, not, ok, err, out_of_range,
}
use server_game.Base.Key.{◌==◌}
use server_game.Base.Text.{Text, text_key, text_iff}
use server_game.Base.StdMap.{Map, find, put, find-put, find-put_self, find-erase_self}
use server_game.Base.StdMap.Order.{IsSorted, find_behind}
use server_game.Game.Types.{Game, Robot}
use server_game.Game.Roster.{
  Entry, entries, first, get_is_available, get_available_robot, get_robot_without_real_robot,
  remove_robot, change_robot, set_has_real_robot,
}

-- A test fails on every entry.
abbrev pub Fails : (Entry → Bool) → List Entry → Type 0
Fails p = All (λ e. p e ≡ false)

-- The first entry that passes, behind entries that fail.
pub record IsFirst (p : Entry → Bool) (es : List Entry) (e : Entry) : Type 0 where
  pub before : List Entry
  pub after : List Entry
  pub split : es ≡ before ++ e ∷ after
  pub skipped : Fails p before
  pub passes : p e ≡ true

pub first_cases :
    (p : Entry → Bool) (es : List Entry)
    → ((first p es ≡ none) × Fails p es) ⊎ ((e : Entry) × (first p es ≡ some e) × IsFirst p es e)
first_cases p [] = inl (refl, tt)
first_cases p (x ∷ xs) = elim (Bool-cases (p x)) [
  | inl hit ↦ inr (
    x,
    rw (hit, first) refl,
    record { before = []; after = xs; split = refl; skipped = tt; passes = hit },
  )
  | inr miss ↦ elim (first_cases p xs) [
    | inl (nobody, fails) ↦ inl (rw (miss, first) nobody, (miss, fails))
    | inr (e, found, f) ↦ inr (
      e,
      rw (miss, first) found,
      record {
        before = x ∷ f.before;
        after = f.after;
        split = ap (◌∷◌ x) f.split;
        skipped = (miss, f.skipped);
        passes = f.passes;
      },
    )
  ]
]

-- `getAvailableRobot` finds nothing just where no robot of the map is available, and otherwise the
-- first that is available, in the order of their names.
pub get_available_robot_cases :
    (game : Game)
    → let es = entries game.robots game.all_robots in
      let free = λ (e : Entry). get_is_available e.robot game in
      ((get_available_robot game ≡ none) × Fails free es)
      ⊎ ((e : Entry) × (get_available_robot game ≡ some e.pointer) × IsFirst free es e)
unfolding get_available_robot
get_available_robot_cases game =
    let es = entries game.robots game.all_robots in
    let free = λ (e : Entry). get_is_available e.robot game in
    elim (first_cases free es) [
      | inl (nobody, fails) ↦ inl (rw (nobody, get_available_robot) refl, fails)
      | inr (e, found, f) ↦ inr (e, rw (found, get_available_robot) refl, f)
    ]

-- Each entry of the walk is an entry of the map.
pub first_member :
    (p : Entry → Bool) (m : Map Text ℕ) (all : List Robot) (e : Entry)
    → IsSorted m
    → first p (entries m all) ≡ some e
    → find e.key m ≡ some e.pointer
unfolding entries find
first_member p [] all e s h = cc
first_member p ((n, a) ∷ m) all e s h =
    ground (arith, text_iff n n, first_member p m all e s.1, find_behind n e.key a e.pointer m s)

pub first_robot :
    (p : Entry → Bool) (m : Map Text ℕ) (all : List Robot) (e : Entry)
    → first p (entries m all) ≡ some e
    → (get_elem? all e.pointer ≡ some e.robot) × (p e ≡ true)
unfolding entries
first_robot p [] all e h = cc
first_robot p ((n, a) ∷ m) all e h = elim (Option-cases (get_elem? all a)) [
  | inl gone ↦ first_robot p m all e (ground (arith, gone))
  | inr (r, there) ↦
      let x : Entry = record { key = n; pointer = a; robot = r } in
      elim (Bool-cases (p x)) [
        | inl hit ↦
            subst (λ y. (get_elem? all y.pointer ≡ some y.robot) × (p y ≡ true))
              (ground (arith, there, hit)) (there, hit)
        | inr miss ↦ first_robot p m all e (ground (arith, there, miss))
      ]
]

abbrev pub IsRegistered : Text → Game → ℕ → Type 0
IsRegistered temporary_id game robot =
    (name : Text) × (find temporary_id game.registered_robots ≡ some name)
    × (find name game.robots ≡ some robot)

abbrev pub unreal : Entry → Bool
unreal e = not e.robot.has_real_robot

given-IsRegistered :
    (temporary_id : Text) (game after : Game) (robot : ℕ)
    → IsSorted game.robots
    → get_robot_without_real_robot temporary_id game ≡ ok (after, some robot)
    → IsRegistered temporary_id after robot
unfolding get_robot_without_real_robot
given-IsRegistered temporary_id game after robot sorted given =
    let es = entries game.robots game.all_robots in
    elim (Option-cases (find temporary_id game.registered_robots)) [
      | inr (name, known) ↦ elim (Option-cases (find name game.robots)) [
        | inr (r, there) ↦ (name, ground (arith, known, there), ground (arith, known, there))
        | inl gone ↦ absurd (ground (arith, known, gone))
      ]
      | inl new ↦ elim (first_cases unreal es) [
        | inl (nobody, _) ↦ absurd (ground (arith, new, nobody))
        | inr (e, found, _) ↦ (
          e.key,
          ground (arith, new, found, find-put_self temporary_id e.key game.registered_robots),
          ground
              (arith, new, found, first_member unreal game.robots game.all_robots e sorted found),
        )
      ]
    ]

-- A real robot that registers again under its temporary id, with the map of the robots as it was
-- left, is given the robot that it had, and the game does not change. What the robots are then
-- told of themselves makes no difference.
pub registration_is_stable :
    (temporary_id : Text) (game after later : Game) (robot : ℕ)
    → IsSorted game.robots
    → get_robot_without_real_robot temporary_id game ≡ ok (after, some robot)
    → later.registered_robots ≡ after.registered_robots
    → later.robots ≡ after.robots
    → get_robot_without_real_robot temporary_id later ≡ ok (later, some robot)
unfolding get_robot_without_real_robot
registration_is_stable temporary_id game after later robot sorted given same_ids same_robots =
    let (name, known, there) = given-IsRegistered temporary_id game after robot sorted given in
    rw (ap (λ m. find temporary_id m) same_ids ∙ known, get_robot_without_real_robot)
      (rw (ap (λ m. find name m) same_robots ∙ there) refl)

-- A robot that has been removed from the map of the robots stays registered: a real robot that
-- asks again for it raises an exception.
pub removed_robot_throws :
    (temporary_id name : Text) (game : Game) (robot : ℕ)
    → find temporary_id game.registered_robots ≡ some name
    → find name game.robots ≡ some robot
    → get_robot_without_real_robot temporary_id (remove_robot name game).0 ≡ err out_of_range
unfolding get_robot_without_real_robot remove_robot
removed_robot_throws temporary_id name game robot known there =
    ground (arith, known, there, find-erase_self name game.robots)

-- A robot that is registered under one temporary id is marked as no real one, and is then the first
-- one of which that holds: a real robot with a new temporary id is given it, and the one with the old
-- temporary id keeps it.
pub freed_is_given :
    (old new name : Text) (game : Game) (robot : ℕ) (e : Entry)
    → IsSorted game.robots
    → find old game.registered_robots ≡ some name
    → find new game.registered_robots ≡ none
    → find name game.robots ≡ some robot
    → let freed = change_robot robot (set_has_real_robot false) game in
      first unreal (entries freed.robots freed.all_robots) ≡ some e
      → e.key ≡ name
      → let after : Game = record freed {
        registered_robots = put new e.key game.registered_robots;
      } in
        (get_robot_without_real_robot new freed ≡ ok (after, some robot))
        × (get_robot_without_real_robot old after ≡ ok (after, some robot))
unfolding get_robot_without_real_robot
freed_is_given old new name game robot e sorted known unknown there first_one key =
    let ids = put new e.key game.registered_robots in
    let freed = change_robot robot (set_has_real_robot false) game in
    let after : Game = record freed { registered_robots = ids } in
    let differs : (old == new) ≡ false = ground (arith, known, unknown, text_iff old new) in
    let kept : find old ids ≡ some name =
      ground (arith, find-put new old e.key game.registered_robots, differs, known) in
    let member = first_member unreal freed.robots freed.all_robots e sorted first_one in
    let pointer : some e.pointer ≡ some robot =
      sym member ∙ ap (λ n. find n game.robots) key ∙ there in
    (
      rw (unknown, get_robot_without_real_robot)
          (rw (first_one, get_robot_without_real_robot) (ap (λ r. ok (after, r)) pointer)),
      rw (kept, get_robot_without_real_robot) (rw there refl),
    )
