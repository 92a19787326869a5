-- ===== src/Callbacks/Players/Starting.antt =====
-- Whether the game starts once a player has said hello.
use server_game.Base.{
  ◌≡◌, ◌≢◌, refl, Bool, true, false, Option, none, some, All, get_elem?, arith, ◌⊎◌, inl, inr,
  Option-cases, List, [], ◌∷◌, ℕ, ◌&&◌, not,
}
use server_game.Base.Text.{Text, text_key}
use server_game.Base.StdMap.{find}
use server_game.Base.StdMap.Order.{IsSorted}
use server_game.Game.Types.{Game, Time}
use server_game.Game.Roster.{
  Entry, entries, first, get_is_available, get_has_player, get_available_robot, add_player,
}
use server_game.Game.Roster.Available.{first_cases, first_member, first_robot}
use server_game.Game.Rules.Course.{HasNoScore, start-restarted, restarted, reset_scores-HasNoScore}
use server_game.Callbacks.Players.{start_if_ready, link}
use server_game.Callbacks.Players.Greeted.{with_address}

-- A robot of the map is real and has no player.
abbrev pub Waits : Game → Type 0
Waits game =
    (e : Entry) × (find e.key game.robots ≡ some e.pointer)
    × (get_elem? game.all_robots e.pointer ≡ some e.robot)
    × (e.robot.has_real_robot ≡ true)
    × (get_has_player e.robot game ≡ false)

abbrev pub NoneWaits : Game → Type 0
NoneWaits game =
    All (λ e. (e.robot.has_real_robot ≡ false) ⊎ (get_has_player e.robot game ≡ true))
      (entries game.robots game.all_robots)

-- The player is ready and no robot waits: the game runs from now on, with no winner and no score.
abbrev pub Starts : Option Bool → Time → Game → Type 0
Starts ready now after =
    (ready ≡ some true)
    × NoneWaits after
    × (after.is_running ≡ true)
    × (after.start_time ≡ now)
    × (after.time ≡ now)
    × (after.winner ≡ none)
    × All (λ e. HasNoScore after.all_teams e.1) after.teams

-- Otherwise its course stays.
abbrev pub Stays : Option Bool → Game → Game → Type 0
Stays ready before after =
    ((ready ≢ some true) ⊎ Waits after)
    × (after.is_running ≡ before.is_running)
    × (after.start_time ≡ before.start_time)
    × (after.time ≡ before.time)
    × (after.winner ≡ before.winner)
    × (after.all_teams ≡ before.all_teams)

occupied : (real has : Bool) → (real && not has) ≡ false → (real ≡ false) ⊎ (has ≡ true)
occupied true true h = inr refl
occupied true false h = cc
occupied false has h = inl refl

free : (real has : Bool) → (real && not has) ≡ true → (real ≡ true) × (has ≡ false)
free true true h = cc
free true false h = (refl, refl)
free false has h = cc

starts_lem :
    (now : Time) (game : Game)
    → get_available_robot game ≡ none
    → start_if_ready (some true) now game ≡ restarted none now game
unfolding start_if_ready
starts_lem now game e = rw (e, start_if_ready) (start-restarted none now game)

stays_lem :
    (now : Time) (game : Game) (robot : ℕ)
    → get_available_robot game ≡ some robot
    → start_if_ready (some true) now game ≡ game
unfolding start_if_ready
stays_lem now game robot e = rw (e, start_if_ready) refl

none_waits :
    (game : Game) (es : List Entry)
    → All (λ e. get_is_available e.robot game ≡ false) es
    → All (λ e. (e.robot.has_real_robot ≡ false) ⊎ (get_has_player e.robot game ≡ true)) es
unfolding get_is_available
none_waits game [] h = tt
none_waits game (e ∷ es) (h, hs) =
    (occupied e.robot.has_real_robot (get_has_player e.robot game) h, none_waits game es hs)

starts :
    (now : Time) (game : Game) → NoneWaits game → Starts (some true) now (restarted none now game)
unfolding restarted get_has_player
starts now game h =
    (refl, h, refl, refl, refl, refl, reset_scores-HasNoScore game.teams game.all_teams)

available-Waits :
    (game : Game) (e : Entry)
    → IsSorted game.robots
    → first (λ x. get_is_available x.robot game) (entries game.robots game.all_robots) ≡ some e
    → Waits game
unfolding get_is_available
available-Waits game e s found =
    let p = λ (x : Entry). get_is_available x.robot game in
    let (there, passes) = first_robot p game.robots game.all_robots e found in
    let (real, alone) = free e.robot.has_real_robot (get_has_player e.robot game) passes in
    (e, first_member p game.robots game.all_robots e s found, there, real, alone)

pub start_if_ready-course :
    (ready : Option Bool) (now : Time) (game : Game)
    → IsSorted game.robots
    → let after = start_if_ready ready now game in Starts ready now after ⊎ Stays ready game after
unfolding start_if_ready get_available_robot
start_if_ready-course none now game s = inr (inl (λ e. cc), refl, refl, refl, refl, refl)
start_if_ready-course (some false) now game s = inr (inl (λ e. cc), refl, refl, refl, refl, refl)
start_if_ready-course (some true) now game s =
    elim (first_cases (λ e. get_is_available e.robot game) (entries game.robots game.all_robots)) [
      | inl (nobody, fails) ↦
          rw (starts_lem now game (rw (nobody, get_available_robot) refl))
            (inl (starts now game (none_waits game (entries game.robots game.all_robots) fails)))
      | inr (e, found, _) ↦
          rw (stays_lem now game e.pointer (rw (found, get_available_robot) refl))
            (inr (inr (available-Waits game e s found), refl, refl, refl, refl, refl))
    ]

-- The address of a player makes no difference.
pub course-with_address :
    (ready : Option Bool) (now : Time) (player : ℕ) (address : Option Text) (before game : Game)
    → Starts ready now game ⊎ Stays ready before game
    → let after = with_address player address game in
      Starts ready now after ⊎ Stays ready before after
unfolding get_has_player
course-with_address ready now player none before game h = h
course-with_address ready now player (some a) before game h = h

-- Neither do the links and a new player.
pub course-linked :
    (ready : Option Bool) (now : Time) (name : Text) (player robot : ℕ) (game after : Game)
    → Starts ready now after ⊎ Stays ready (link player robot (add_player name game).0) after
    → Starts ready now after ⊎ Stays ready game after
unfolding link add_player
course-linked ready now name player robot game after (inl h) = inl h
course-linked ready now name player robot game after (inr h) =
    inr (elim (Option-cases (find name game.players)) [
      | inl e ↦ ground (arith, e, h)
      | inr (a, e) ↦ ground (arith, e, h)
    ])
