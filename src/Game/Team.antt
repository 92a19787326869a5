-- ===== src/Game/Team.antt =====
-- src/orwell/game/Team.cpp, and how the game reaches a team: by name, or by the reference that a
-- robot keeps, which is good as long as its entry stays in the map.
use server_game.Base.{
  ℕ, ◌+◌, ◌%◌, ◌^◌, Bool, true, false, none, some, List, [], ◌∷◌, ◌++◌, get_elem?, length, any, map,
  Result, err, dangling, or_fault, if◌then◌else◌,
}
use server_game.Base.Key.{◌==◌, nat_key}
use server_game.Base.Text.{Text, text_key}
use server_game.Base.StdMap.{Map, find, put, erase}
use server_game.Game.Types.{Team, Game}

-- Team::Team()
abbrev pub neutral : Team
neutral = record { name = []; score = 0; robots = []; is_neutral_team = true }

-- Team::Team(iName)
abbrev pub make : Text → Team
make name = record { name = name; score = 0; robots = []; is_neutral_team = false }

-- The amount is a uint16_t and the score a uint32_t.
unfoldable pub increase_score : ℕ → Team → Team
increase_score amount team = record team { score = (team.score + amount % 2 ^ 16) % 2 ^ 32 }

unfoldable pub set_score : ℕ → Team → Team
set_score score team = record team { score = score }

unfoldable pub reset_score : Team → Team
reset_score team = record team { score = 0 }

unfoldable pub add_robot : ℕ → Team → Team
add_robot robot team =
    if any (λ r. r == robot) team.robots
    then team
    else record team { robots = team.robots ++ robot ∷ [] }

-- `std::list::remove` takes every occurrence out.
remove_all : ℕ → List ℕ → List ℕ
remove_all robot [] = []
remove_all robot (r ∷ rs) = let rest = remove_all robot rs in if r == robot then rest else r ∷ rest

unfoldable pub remove_robot : ℕ → Team → Team
unfolding remove_all
remove_robot robot team = record team { robots = remove_all robot team.robots }

-- Whether the map still has the team that stands at this place.
abbrev pub is_live : Map Text ℕ → ℕ → Bool
is_live teams address = any (λ e. e.1 == address) teams

-- Reading through a `Team &`.
unfoldable pub deref : ℕ → Game → Result Team
deref address game =
    if is_live game.teams address
    then or_fault dangling (get_elem? game.all_teams address)
    else err dangling

unfoldable pub add_team : Text → Game → Game × Bool
add_team name game = elim (find name game.teams) [
  | some address ↦ (game, false)
  | none ↦ (
    record game {
      teams = put name (length game.all_teams) game.teams;
      all_teams = game.all_teams ++ make name ∷ [];
    },
    true,
  )
]

unfoldable pub remove_team : Text → Game → Game × Bool
remove_team name game = elim (find name game.teams) [
  | none ↦ (game, false)
  | some address ↦ (record game { teams = erase name game.teams }, true)
]

-- The names, in the order of the map, after what the vector held.
unfoldable pub get_teams : List Text → Game → List Text
get_teams names game = names ++ map (λ e. e.0) game.teams

-- The team of that name, and otherwise the neutral team.
unfoldable pub get_team : Text → Game → Team
get_team name game = elim (find name game.teams) [
  | none ↦ neutral
  | some address ↦ elim (get_elem? game.all_teams address) [ none ↦ neutral | some team ↦ team ]
]

-- `operator ==` compares names alone.
abbrev pub same_team : Team → Team → Bool
same_team left right = left.name == right.name
