-- ===== src/Game/Sound/Added.antt =====
-- The operations that add, remove or change an object keep the maps in order and their entries
-- leading to objects of their keys.
use server_game.Base.{
  ℕ, ◌≡◌, subst, Bool, Option, arith, length, inl, inr, Option-cases, Result-cases, ok,
  if◌then◌else◌,
}
use server_game.Base.Text.{Text, text_key}
use server_game.Base.StdMap.{Map, find, put}
use server_game.Base.StdMap.Order.{put-IsSorted, insert-IsSorted, erase-IsSorted}
use server_game.Base.Pointers.{Named-modify, Named-erase, Named-insert, Named-put}
use server_game.Game.Types.{Game, Robot, Player, Team}
use server_game.Game.Team
use server_game.Game.Item.{is_empty}
use server_game.Game.Roster
use server_game.Game.Roster.{
  enter_robot, make_robot, make_player, change_robot, change_player, get_new_robot_id,
}
use server_game.Game.Roster.{entries}
use server_game.Game.Roster.Available.{first_cases, unreal}
use server_game.Game.Sound.{IsSound, team_name, robot_name, robot_id, player_name}

pub add_team-IsSound : (n : Text) (g : Game) → IsSound g → IsSound (Team.add_team n g).0
unfolding Team.add_team
add_team-IsSound n g v = elim (Option-cases (find n g.teams)) [
  | inr (a, old) ↦ rw (old, Team.add_team) v
  | inl new ↦
      rw (new, Team.add_team)
        (record {
          robots_sorted = v.robots_sorted;
          ids_sorted = v.ids_sorted;
          players_sorted = v.players_sorted;
          teams_sorted = put-IsSorted n (length g.all_teams) g.teams v.teams_sorted;
          robots_named = v.robots_named;
          ids_named = v.ids_named;
          players_named = v.players_named;
          teams_named = Named-put team_name g.teams g.all_teams (Team.make n) v.teams_named;
        })
]

pub remove_team-IsSound : (n : Text) (g : Game) → IsSound g → IsSound (Team.remove_team n g).0
unfolding Team.remove_team
remove_team-IsSound n g v = elim (Option-cases (find n g.teams)) [
  | inl gone ↦ rw (gone, Team.remove_team) v
  | inr (a, there) ↦
      rw (there, Team.remove_team)
        (record {
          robots_sorted = v.robots_sorted;
          ids_sorted = v.ids_sorted;
          players_sorted = v.players_sorted;
          teams_sorted = erase-IsSorted n g.teams v.teams_sorted;
          robots_named = v.robots_named;
          ids_named = v.ids_named;
          players_named = v.players_named;
          teams_named = Named-erase team_name g.teams g.all_teams n v.teams_named;
        })
]

pub add_player-IsSound : (n : Text) (g : Game) → IsSound g → IsSound (Roster.add_player n g).0
unfolding Roster.add_player
add_player-IsSound n g v = elim (Option-cases (find n g.players)) [
  | inr (a, old) ↦ rw (old, Roster.add_player) v
  | inl new ↦
      rw (new, Roster.add_player)
        (record {
          robots_sorted = v.robots_sorted;
          ids_sorted = v.ids_sorted;
          players_sorted = insert-IsSorted n (length g.all_players) g.players v.players_sorted;
          teams_sorted = v.teams_sorted;
          robots_named = v.robots_named;
          ids_named = v.ids_named;
          players_named =
              Named-insert player_name g.players g.all_players (make_player n) v.players_named;
          teams_named = v.teams_named;
        })
]

pub remove_player-IsSound : (n : Text) (g : Game) → IsSound g → IsSound (Roster.remove_player n g).0
unfolding Roster.remove_player
remove_player-IsSound n g v = elim (Option-cases (find n g.players)) [
  | inl gone ↦ rw (gone, Roster.remove_player) v
  | inr (a, there) ↦
      rw (there, Roster.remove_player)
        (record {
          robots_sorted = v.robots_sorted;
          ids_sorted = v.ids_sorted;
          players_sorted = erase-IsSorted n g.players v.players_sorted;
          teams_sorted = v.teams_sorted;
          robots_named = v.robots_named;
          ids_named = v.ids_named;
          players_named = Named-erase player_name g.players g.all_players n v.players_named;
          teams_named = v.teams_named;
        })
]

pub remove_robot-IsSound : (n : Text) (g : Game) → IsSound g → IsSound (Roster.remove_robot n g).0
unfolding Roster.remove_robot
remove_robot-IsSound n g v = elim (Option-cases (find n g.robots)) [
  | inl gone ↦ rw (gone, Roster.remove_robot) v
  | inr (a, there) ↦
      rw (there, Roster.remove_robot)
        (record {
          robots_sorted = erase-IsSorted n g.robots v.robots_sorted;
          ids_sorted = v.ids_sorted;
          players_sorted = v.players_sorted;
          teams_sorted = v.teams_sorted;
          robots_named = Named-erase robot_name g.robots g.all_robots n v.robots_named;
          ids_named = v.ids_named;
          players_named = v.players_named;
          teams_named = v.teams_named;
        })
]

add_robot_name : (robot : ℕ) (t : Team) → team_name (Team.add_robot robot t) ≡ team_name t
unfolding Team.add_robot
add_robot_name robot t = ground arith

enter_robot-IsSound :
    (name : Text) (team vp cp : ℕ) (id : Text) (g : Game)
    → IsSound g
    → IsSound (enter_robot name team vp cp id g)
unfolding enter_robot
enter_robot-IsSound name team vp cp id g v =
    let robot = length g.all_robots in
    let r = make_robot name id team vp cp in
    record {
      robots_sorted = insert-IsSorted name robot g.robots v.robots_sorted;
      ids_sorted = insert-IsSorted id robot g.robots_by_id v.ids_sorted;
      players_sorted = v.players_sorted;
      teams_sorted = v.teams_sorted;
      robots_named = Named-insert robot_name g.robots g.all_robots r v.robots_named;
      ids_named = Named-insert robot_id g.robots_by_id g.all_robots r v.ids_named;
      players_named = v.players_named;
      teams_named =
          Named-modify team_name g.teams g.all_teams team (Team.add_robot robot)
            (λ t _. add_robot_name robot t) v.teams_named;
    }

pub add_robot-IsSound :
    (name team : Text) (vp cp : ℕ) (id : Text) (g : Game) (r : Game × Bool)
    → Roster.add_robot name team vp cp id g ≡ ok r
    → IsSound g
    → IsSound r.0
unfolding Roster.add_robot
add_robot-IsSound name team vp cp id g r e v = elim (Option-cases (find name g.robots)) [
  | inr (a, old) ↦ subst IsSound (ground (arith, old)) v
  | inl new ↦ elim (Result-cases (if is_empty id then get_new_robot_id g else ok id)) [
    | inr (x, fails) ↦ absurd (ground (arith, new, fails))
    | inl (id', given) ↦ elim (Option-cases (find team g.teams)) [
      | inl gone ↦ subst IsSound (ground (arith, new, given, gone)) v
      | inr (t, there) ↦
          subst IsSound (ground (arith, new, given, there))
            (enter_robot-IsSound name t vp cp id' g v)
    ]
  ]
]

-- What the program tells a robot of itself leaves its name and its id.
pub change_robot-IsSound :
    (i : ℕ) (f : Robot → Robot) (g : Game)
    → ((r : Robot) → (robot_name (f r) ≡ robot_name r) × (robot_id (f r) ≡ robot_id r))
    → IsSound g
    → IsSound (change_robot i f g)
change_robot-IsSound i f g same v = record {
  robots_sorted = v.robots_sorted;
  ids_sorted = v.ids_sorted;
  players_sorted = v.players_sorted;
  teams_sorted = v.teams_sorted;
  robots_named =
      Named-modify robot_name g.robots g.all_robots i f (λ r _. (same r).0) v.robots_named;
  ids_named = Named-modify robot_id g.robots_by_id g.all_robots i f (λ r _. (same r).1) v.ids_named;
  players_named = v.players_named;
  teams_named = v.teams_named;
}

pub change_player-IsSound :
    (i : ℕ) (f : Player → Player) (g : Game)
    → ((p : Player) → player_name (f p) ≡ player_name p)
    → IsSound g
    → IsSound (change_player i f g)
change_player-IsSound i f g same v = record {
  robots_sorted = v.robots_sorted;
  ids_sorted = v.ids_sorted;
  players_sorted = v.players_sorted;
  teams_sorted = v.teams_sorted;
  robots_named = v.robots_named;
  ids_named = v.ids_named;
  players_named =
      Named-modify player_name g.players g.all_players i f (λ p _. same p) v.players_named;
  teams_named = v.teams_named;
}

-- A registration changes none of the maps that the invariant is about.
registered-IsSound :
    (ids : Map Text Text) (g : Game) → IsSound g → IsSound (record g { registered_robots = ids })
registered-IsSound ids g v = record {
  robots_sorted = v.robots_sorted;
  ids_sorted = v.ids_sorted;
  players_sorted = v.players_sorted;
  teams_sorted = v.teams_sorted;
  robots_named = v.robots_named;
  ids_named = v.ids_named;
  players_named = v.players_named;
  teams_named = v.teams_named;
}

pub register-IsSound :
    (temporary_id : Text) (g : Game) (r : Game × Option ℕ)
    → Roster.get_robot_without_real_robot temporary_id g ≡ ok r
    → IsSound g
    → IsSound r.0
unfolding Roster.get_robot_without_real_robot
register-IsSound temporary_id g r e v =
    elim (Option-cases (find temporary_id g.registered_robots)) [
      | inr (name, known) ↦ elim (Option-cases (find name g.robots)) [
        | inl gone ↦ absurd (ground (arith, known, gone))
        | inr (a, there) ↦ subst IsSound (ground (arith, known, there)) v
      ]
      | inl new ↦ elim (first_cases unreal (entries g.robots g.all_robots)) [
        | inl (nobody, _) ↦ subst IsSound (ground (arith, new, nobody)) v
        | inr (x, found, _) ↦
            let ids = put temporary_id x.key g.registered_robots in
            subst IsSound (ground (arith, new, found)) (registered-IsSound ids g v)
      ]
    ]
