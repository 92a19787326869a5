-- ===== src/Callbacks/Encode/Snapshot.antt =====
-- What all clients are told on each tick.
use server_game.Base.{ℕ, ◌≡◌, refl, none, some, List, [], ◌∷◌, map, get_elem?, arith, All}
use server_game.Base.Text.{Text, str, text_key, text_iff}
use server_game.Base.StdMap.{Map, find}
use server_game.Base.StdMap.Order.{IsSorted, find_behind}
use server_game.Game.Types.{Game, Team, total_seconds}
use server_game.Game.Team.{get_teams, get_team}
use server_game.Game.Rules.{get_seconds_left}
use server_game.Callbacks.Messages.{GameState, Body, World, publish_message}
use server_game.Callbacks.Encode.{encode, scored, state_of, timer}

-- The score of the team at a place.
abbrev pub score_at : List Team → ℕ → ℕ
score_at all place = elim (get_elem? all place) [ none ↦ 0 | some t ↦ t.score ]

-- The entries of the map of the teams with the scores of the teams they lead to.
abbrev pub scores : Map Text ℕ → List Team → List (Text × ℕ)
scores [] all = []
scores ((name, place) ∷ rest) all = (name, score_at all place) ∷ scores rest all

find-first : (n : Text) (a : ℕ) (m : Map Text ℕ) → find n ((n, a) ∷ m) ≡ some a
unfolding find
find-first n a m = ground (arith, text_iff n n)

find_entries : (m : Map Text ℕ) → IsSorted m → All (λ e. find e.0 m ≡ some e.1) m
find_entries [] s = tt
find_entries ((n, a) ∷ m) s = (here, lift m (find_entries m s.1))
  where
    here : find n ((n, a) ∷ m) ≡ some a
    here = find-first n a m

    lift :
        (l : Map Text ℕ)
        → All (λ e. find e.0 m ≡ some e.1) l
        → All (λ e. find e.0 ((n, a) ∷ m) ≡ some e.1) l
    lift [] h = tt
    lift (e ∷ l) h = (find_behind n e.0 a e.1 m s h.0, lift l h.1)

scored_known :
    (game : Game) (n : Text) (a : ℕ)
    → find n game.teams ≡ some a
    → scored game n ≡ (n, score_at game.all_teams a)
unfolding get_team
scored_known game n a known = ground (arith, known)

scored_entries :
    (game : Game) (m : Map Text ℕ)
    → All (λ e. find e.0 game.teams ≡ some e.1) m
    → map (scored game) (map (λ e. e.0) m) ≡ scores m game.all_teams
scored_entries game [] h = refl
scored_entries game ((n, a) ∷ m) h = rw (scored_known game n a h.0, scored_entries game m h.1) refl

-- On each tick one message goes to all clients, and the game does not change. It tells whether the
-- game runs, the seconds that are left and those in all, the limits of the map, each team of the
-- map, in its order, with its own score, every item as it is encoded, and the winner.
pub timer_tells :
    (w : World)
    → IsSorted w.game.teams
    → (state : GameState) × (timer w
        ≡ publish_message
            (record { routing_id = str "all_clients"; body = Body.game_state state })
            w)
      × (state.playing ≡ w.game.is_running)
      × (state.seconds ≡ get_seconds_left w.game)
      × (state.total_seconds ≡ total_seconds w.game.game_duration)
      × (state.map_limits ≡ w.game.map_limits)
      × (state.teams ≡ scores w.game.teams w.game.all_teams)
      × (state.items ≡ map encode w.game.items.all_items)
      × (state.winner ≡ w.game.winner)
unfolding timer state_of get_teams
timer_tells w sorted = (
  state_of w.game,
  refl,
  refl,
  refl,
  refl,
  refl,
  scored_entries w.game w.game.teams (find_entries w.game.teams sorted),
  refl,
  refl,
)
