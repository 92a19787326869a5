-- ===== src/Game/Rules/Score.antt =====
-- The end of the game by score.
use server_game.Base.{
  ℕ, ◌<◌, ◌≤◌, ◌≡◌, refl, ◌∙◌, ap, true, false, some, List, [], ◌∷◌, ◌++◌, arith, inl, inr,
  Option-cases, All, get_elem?, map,
}
use server_game.Base.Text.{Text}
use server_game.Base.StdMap.{Map}
use server_game.Game.Types.{Game, Team, Item, pending}
use server_game.Game.Item.{reset_all_items, reset}
use server_game.Game.Rules.{get_seconds_left, stop, judge, winning_teams, stop_if_game_is_finished}

-- A team that is short of the score.
abbrev pub Loses : ℕ → List Team → Text × ℕ → Type 0
Loses target all e = (t : Team) → get_elem? all e.1 ≡ some t → t.score < target

winning_teams-append :
    (target : ℕ) (xs ys : Map Text ℕ) (all : List Team)
    → winning_teams target (xs ++ ys) all
      ≡ winning_teams target xs all ++ winning_teams target ys all
unfolding winning_teams
winning_teams-append target [] ys all = refl
winning_teams-append target ((n, a) ∷ xs) ys all =
    ground (arith, winning_teams-append target xs ys all)

losers :
    (target : ℕ) (xs : Map Text ℕ) (all : List Team)
    → All (Loses target all) xs
    → winning_teams target xs all ≡ []
unfolding winning_teams
losers target [] all h = refl
losers target ((n, a) ∷ xs) all h = elim (Option-cases (get_elem? all a)) [
  | inl gone ↦ rw (gone, winning_teams) (losers target xs all h.1)
  | inr (t, there) ↦
      rw (there, winning_teams) (ground (arith, h.0 t there, losers target xs all h.1))
]

winner_first :
    (target : ℕ) (n : Text) (a : ℕ) (xs : Map Text ℕ) (all : List Team) (t : Team)
    → get_elem? all a ≡ some t
    → target ≤ t.score
    → winning_teams target ((n, a) ∷ xs) all ≡ t.name ∷ winning_teams target xs all
unfolding winning_teams
winner_first target n a xs all t e h = ground (arith, e)

-- With time left the number of the winning teams decides.
by_score :
    (game : Game)
    → 0 < get_seconds_left game
    → stop_if_game_is_finished game
      ≡ judge (winning_teams game.rules.score_to_win game.teams game.all_teams) game
unfolding stop_if_game_is_finished
by_score game h = ground arith

module _ (game : Game) (before after : Map Text ℕ) (key : Text) (address : ℕ) (t : Team)
    (running : game.is_running ≡ true) (time_left : 0 < get_seconds_left game)
    (there : get_elem? game.all_teams address ≡ some t) (wins : game.rules.score_to_win ≤ t.score)
    (lose_before : All (Loses game.rules.score_to_win game.all_teams) before) where
  one_name :
      All (Loses game.rules.score_to_win game.all_teams) after
      → winning_teams game.rules.score_to_win (before ++ ((key, address) ∷ after)) game.all_teams
        ≡ t.name ∷ []
  one_name lose_after = rw (
    winning_teams-append game.rules.score_to_win before ((key, address) ∷ after) game.all_teams,
    losers game.rules.score_to_win before game.all_teams lose_before,
    winner_first game.rules.score_to_win key address after game.all_teams t there wins,
    losers game.rules.score_to_win after game.all_teams lose_after,
  )

  -- Time is left and one team alone has the score: it is the winner, the game is stopped, and every
  -- item is without an owner and a team that captures it, and pending.
  pub sole_winner :
      game.teams ≡ before ++ ((key, address) ∷ after)
      → All (Loses game.rules.score_to_win game.all_teams) after
      → stop_if_game_is_finished game ≡ record game {
        winner = some t.name;
        is_running = false;
        items = record game.items {
          all_items =
              map
                (λ (item : Item). record item {
                  owning_team = [];
                  capturing_team = [];
                  capture_state = pending;
                })
                game.items.all_items;
        };
      }
  unfolding judge stop reset_all_items reset
  sole_winner split lose_after =
      rw (by_score game time_left, split, one_name lose_after) (rw (judge, running) refl)

judge_two :
    (xs ys zs : List Text) (a b : Text) (game : Game)
    → judge (xs ++ (a ∷ (ys ++ (b ∷ zs)))) game ≡ stop game
unfolding judge
judge_two [] [] zs a b game = refl
judge_two [] (y ∷ ys) zs a b game = refl
judge_two (x ∷ []) ys zs a b game = refl
judge_two (x ∷ x' ∷ xs) ys zs a b game = refl

-- Time is left and two teams have the score: the game is stopped and every item is reset, and who
-- was the winner before stays so.
pub stalemate :
    (game : Game) (before between rest : Map Text ℕ) (key other : Text) (address place : ℕ)
    (t u : Team)
    → game.is_running ≡ true
    → 0 < get_seconds_left game
    → game.teams ≡ before ++ ((key, address) ∷ (between ++ ((other, place) ∷ rest)))
    → get_elem? game.all_teams address ≡ some t
    → get_elem? game.all_teams place ≡ some u
    → game.rules.score_to_win ≤ t.score
    → game.rules.score_to_win ≤ u.score
    → stop_if_game_is_finished game
      ≡ record game { is_running = false; items = reset_all_items game.items }
unfolding stop
stalemate game before between rest key other address place t u running time_left split et eu wt wu =
    by_score game time_left
    ∙ ap (λ w. judge w game) (ap (λ m. winning_teams target m all) split ∙ names)
    ∙ judge_two (winning_teams target before all) (winning_teams target between all)
        (winning_teams target rest all) t.name u.name game
    ∙ ground (arith, running)
  where
    target : ℕ
    target = game.rules.score_to_win

    all : List Team
    all = game.all_teams

    names :
        winning_teams target (before ++ ((key, address) ∷ (between ++ ((other, place) ∷ rest)))) all
        ≡ winning_teams target before all
          ++ (t.name
              ∷ (winning_teams target between all ++ (u.name ∷ winning_teams target rest all)))
    names = rw (
      winning_teams-append target before ((key, address) ∷ (between ++ ((other, place) ∷ rest)))
          all,
      winner_first target key address (between ++ ((other, place) ∷ rest)) all t et wt,
      winning_teams-append target between ((other, place) ∷ rest) all,
      winner_first target other place rest all u eu wu,
    )
