-- ===== src/Game/Sound/Course.antt =====
-- The start, the stop and the end of the game add and remove nothing.
use server_game.Base.{ℕ, refl, Bool, true, false, Option, none, some, List, [], ◌∷◌, modify}
use server_game.Base.{leb}
use server_game.Base.Text.{Text, text_key}
use server_game.Base.StdMap.{Map}
use server_game.Base.Pointers.{Named, Named-modify}
use server_game.Game.Types.{Game, Team, Time}
use server_game.Game.Team.{reset_score}
use server_game.Game.Rules
use server_game.Game.Sound.{team_name}
use server_game.Game.Sound.Unchanged.{
  SameNames, same_teams, SameNames-refl, SameNames-trans, if-SameNames,
}

pub stop-SameNames : (f : Game) → SameNames f (Rules.stop f)
unfolding Rules.stop
stop-SameNames f =
    if-SameNames f.is_running f _ f (same_teams f _ refl refl refl refl refl refl refl refl)
      (SameNames-refl f)

judge-SameNames : (names : List Text) (f : Game) → SameNames f (Rules.judge names f)
unfolding Rules.judge
judge-SameNames [] f = SameNames-refl f
judge-SameNames (n ∷ []) f =
    let g : Game = record f { winner = some n } in
    SameNames-trans f g _ (same_teams f g refl refl refl refl refl refl refl refl)
      (stop-SameNames g)
judge-SameNames (n ∷ m ∷ more) f = stop-SameNames f

pub finish-SameNames : (f : Game) → SameNames f (Rules.stop_if_game_is_finished f)
unfolding Rules.stop_if_game_is_finished
finish-SameNames f =
    if-SameNames (leb (Rules.get_seconds_left f) 0) f (Rules.stop f) _ (stop-SameNames f)
      (judge-SameNames (Rules.winning_teams f.rules.score_to_win f.teams f.all_teams) f)

reset_scores-Named :
    (teams : Map Text ℕ) (all : List Team) (m : Map Text ℕ)
    → Named team_name m all
    → Named team_name m (Rules.reset_scores teams all)
unfolding Rules.reset_scores reset_score
reset_scores-Named [] all m h = h
reset_scores-Named ((n, a) ∷ teams) all m h =
    reset_scores-Named teams (modify all a reset_score) m
      (Named-modify team_name m all a reset_score (λ x _. refl) h)

begin-SameNames :
    (forced : Option Time) (now : Time) (f : Game) → SameNames f (Rules.begin forced now f)
unfolding Rules.begin
begin-SameNames forced now f =
    if-SameNames f.is_running f f _ (SameNames-refl f)
      (same_teams f _ refl refl refl refl refl refl refl refl)

pub start-SameNames :
    (force : Bool) (forced : Option Time) (now : Time) (f : Game)
    → SameNames f (Rules.start force forced now f)
unfolding Rules.start
start-SameNames false forced now f = begin-SameNames forced now f
start-SameNames true forced now f =
    let g : Game = record f { winner = none; all_teams = Rules.reset_scores f.teams f.all_teams } in
    let h = Rules.stop g in
    SameNames-trans f h _ (SameNames-trans f g h scores (stop-SameNames g))
      (begin-SameNames forced now h)
  where
    scores :
        SameNames f (record f { winner = none; all_teams = Rules.reset_scores f.teams f.all_teams })
    scores = record {
      robots = refl;
      ids = refl;
      players = refl;
      teams = refl;
      all_robots = refl;
      all_players = refl;
      registered = refl;
      team_names = λ m n. reset_scores-Named f.teams f.all_teams m n;
    }
