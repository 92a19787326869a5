-- ===== src/Game/Rules/Course.antt =====
-- The start and the stop of the game.
use server_game.Base.{
  ℕ, suc, ◌<◌, ◌≡◌, refl, ◌∙◌, true, false, Option, none, some, List, [], ◌∷◌, arith, All,
  get_elem?, modify, if◌then◌else◌,
}
use server_game.Base.{◌^◌}
use server_game.Base.Int.{pos, ◌-ℤ◌}
use server_game.Game.Rules.{get_seconds_left}
use server_game.Game.Rules.Remaining.{seconds, get_seconds_left_running}
use server_game.Base.Key.{nat_key}
use server_game.Base.Text.{Text}
use server_game.Base.StdMap.{Map}
use server_game.Game.Types.{Game, Team, Time}
use server_game.Game.Team.{reset_score}
use server_game.Game.Item.{reset_all_items}
use server_game.Game.Rules.{stop, start, reset_scores}

abbrev pub HasNoScore : List Team → ℕ → Type 0
HasNoScore all a = (t : Team) → get_elem? all a ≡ some t → t.score ≡ 0

modify_resets :
    (all : List Team) (a b : ℕ) → HasNoScore all a → HasNoScore (modify all b reset_score) a
unfolding reset_score
modify_resets [] a b h t e = cc
modify_resets (x ∷ xs) ℕ.zero ℕ.zero h t e = ground (arith, e)
modify_resets (x ∷ xs) ℕ.zero (suc b) h t e = h t e
modify_resets (x ∷ xs) (suc a) ℕ.zero h t e = h t e
modify_resets (x ∷ xs) (suc a) (suc b) h t e = modify_resets xs a b h t e

modify_reset_self : (all : List Team) (a : ℕ) → HasNoScore (modify all a reset_score) a
unfolding reset_score
modify_reset_self [] a t e = cc
modify_reset_self (x ∷ xs) ℕ.zero t e = ground (arith, e)
modify_reset_self (x ∷ xs) (suc a) t e = modify_reset_self xs a t e

reset_scores_keeps :
    (teams : Map Text ℕ) (all : List Team) (a : ℕ)
    → HasNoScore all a
    → HasNoScore (reset_scores teams all) a
unfolding reset_scores
reset_scores_keeps [] all a h = h
reset_scores_keeps ((n, b) ∷ teams) all a h =
    reset_scores_keeps teams (modify all b reset_score) a (modify_resets all a b h)

pub reset_scores-HasNoScore :
    (teams : Map Text ℕ) (all : List Team)
    → All (λ e. HasNoScore (reset_scores teams all) e.1) teams
unfolding reset_scores
reset_scores-HasNoScore [] all = tt
reset_scores-HasNoScore ((n, a) ∷ teams) all = (
  reset_scores_keeps teams (modify all a reset_score) a (modify_reset_self all a),
  reset_scores-HasNoScore teams (modify all a reset_score),
)

-- The time at which a game is told to start.
abbrev pub starts_at : Option Time → Time → Time
starts_at none local_time = local_time
starts_at (some t) local_time = t

unfoldable pub restarted : Option Time → Time → Game → Game
restarted forced local_time game = record game {
  is_running = true;
  winner = none;
  all_teams = reset_scores game.teams game.all_teams;
  start_time = starts_at forced local_time;
  time = starts_at forced local_time;
  items = if game.is_running then reset_all_items game.items else game.items;
}

pub start-restarted :
    (forced : Option Time) (local_time : Time) (game : Game)
    → start true forced local_time game ≡ restarted forced local_time game
unfolding start restarted
start-restarted none local_time game = ground arith
start-restarted (some t) local_time game = ground arith

no_time : (t : Time) → t -ℤ t ≡ pos 0
unfolding ◌-ℤ◌
no_time t = ground arith

-- A forced start of any game leaves it running, with no winner, the two times at the start, no
-- score in any team of the map and all of the duration left. The items are reset where the game
-- ran before, and the contacts stay.
pub start_forced :
    (forced : Option Time) (local_time : Time) (game : Game) (d : ℕ)
    → game.game_duration ≡ pos d
    → seconds d < 2 ^ 64
    → let after = start true forced local_time game in
      (after.is_running ≡ true)
      × (after.winner ≡ none)
      × (after.start_time ≡ starts_at forced local_time)
      × (after.time ≡ starts_at forced local_time)
      × All (λ e. HasNoScore after.all_teams e.1) after.teams
      × (get_seconds_left after ≡ seconds d)
      × (after.items ≡ (if game.is_running then reset_all_items game.items else game.items))
      × (after.contacts ≡ game.contacts)
unfolding restarted
start_forced forced local_time game d lasts small = rw (start-restarted forced local_time game) (
  refl,
  refl,
  refl,
  refl,
  reset_scores-HasNoScore game.teams game.all_teams,
  get_seconds_left_running (restarted forced local_time game) d 0 refl lasts
        (no_time (starts_at forced local_time)) small (omega arith)
      ∙ ground arith,
  refl,
  refl,
)

-- A start that is not forced changes nothing while the game runs. Otherwise it sets the two times
-- and lets the game run, and keeps the scores and the winner. A second stop changes nothing, and no
-- game runs after a stop.
start-stop_again :
    (forced : Option Time) (local_time : Time) (game : Game)
    → (start false forced local_time game ≡ (
        if game.is_running then game else record game {
          start_time = starts_at forced local_time;
          time = starts_at forced local_time;
          is_running = true;
        }))
      × (stop (stop game) ≡ stop game)
      × ((stop game).is_running ≡ false)
unfolding start stop
start-stop_again none local_time game = (ground arith, ground arith, ground arith)
start-stop_again (some t) local_time game = (ground arith, ground arith, ground arith)
