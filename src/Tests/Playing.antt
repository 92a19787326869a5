-- ===== src/Tests/Playing.antt =====
-- Examples for the rules, the clock and the turns of the sockets.
use server_game.Base.{◌≡◌, refl, true, false, none, some, [], ◌∷◌, arith}
use server_game.Base.Int.{pos, negsuc, ◌-ℤ◌}
use server_game.Base.Text.{text_key}
use server_game.Game.Types.{Game}
use server_game.Game.Item.{reset_all_items, reset}
use server_game.Game.Rules.{get_seconds_left, stop_if_game_is_finished, winning_teams, start}
use server_game.Game.Rules.Remaining.{stop_by_time}
use server_game.Game.Rules.Score.{Loses, sole_winner}
use server_game.Game.Rules.Course.{start_forced}
use server_game.Game.Clock
use server_game.Game.Clock.Run
use server_game.Tests.{a_game, red_team, blue_team, red, blue}

-- The teams after a capture by the red one.
abbrev won : Game
won = record a_game { all_teams = record red_team { score = 10 } ∷ blue_team ∷ [] }

blue-Loses : Loses 10 won.all_teams (blue, 1)
blue-Loses t e = ground (arith, e)

sole_winner_example :
    stop_if_game_is_finished won
    ≡ record won { winner = some red; is_running = false; items = reset_all_items won.items }
unfolding reset_all_items reset get_seconds_left ◌-ℤ◌
sole_winner_example =
    sole_winner won ((blue, 1) ∷ []) [] red 0 (record red_team { score = 10 }) refl (omega arith)
      refl (omega arith) (blue-Loses, tt) refl tt

-- Both teams have the score.
abbrev even : Game
even = record a_game {
  all_teams = record red_team { score = 10 } ∷ record blue_team { score = 12 } ∷ [];
}

-- One second over.
abbrev overdue : Game
overdue = record a_game { time = pos 21_000_000 }

stop_by_time_example : stop_if_game_is_finished overdue ≡ overdue
unfolding ◌-ℤ◌ winning_teams
stop_by_time_example =
    stop_by_time overdue 20_000_000 21_000_000 refl refl refl (omega arith) (omega arith) refl

start_forced_example : get_seconds_left (start true none (pos 77) overdue) ≡ 20
start_forced_example = (start_forced none (pos 77) overdue 20_000_000 refl (omega arith)).5

clock_runs_out_example :
    (Run.run (3 ∷ 4 ∷ []) (Clock.start (pos 50) (Clock.make (negsuc 0) (pos 8)))).is_running ≡ true
unfolding Run.total
clock_runs_out_example =
    Run.clock_runs_out (Clock.make (negsuc 0) (pos 8)) (pos 50) 8 (3 ∷ 4 ∷ []) refl refl
      (omega arith)
