-- ===== src/Game/Rules/Remaining.antt =====
-- Game::getSecondsLeft and the end of the game by time.
use server_game.Base.{ℕ, ◌-◌, ◌/◌, ◌^◌, ◌<◌, ◌≡◌, true, [], arith, leb, if◌then◌else◌}
use server_game.Base.Key.{◌==◌, nat_key}
use server_game.Base.Int.{pos, ◌-ℤ◌}
use server_game.Game.Types.{Game, microseconds}
use server_game.Game.Rules.{get_seconds_left, stop, judge, winning_teams, stop_if_game_is_finished}

abbrev pub seconds : ℕ → ℕ
seconds d = d / microseconds

module _ (game : Game) (d e : ℕ) (running : game.is_running ≡ true)
    (lasts : game.game_duration ≡ pos d) (past : game.time -ℤ game.start_time ≡ pos e)
    (small : seconds d < 2 ^ 64) (near : seconds e < 2 ^ 63) where
  -- While a game runs: the whole seconds of its duration less those that have passed. Past the
  -- duration the difference is negative, and wraps round as a uint64_t.
  pub get_seconds_left_running : get_seconds_left game ≡ (
      if leb (seconds e) (seconds d)
      then seconds d - seconds e
      else 2 ^ 64 - (seconds e - seconds d))
  unfolding get_seconds_left ◌-ℤ◌
  get_seconds_left_running = rw (running, lasts, past) (ground arith)

  -- A running game that no team has won is stopped by time just while the seconds that have
  -- passed are those of its duration: before, and again one second later, it goes on unchanged.
  pub stop_by_time :
      winning_teams game.rules.score_to_win game.teams game.all_teams ≡ []
      → stop_if_game_is_finished game ≡ (if seconds e == seconds d then stop game else game)
  unfolding stop_if_game_is_finished judge
  stop_by_time nobody = rw (get_seconds_left_running, nobody) (ground arith)
