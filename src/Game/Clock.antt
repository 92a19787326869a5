-- ===== src/Game/Clock.antt =====
-- src/orwell/game/Clock.cpp: a clock that runs down, by simulated or by real ticks.
pub mod Run
use server_game.Base.{ℕ, Bool, true, false, if◌then◌else◌}
use server_game.Base.Int.{◌+ℤ◌, ◌-ℤ◌, leb_ℤ}
use server_game.Game.Types.{Time, Duration, total_seconds}
use server_game.Game.Rules.{to_u64}

pub record Clock : Type 0 where
  pub duration : Duration
  pub is_running : Bool
  pub time : Time
  pub start_time : Time

-- Clock::Clock; the two points in time are `not_a_date_time`.
abbrev pub make : Time → Duration → Clock
make not_a_date_time duration = record {
  duration = duration;
  is_running = false;
  time = not_a_date_time;
  start_time = not_a_date_time;
}

unfoldable pub get_seconds_left : Clock → ℕ
get_seconds_left clock =
    if clock.is_running
    then to_u64 (total_seconds clock.duration +ℤ total_seconds (clock.start_time -ℤ clock.time))
    else to_u64 (total_seconds clock.duration)

unfoldable pub start : Time → Clock → Clock
start local_time clock =
    if clock.is_running
    then clock
    else record clock { is_running = true; time = local_time; start_time = local_time }

unfoldable pub stop : Clock → Clock
stop clock = if clock.is_running then record clock { is_running = false } else clock

unfoldable pub check_reached_duration : Clock → Clock
check_reached_duration clock =
    if leb_ℤ clock.duration (clock.time -ℤ clock.start_time)
    then record clock { is_running = false }
    else clock

unfoldable pub tick_internal : Time → Clock → Clock
unfolding check_reached_duration
tick_internal new_time clock = check_reached_duration (record clock { time = new_time })

unfoldable pub tick_delta : Duration → Clock → Clock
unfolding tick_internal
tick_delta tick_duration clock =
    if clock.is_running then tick_internal (clock.time +ℤ tick_duration) clock else clock

unfoldable pub tick : Time → Clock → Clock
unfolding tick_internal
tick local_time clock = if clock.is_running then tick_internal local_time clock else clock
