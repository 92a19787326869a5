-- ===== src/Game/Clock/Run.antt =====
-- A clock that is ticked runs until its duration is over, and not longer.
use server_game.Base.{
  ℕ, ◌<◌, ◌+◌, ◌≡◌, refl, ap, ◌∙◌, inl, inr, true, false, List, [], ◌∷◌, arith, ltb, Bool-cases,
  ltb→lt,
}
use server_game.Base.Int.{pos, ◌+ℤ◌, ◌-ℤ◌}
use server_game.Game.Types.{Time}
use server_game.Game.Clock.{Clock, start, tick_delta}

-- A started clock that is then ticked by the given steps.
unfoldable pub run : List ℕ → Clock → Clock
run [] clock = clock
run (d ∷ ds) clock = run ds (tick_delta (pos d) clock)

unfoldable pub total : List ℕ → ℕ
total [] = 0
total (d ∷ ds) = d + total ds

stopped_stays : (ds : List ℕ) (clock : Clock) → clock.is_running ≡ false → run ds clock ≡ clock
unfolding run tick_delta
stopped_stays [] clock h = refl
stopped_stays (d ∷ ds) clock h = ground (arith, stopped_stays ds clock h)

module _ (clock : Clock) (length elapsed d : ℕ) (running : clock.is_running ≡ true)
    (lasts : clock.duration ≡ pos length)
    (past : clock.time -ℤ clock.start_time ≡ pos elapsed) where
  later : clock.time +ℤ pos d -ℤ clock.start_time ≡ pos (elapsed + d)
  unfolding ◌+ℤ◌ ◌-ℤ◌
  later = ground arith

  tick_step :
      tick_delta (pos d) clock
      ≡ record clock { time = clock.time +ℤ pos d; is_running = ltb (elapsed + d) length }
  unfolding tick_delta
  tick_step = ground (arith, later)

run_from :
    (ds : List ℕ) (clock : Clock) (length elapsed : ℕ)
    → clock.is_running ≡ true
    → clock.duration ≡ pos length
    → clock.time -ℤ clock.start_time ≡ pos elapsed
    → elapsed < length
    → (run ds clock).is_running ≡ ltb (elapsed + total ds) length
unfolding run total
run_from [] clock length elapsed running e p h = ground arith
run_from (d ∷ ds) clock length elapsed running e p h =
    elim (Bool-cases (ltb (elapsed + d) length)) [
      | inl going ↦
          rw (tick_step clock length elapsed d running e p, going, run)
            (run_from ds (record clock { time = clock.time +ℤ pos d; is_running = true }) length
                (elapsed + d) refl e (later clock length elapsed d running e p) (ltb→lt _ _ going)
              ∙ ground arith)
      | inr over ↦
          rw (tick_step clock length elapsed d running e p, over, run)
            (ap (λ (c : Clock). c.is_running) (stopped_stays ds _ refl) ∙ ground arith)
    ]

start_gap : (t : Time) → t -ℤ t ≡ pos 0
unfolding ◌-ℤ◌
start_gap t = ground arith

-- A clock that stands still and is given a positive duration is started and then ticked by any
-- steps: it is running just while the steps add up to less than its duration.
pub clock_runs_out :
    (clock : Clock) (t : Time) (length : ℕ) (ds : List ℕ)
    → clock.is_running ≡ false
    → clock.duration ≡ pos length
    → 0 < length
    → (run ds (start t clock)).is_running ≡ ltb (total ds) length
unfolding start
clock_runs_out clock t length ds still lasts h =
    rw (still, start)
      (run_from ds (record clock { is_running = true; time = t; start_time = t }) length 0 refl
          lasts (start_gap t) h
        ∙ ground arith)
