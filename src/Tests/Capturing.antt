-- ===== src/Tests/Capturing.antt =====
-- Examples for the contacts and the flag detector.
use server_game.Base.{ℕ, ◌≡◌, ◌≢◌, refl, true, false, some, [], ◌∷◌, ok, get_elem?, arith}
use server_game.Base.Int.{pos, ◌+ℤ◌}
use server_game.Base.Text.{compare_text, text_key}
use server_game.Base.StdMap.{find}
use server_game.Game.Types.{Game, succeeded, failed, started, silence_i_kill_u}
use server_game.Game.Team.{deref}
use server_game.Game.Contact.{step, robot_is_in_contact_with}
use server_game.Game.Contact.Steps.{IsReady, handle_contacts-Ready}
use server_game.Game.Contact.Captures.{
  step_captures, robot_is_in_contact_with_starts, robot_is_in_contact_with_again,
}
use server_game.Game.Detector.Machine.{IsCoherent, Returns, watch, watch-IsCoherent}
use server_game.Tests.{
  a_game, touching, a_contact, a_robot, red_team, flag, red, robot_0, a_detector,
}

abbrev ready_there : IsReady touching a_contact
ready_there = record {
  open_still = refl;
  who = a_robot;
  robot_there = refl;
  team_live = refl;
  team_there = omega arith;
  item_there = omega arith;
}

handle_contacts-Ready_example : (handle_contacts-Ready touching (ready_there, tt)).0.contacts ≡ []
handle_contacts-Ready_example = (handle_contacts-Ready touching (ready_there, tt)).2

step_captures_example :
    (after : Game) × (step a_contact (pos 8) touching
      ≡ ok (silence_i_kill_u, record a_contact { finished = true }, after))
    × (get_elem? after.items.all_items 0
        ≡ some (record flag { owning_team = red; capture_state = succeeded }))
    × (get_elem? after.all_teams 0 ≡ some (record red_team { score = 10 }))
    × ((j : ℕ) → 0 ≢ j → get_elem? after.items.all_items j ≡ get_elem? touching.items.all_items j)
    × ((j : ℕ) → 0 ≢ j → get_elem? after.all_teams j ≡ get_elem? touching.all_teams j)
unfolding compare_text
step_captures_example =
    step_captures a_contact (pos 8) touching red_team flag ready_there refl refl refl

robot_is_in_contact_with_starts_example :
    (after : Game) × (robot_is_in_contact_with robot_0 0 a_game ≡ ok after)
    × (find robot_0 after.contacts
        ≡ some (record { robot = 0; item = 0; stop_time = pos 5_000_005; finished = false }))
    × (get_elem? after.items.all_items 0
        ≡ some (record flag { capturing_team = red; capture_state = started }))
unfolding compare_text find deref ◌+ℤ◌
robot_is_in_contact_with_starts_example =
    robot_is_in_contact_with_starts robot_0 0 0 a_game a_robot red_team flag refl refl refl refl
      refl refl

robot_is_in_contact_with_again_example :
    (after : Game) × (robot_is_in_contact_with robot_0 0 touching ≡ ok after)
    × (find robot_0 after.contacts
        ≡ some (record { robot = 0; item = 0; stop_time = pos 5_000_005; finished = false }))
    × (get_elem? after.items.all_items 0
        ≡ some (record flag { capturing_team = red; capture_state = failed }))
unfolding compare_text find deref ◌+ℤ◌
robot_is_in_contact_with_again_example =
    robot_is_in_contact_with_again robot_0 0 0 touching a_robot red_team flag refl refl refl refl
      a_contact refl refl refl refl

watch-IsCoherent_example :
    Returns (watch (pos 2 ∷ pos 7 ∷ pos 1 ∷ []) a_detector a_game) (λ r. IsCoherent r.0)
watch-IsCoherent_example = watch-IsCoherent (pos 2 ∷ pos 7 ∷ pos 1 ∷ []) a_detector a_game refl
