-- ===== src/Game/Sound/Operations.antt =====
-- Every sequence of the operations of class Game keeps its invariant.
use server_game.Base.{
  ℕ, ◌≡◌, refl, subst, Bool, Option, List, [], ◌∷◌, Result, ok, ◌>>=◌, >>=-ok, ok-injective,
}
use server_game.Base.Text.{Text, text_key}
use server_game.Base.StdMap.{find}
use server_game.Game.Types.{Game, Time, Duration, Ruleset, Registry, Landmark}
use server_game.Game.Team
use server_game.Game.Roster
use server_game.Game.Contact
use server_game.Game.Rules
use server_game.Game.Sound.{IsSound}
use server_game.Game.Sound.Unchanged.{
  SameNames, SameNames-trans, IsSound-same, same_teams, handle_contacts-SameNames, touch-SameNames,
  drop-SameNames,
}
use server_game.Game.Sound.Course.{start-SameNames, stop-SameNames, finish-SameNames}
use server_game.Game.Sound.Added.{
  add_team-IsSound, remove_team-IsSound, add_player-IsSound, remove_player-IsSound,
  add_robot-IsSound, remove_robot-IsSound, register-IsSound, change_robot-IsSound,
  change_player-IsSound,
}

-- A call of a member function of class Game that changes it, or of a setter of a robot or a player
-- that one of its accessors has handed out.
pub data Operation : Type 0 where
  team_added team_removed player_added player_removed robot_removed registered : Text → Operation
  robot_added : Text → Text → ℕ → ℕ → Text → Operation
  real_robot_set : ℕ → Bool → Operation
  video_url_set : ℕ → Text → Operation
  player_set : ℕ → ℕ → Operation
  robot_set : ℕ → ℕ → Operation
  address_set : ℕ → Text → Operation
  duration_set : Duration → Operation
  time_set : Time → Operation
  limits_set : List Landmark → Operation
  started : Bool → Option Time → Time → Operation
  stopped stepped : Operation
  touched dropped : Text → ℕ → Operation

unfoldable pub perform : Operation → Game → Result Game
perform (team_added n) g = ok (Team.add_team n g).0
perform (team_removed n) g = ok (Team.remove_team n g).0
perform (player_added n) g = ok (Roster.add_player n g).0
perform (player_removed n) g = ok (Roster.remove_player n g).0
perform (robot_removed n) g = ok (Roster.remove_robot n g).0
perform (registered n) g = do r ← Roster.get_robot_without_real_robot n g; ok r.0
perform (robot_added name team vp cp id) g = do r ← Roster.add_robot name team vp cp id g; ok r.0
perform (real_robot_set i real) g = ok (Roster.change_robot i (Roster.set_has_real_robot real) g)
perform (video_url_set i url) g = ok (Roster.change_robot i (Roster.set_video_url url) g)
perform (player_set i p) g = ok (Roster.change_robot i (Roster.set_player p) g)
perform (robot_set i r) g = ok (Roster.change_player i (Roster.set_robot r) g)
perform (address_set i a) g = ok (Roster.change_player i (Roster.set_address a) g)
perform (duration_set d) g = ok (Rules.set_duration d g)
perform (time_set t) g = ok (Rules.set_time t g)
perform (limits_set ls) g = ok (Rules.set_map_limits ls g)
perform (started force forced now) g = ok (Rules.start force forced now g)
perform stopped g = ok (Rules.stop g)
perform stepped g = Rules.step g
perform (touched id item) g = Contact.robot_is_in_contact_with id item g
perform (dropped id item) g = ok (Contact.robot_drops_contact_with id item g)

pub perform-IsSound : (op : Operation) (f g : Game) → perform op f ≡ ok g → IsSound f → IsSound g
unfolding perform Roster.set_has_real_robot Roster.set_video_url Roster.set_player Roster.set_robot
    Roster.set_address Rules.set_duration Rules.set_time Rules.set_map_limits Rules.step
perform-IsSound (team_added n) f g e v = subst IsSound (ok-injective e) (add_team-IsSound n f v)
perform-IsSound (team_removed n) f g e v =
    subst IsSound (ok-injective e) (remove_team-IsSound n f v)
perform-IsSound (player_added n) f g e v = subst IsSound (ok-injective e) (add_player-IsSound n f v)
perform-IsSound (player_removed n) f g e v =
    subst IsSound (ok-injective e) (remove_player-IsSound n f v)
perform-IsSound (robot_removed n) f g e v =
    subst IsSound (ok-injective e) (remove_robot-IsSound n f v)
perform-IsSound (registered n) f g e v =
    let (r, done, e') = >>=-ok (Roster.get_robot_without_real_robot n f) _ e in
    subst IsSound (ok-injective e') (register-IsSound n f r done v)
perform-IsSound (robot_added name team vp cp id) f g e v =
    let (r, done, e') = >>=-ok (Roster.add_robot name team vp cp id f) _ e in
    subst IsSound (ok-injective e') (add_robot-IsSound name team vp cp id f r done v)
perform-IsSound (real_robot_set i real) f g e v =
    subst IsSound (ok-injective e) (change_robot-IsSound i _ f (λ r. (refl, refl)) v)
perform-IsSound (video_url_set i url) f g e v =
    subst IsSound (ok-injective e) (change_robot-IsSound i _ f (λ r. (refl, refl)) v)
perform-IsSound (player_set i p) f g e v =
    subst IsSound (ok-injective e) (change_robot-IsSound i _ f (λ r. (refl, refl)) v)
perform-IsSound (robot_set i r) f g e v =
    subst IsSound (ok-injective e) (change_player-IsSound i _ f (λ p. refl) v)
perform-IsSound (address_set i a) f g e v =
    subst IsSound (ok-injective e) (change_player-IsSound i _ f (λ p. refl) v)
perform-IsSound (duration_set d) f g e v =
    IsSound-same f g
      (subst (λ h. SameNames f h) (ok-injective e)
        (same_teams f _ refl refl refl refl refl refl refl refl))
      v
perform-IsSound (time_set t) f g e v =
    IsSound-same f g
      (subst (λ h. SameNames f h) (ok-injective e)
        (same_teams f _ refl refl refl refl refl refl refl refl))
      v
perform-IsSound (limits_set ls) f g e v =
    IsSound-same f g
      (subst (λ h. SameNames f h) (ok-injective e)
        (same_teams f _ refl refl refl refl refl refl refl refl))
      v
perform-IsSound (started force forced now) f g e v =
    IsSound-same f g
      (subst (λ h. SameNames f h) (ok-injective e) (start-SameNames force forced now f)) v
perform-IsSound stopped f g e v =
    IsSound-same f g (subst (λ h. SameNames f h) (ok-injective e) (stop-SameNames f)) v
perform-IsSound stepped f g e v =
    let (h, done, e') = >>=-ok (Contact.handle_contacts f) _ e in
    IsSound-same f g
      (subst (λ k. SameNames f k) (ok-injective e')
        (SameNames-trans f h _ (handle_contacts-SameNames f h done) (finish-SameNames h)))
      v
perform-IsSound (touched id item) f g e v = IsSound-same f g (touch-SameNames id item f g e) v
perform-IsSound (dropped id item) f g e v =
    IsSound-same f g (subst (λ h. SameNames f h) (ok-injective e) (drop-SameNames id item f)) v

unfoldable pub run : List Operation → Game → Result Game
run [] g = ok g
run (op ∷ ops) g = do h ← perform op g; run ops h

run_keeps : (ops : List Operation) (f g : Game) → run ops f ≡ ok g → IsSound f → IsSound g
unfolding run
run_keeps [] f g e v = subst IsSound (ok-injective e) v
run_keeps (op ∷ ops) f g e v =
    let (h, done, e') = >>=-ok (perform op f) (run ops) e in
    run_keeps ops h g e' (perform-IsSound op f h done v)

pub make-IsSound :
    (unset : Time) (duration : Duration) (rules : Ruleset) (items : Registry)
    → IsSound (Rules.make unset duration rules items)
unfolding find
make-IsSound unset duration rules items = record {
  robots_sorted = tt;
  ids_sorted = tt;
  players_sorted = tt;
  teams_sorted = tt;
  robots_named = λ n a e. cc;
  ids_named = λ n a e. cc;
  players_named = λ n a e. cc;
  teams_named = λ n a e. cc;
}

-- A game as it is made is sound, and so is what any sequence of operations makes of it, unless one
-- of them faults: the maps of the robots, of their ids, of the players and of the teams are in
-- strictly increasing order, and each entry leads to an object with that name or id.
pub run-IsSound :
    (unset : Time) (duration : Duration) (rules : Ruleset) (items : Registry) (ops : List Operation)
    (g : Game)
    → run ops (Rules.make unset duration rules items) ≡ ok g
    → IsSound g
run-IsSound unset duration rules items ops g e =
    run_keeps ops (Rules.make unset duration rules items) g e
      (make-IsSound unset duration rules items)
