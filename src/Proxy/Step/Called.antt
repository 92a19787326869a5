-- ===== src/Proxy/Step/Called.antt =====
-- The member function that a command calls does what the command is to do.
use server_game.Base.{
  ℕ, ◌≡◌, refl, ap, ◌∙◌, Bool, true, false, Option, none, some, [], ◌∷◌, ◌++◌, Result, ok, err,
  catching, ◌>>=◌, arith, inl, inr, Option-cases,
}
use server_game.Base.Text.{Text, str, text_key, compare_text}
use server_game.Base.StdMap.{find}
use server_game.Game.Types.{Game, Robot, Player}
use server_game.Game.Team
use server_game.Game.Roster
use server_game.Game.Rules
use server_game.Game.Sound.{IsSound}
use server_game.Application.State.{Application, Host, pop_port}
use server_game.Proxy.Stream.{is_nil}
use server_game.Proxy.Stream.Words.{spaced}
use server_game.Proxy.Agent
use server_game.Proxy.Agent.{put_game}
use server_game.Proxy.Step.{Surroundings}
use server_game.Proxy.Step.Commands.{Name, IsName, name_text}
use server_game.Proxy.Step.Language.{
  Command, game_started, game_stopped, application_stopped, team_added, team_removed, player_added,
  player_removed, robot_removed, registered, unregistered, robot_added, video_url_set, address_set,
  score_set, call, HasNames,
}
use server_game.Proxy.Step.Effects.{
  tell_robot, tell_player, tell_score, game_effect, add_with_ports, effect,
}

with_game-server :
    (f : Game → Result Game) (app : Application) (host : Host)
    → app.server ≡ some host
    → Agent.with_game f app ≡ (f host.game >>= λ game. ok (put_game game app host))
unfolding Agent.with_game
with_game-server f app host e = rw e refl

pop_port-server : (app : Application) → (pop_port app).0.server ≡ app.server
unfolding pop_port
pop_port-server app = ground arith

-- Nothing happens to the application where the game is left as it is.
same :
    (app : Application) (host : Host) → app.server ≡ some host → app ≡ put_game host.game app host
same app host e = ap (λ s. record app { server = s }) e

call-robot :
    (name : Text) (f : Robot → Robot) (app : Application) (host : Host)
    → app.server ≡ some host
    → catching app (Agent.with_game (Agent.change_robot_named name f) app)
      ≡ ok (put_game (tell_robot name f host.game) app host)
unfolding tell_robot Roster.access_robot
call-robot name f app host e =
    let w = with_game-server (Agent.change_robot_named name f) app host e in
    elim (Option-cases (find name host.game.robots)) [
      | inl miss ↦ rw (w, tell_robot, miss) (ap ok (same app host e))
      | inr (i, hit) ↦ rw (w, tell_robot, hit) refl
    ]

call-player :
    (name : Text) (f : Player → Player) (app : Application) (host : Host)
    → app.server ≡ some host
    → catching app (Agent.with_game (Agent.change_player_named name f) app)
      ≡ ok (put_game (tell_player name f host.game) app host)
unfolding tell_player Roster.access_player
call-player name f app host e =
    let w = with_game-server (Agent.change_player_named name f) app host e in
    elim (Option-cases (find name host.game.players)) [
      | inl miss ↦ rw (w, tell_player, miss) (ap ok (same app host e))
      | inr (i, hit) ↦ rw (w, tell_player, hit) refl
    ]

-- A team that the map has under a name is not the neutral one.
not_neutral :
    (name : Text) (game : Game) (t : ℕ)
    → IsSound game
    → is_nil name ≡ false
    → find name game.teams ≡ some t
    → Team.same_team Team.neutral (Team.get_team name game) ≡ false
unfolding Team.get_team compare_text
not_neutral [] game t h n e = cc
not_neutral (c ∷ cs) game t h n e =
    let (team, there, named) = h.teams_named (c ∷ cs) t e in
    rw (Team.get_team, e, there, named) refl

tell_miss :
    (score : Option ℕ) (name : Text) (game : Game)
    → find name game.teams ≡ none
    → tell_score score name game ≡ game
unfolding tell_score
tell_miss none name game e = refl
tell_miss (some k) name game e = rw (tell_score, e) refl

absent_neutral :
    (name : Text) (game : Game)
    → find name game.teams ≡ none
    → Team.same_team Team.neutral (Team.get_team name game) ≡ true
unfolding Team.get_team compare_text
absent_neutral name game e = rw (Team.get_team, e) refl

call-score :
    (lexical_u32 : Text → Option ℕ) (name value : Text) (app : Application) (host : Host)
    → is_nil name ≡ false
    → IsSound host.game
    → app.server ≡ some host
    → Agent.set_team lexical_u32 name (str "score") value app
      ≡ ok (put_game (tell_score (lexical_u32 value) name host.game) app host)
unfolding tell_score Agent.set_team Agent.score_set compare_text Agent.change_score
call-score lexical_u32 name value app host n h e =
    let w = with_game-server (Agent.score_set lexical_u32 name (str "score") value) app host e in
    elim (Option-cases (find name host.game.teams)) [
      | inl miss ↦
          rw
            (
              w,
              absent_neutral name host.game miss,
              tell_miss (lexical_u32 value) name host.game miss,
            )
            refl
      | inr (t, hit) ↦ elim (Option-cases (lexical_u32 value)) [
        | inl bad ↦ rw (w, not_neutral name host.game t h n hit, bad) (ap ok (same app host e))
        | inr (k, good) ↦
            rw (w, not_neutral name host.game t h n hit, good, tell_score, hit)
              (rw (Agent.change_score, hit) refl)
      ]
    ]

nonempty : (w rest : Text) → is_nil w ≡ false → is_nil (w ++ rest) ≡ false
nonempty [] rest e = cc
nonempty (c ∷ cs) rest e = refl

some_text : (n : Name) → IsName n → is_nil (name_text n) ≡ false
some_text n h = nonempty n.first (spaced n.others) h.head.head

bind-first :
    (r : Result (Game × Bool)) (k : Game → Application)
    → ((r >>= λ x. ok x.0) >>= λ game. ok (k game)) ≡ (r >>= λ x. ok (k x.0))
bind-first (ok x) k = refl
bind-first (err e) k = refl

call-add_robot :
    (video_first : Bool) (name team : Text) (app : Application) (host : Host)
    → app.server ≡ some host
    → Agent.add_robot video_first name team app ≡ add_with_ports video_first name team app host
unfolding Agent.add_robot add_with_ports
call-add_robot true name team app host e =
    with_game-server _ (pop_port (pop_port app).0).0 host
      (pop_port-server (pop_port app).0 ∙ pop_port-server app ∙ e)
    ∙ bind-first _ _
call-add_robot false name team app host e =
    with_game-server _ (pop_port (pop_port app).0).0 host
      (pop_port-server (pop_port app).0 ∙ pop_port-server app ∙ e)
    ∙ bind-first _ _

pub call-effect :
    (env : Surroundings) (c : Command) (app : Application) (host : Host)
    → HasNames c
    → IsSound host.game
    → app.server ≡ some host
    → call env c app ≡ effect env c app host
unfolding call effect game_effect Agent.start_game Agent.stop_game Agent.stop_application
    Agent.add_team Agent.remove_team Agent.add_player Agent.remove_player Agent.remove_robot
    Agent.add_robot Agent.set_robot Agent.set_player Agent.register_robot Agent.unregister_robot
    compare_text
call-effect env game_started app host h v e =
    with_game-server (λ g. ok (Rules.start true none env.now g)) app host e
call-effect env game_stopped app host h v e = with_game-server (λ g. ok (Rules.stop g)) app host e
call-effect env application_stopped app host h v e = refl
call-effect env (team_added n) app host h v e =
    with_game-server (λ g. ok (Team.add_team (name_text n) g).0) app host e
call-effect env (team_removed n) app host h v e =
    with_game-server (λ g. ok (Team.remove_team (name_text n) g).0) app host e
call-effect env (player_added n) app host h v e =
    with_game-server (λ g. ok (Roster.add_player (name_text n) g).0) app host e
call-effect env (player_removed n) app host h v e =
    with_game-server (λ g. ok (Roster.remove_player (name_text n) g).0) app host e
call-effect env (robot_removed n) app host h v e =
    with_game-server (λ g. ok (Roster.remove_robot (name_text n) g).0) app host e
call-effect env (registered n) app host h v e = call-robot (name_text n) _ app host e
call-effect env (unregistered n) app host h v e = call-robot (name_text n) _ app host e
call-effect env (robot_added n t) app host h v e =
    call-add_robot env.video_first (name_text n) (name_text t) app host e
call-effect env (video_url_set n w) app host h v e = call-robot (name_text n) _ app host e
call-effect env (address_set n w) app host h v e = call-player (name_text n) _ app host e
call-effect env (score_set n w) app host (h, hw) v e =
    call-score env.lexical_u32 (name_text n) w app host (some_text n h) v e
