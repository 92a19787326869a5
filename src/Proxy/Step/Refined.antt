-- ===== src/Proxy/Step/Refined.antt =====
-- AgentProxy::step on the text of a command.
use server_game.Base.{◌≡◌, refl, ap, ◌∙◌, none, some, ◌>>=◌}
use server_game.Base.Text.{str, text_key, compare_text}
use server_game.Game.Sound.{IsSound}
use server_game.Application.State.{Application, Host}
use server_game.Proxy.Reply.{OutputMode}
use server_game.Proxy.Stream.Words.{IsWord}
use server_game.Proxy.Step
use server_game.Proxy.Step.{Surroundings, Outcome}
use server_game.Proxy.Step.Commands.{done, fall_back-done, step-words, keyword}
use server_game.Proxy.Step.Language.{
  Command, game_started, game_stopped, application_stopped, team_added, team_removed, player_added,
  player_removed, robot_removed, registered, unregistered, robot_added, video_url_set, address_set,
  score_set, written, print, call, HasNames, perform-call,
}
use server_game.Proxy.Step.Effects.{effect}
use server_game.Proxy.Step.Called.{call-effect}

-- The action is a word that no entry of the map of actions has.
action : (c : Command) → IsWord (written c).0 × (Step.find_action (written c).0 ≡ none)
unfolding written Step.find_action compare_text
action game_started = (keyword (str "start") refl refl, refl)
action game_stopped = (keyword (str "stop") refl refl, refl)
action application_stopped = (keyword (str "stop") refl refl, refl)
action (team_added n) = (keyword (str "add") refl refl, refl)
action (team_removed n) = (keyword (str "remove") refl refl, refl)
action (player_added n) = (keyword (str "add") refl refl, refl)
action (player_removed n) = (keyword (str "remove") refl refl, refl)
action (robot_removed n) = (keyword (str "remove") refl refl, refl)
action (registered n) = (keyword (str "register") refl refl, refl)
action (unregistered n) = (keyword (str "unregister") refl refl, refl)
action (robot_added n t) = (keyword (str "add") refl refl, refl)
action (video_url_set n v) = (keyword (str "set") refl refl, refl)
action (address_set n v) = (keyword (str "set") refl refl, refl)
action (score_set n v) = (keyword (str "set") refl refl, refl)

pub step_calls :
    (env : Surroundings) (c : Command) (app : Application)
    → HasNames c
    → Step.step env OutputMode.text (print c) app ≡ (call env c app >>= done)
unfolding print
step_calls env c app h =
    step-words env (written c).0 (written c).1 app (action c).0 (action c).1
    ∙ ap (λ r. r >>= Step.fall_back env OutputMode.text) (perform-call env (print c) c app h)
    ∙ fall_back-done env (call env c app)

-- AgentProxy::step in text mode, on the text of a command whose names are words without quotes,
-- does what the command stands for and answers OK: for an application with a server whose game is
-- sound, a team, a player or a robot is added, removed, registered, unregistered or given its url,
-- address or score, the game is started or stopped, or the application is.
pub step-print :
    (env : Surroundings) (c : Command) (app : Application) (host : Host)
    → HasNames c
    → IsSound host.game
    → app.server ≡ some host
    → Step.step env OutputMode.text (print c) app ≡ (effect env c app host >>= done)
step-print env c app host h v e =
    step_calls env c app h ∙ ap (λ r. r >>= done) (call-effect env c app host h v e)
