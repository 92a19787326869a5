-- ===== src/Proxy/Step/ReadBack.antt =====
-- What `set` writes, `get` reads.
use server_game.Base.{
  ℕ, ◌≡◌, refl, ap, ◌∙◌, true, some, List, [], ◌∷◌, ◌++◌, Result, ok, get_elem?, ◌>>=◌,
  get_elem?-modify_self,
}
use server_game.Base.Text.{Text, str, text_key, compare_text}
use server_game.Base.StdMap.{find}
use server_game.Game.Types.{Game, Robot}
use server_game.Game.Roster
use server_game.Game.Sound.{IsSound}
use server_game.Application.State.{Application, Host, access_server}
use server_game.Proxy.Reply.{OutputMode, no_reply, assign, Json, succeeded}
use server_game.Proxy.Stream.Words.{IsWord, before, spaced, extract-before, extract-open}
use server_game.Proxy.Stream.Names.{read_name-before}
use server_game.Proxy.Getting
use server_game.Proxy.Agent.{put_game}
use server_game.Proxy.Step
use server_game.Proxy.Step.{Surroundings, Outcome}
use server_game.Proxy.Step.Commands.{Name, IsName, name_text, written_name, keyword}
use server_game.Proxy.Step.Language.{print, video_url_set}
use server_game.Proxy.Step.Effects.{effect, game_effect, tell_robot}
use server_game.Proxy.Step.Refined.{step-print}

-- The words behind `get`.
abbrev pub asking : Name → List Text
asking n = str "robot" ∷ written_name n ++ str "video_url" ∷ []

-- `get robot <name> video_url`
abbrev pub get_text : Name → Text
get_text n = str "get" ++ spaced (asking n)

robot_reads :
    (dump : Json → Result Text) (name : Text) (game : Game) (i : ℕ) (robot : Robot)
    → find name game.robots ≡ some i
    → get_elem? game.all_robots i ≡ some robot
    → Getting.get_robot dump OutputMode.text name (some (str "video_url")) game
      ≡ ok (assign robot.video_url no_reply)
unfolding Getting.get_robot Roster.access_robot Getting.robot_text compare_text
robot_reads dump name game i robot e h = rw (Getting.get_robot, e, h) refl

process_reads :
    (dump : Json → Result Text) (whole : Text) (n : Name) (game : Game) (i : ℕ) (robot : Robot)
    → IsName n
    → find (name_text n) game.robots ≡ some i
    → get_elem? game.all_robots i ≡ some robot
    → Getting.get_process dump OutputMode.text (before whole (asking n)) game
      ≡ ok (assign robot.video_url no_reply)
unfolding Getting.get_process Getting.get_object compare_text
process_reads dump whole n game i robot h e r =
    rw
      (
        extract-before [] whole (str "robot") (written_name n ++ str "video_url" ∷ [])
            (keyword (str "robot") refl refl),
        read_name-before whole n.first n.others (str "video_url" ∷ []) h.head h.rest,
        extract-before [] whole (str "video_url") [] (keyword (str "video_url") refl refl),
      )
      (robot_reads dump (name_text n) game i robot e r)

-- A command whose first word is an action is left to it.
step_asks :
    (env : Surroundings) (w : Text) (ws : List Text) (action : Step.Action) (app : Application)
    → IsWord w
    → Step.find_action w ≡ some action
    → Step.step env OutputMode.text (w ++ spaced ws) app
      ≡ Step.query env action OutputMode.text (before (w ++ spaced ws) ws) app
unfolding Step.step Step.step_text
step_asks env w ws action app h e =
    rw (extract-open w ws h, Step.step_text, e) (rw (extract-open w ws h) refl)

query_reads :
    (env : Surroundings) (whole : Text) (n : Name) (app : Application) (host : Host) (i : ℕ)
    (robot : Robot)
    → IsName n
    → access_server app ≡ ok host
    → find (name_text n) host.game.robots ≡ some i
    → get_elem? host.game.all_robots i ≡ some robot
    → Step.query env Step.get OutputMode.text (before whole (asking n)) app
      ≡ ok (app, true, robot.video_url)
unfolding Step.query Step.answer assign
query_reads env whole n app host i robot h s e r =
    ap
      (λ o. o >>= λ host.
        Getting.get_process env.dump OutputMode.text (before whole (asking n)) host.game
        >>= λ reply. ok (app, succeeded reply, reply.reply))
      s
    ∙ ap (λ o. o >>= λ reply. ok (app, succeeded reply, reply.reply))
        (process_reads env.dump whole n host.game i robot h e r)

-- The application once the url is set.
abbrev pub with_url : Text → Text → Application → Host → Application
with_url name url app host =
    put_game (tell_robot name (Roster.set_video_url url) host.game) app host

get_reads :
    (env : Surroundings) (n : Name) (url : Text) (app : Application) (host : Host) (i : ℕ)
    (robot : Robot)
    → IsName n
    → find (name_text n) host.game.robots ≡ some i
    → get_elem? host.game.all_robots i ≡ some robot
    → Step.step env OutputMode.text (get_text n) (with_url (name_text n) url app host)
      ≡ ok (with_url (name_text n) url app host, true, url)
unfolding Step.find_action compare_text tell_robot Roster.set_video_url
get_reads env n url app host i robot h e r =
    step_asks env (str "get") (asking n) Step.get (with_url (name_text n) url app host)
      (keyword (str "get") refl refl) refl
    ∙ query_reads env (get_text n) n (with_url (name_text n) url app host)
        (record host { game = tell_robot (name_text n) (Roster.set_video_url url) host.game }) i
        (Roster.set_video_url url robot) h refl (rw (tell_robot, e) e)
        (rw (tell_robot, e)
          (get_elem?-modify_self host.game.all_robots i (Roster.set_video_url url) robot r))

-- `set robot <name> video_url <url>` and then `get robot <name> video_url`, for a robot of a sound
-- game whose name has words without quotes and an url without spaces: the second reply is the url.
pub get-set :
    (env : Surroundings) (n : Name) (url : Text) (app : Application) (host : Host) (i : ℕ)
    → IsName n
    → IsWord url
    → IsSound host.game
    → app.server ≡ some host
    → find (name_text n) host.game.robots ≡ some i
    → (Step.step env OutputMode.text (print (video_url_set n url)) app >>= λ o.
        Step.step env OutputMode.text (get_text n) o.0)
      ≡ ok (with_url (name_text n) url app host, true, url)
unfolding effect game_effect
get-set env n url app host i h hu v s e =
    let (robot, there, named) = v.robots_named (name_text n) i e in
    ap (λ r. r >>= λ o. Step.step env OutputMode.text (get_text n) o.0)
      (step-print env (video_url_set n url) app host (h, hu) v s)
    ∙ get_reads env n url app host i robot h e there
