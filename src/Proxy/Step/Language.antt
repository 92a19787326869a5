-- ===== src/Proxy/Step/Language.antt =====
-- The commands of the agent, how they are written, and the member function that each calls.
use server_game.Base.{◌≡◌, refl, List, [], ◌∷◌, ◌++◌, Result, ◌>>=◌}
use server_game.Base.Text.{Text, str, text_key, compare_text}
use server_game.Application.State.{Application}
use server_game.Proxy.Stream.Words.{IsWord, before, spaced, extract-before}
use server_game.Proxy.Stream.Names.{read_name-before}
use server_game.Proxy.Agent
use server_game.Proxy.Step
use server_game.Proxy.Step.{Surroundings, Outcome, dispatch, dispatch_argument}
use server_game.Proxy.Step.Commands.{
  Name, IsName, name_text, written_name, done, dispatch_argument-name, dispatch_setting-name,
  keyword, read_name-last,
}

pub data Command : Type 0 where
  game_started game_stopped application_stopped : Command
  team_added team_removed player_added player_removed robot_removed : Name → Command
  registered unregistered : Name → Command
  robot_added : Name → Name → Command
  video_url_set address_set score_set : Name → Text → Command

-- The action, and the words behind it.
unfoldable pub written : Command → Text × List Text
written game_started = (str "start", str "game" ∷ [])
written game_stopped = (str "stop", str "game" ∷ [])
written application_stopped = (str "stop", str "application" ∷ [])
written (team_added n) = (str "add", str "team" ∷ written_name n)
written (team_removed n) = (str "remove", str "team" ∷ written_name n)
written (player_added n) = (str "add", str "player" ∷ written_name n)
written (player_removed n) = (str "remove", str "player" ∷ written_name n)
written (robot_removed n) = (str "remove", str "robot" ∷ written_name n)
written (registered n) = (str "register", str "robot" ∷ written_name n)
written (unregistered n) = (str "unregister", str "robot" ∷ written_name n)
written (robot_added n t) = (str "add", str "robot" ∷ written_name n ++ written_name t)
written (video_url_set n v) = (str "set", str "robot" ∷ written_name n ++ str "video_url" ∷ v ∷ [])
written (address_set n v) = (str "set", str "player" ∷ written_name n ++ str "address" ∷ v ∷ [])
written (score_set n v) = (str "set", str "team" ∷ written_name n ++ str "score" ∷ v ∷ [])

-- The text of a command.
unfoldable pub print : Command → Text
unfolding written
print c = (written c).0 ++ spaced (written c).1

-- The member function that a command calls.
unfoldable pub call : Surroundings → Command → Application → Result Application
call env game_started = Agent.start_game env.now
call env game_stopped = Agent.stop_game
call env application_stopped = Agent.stop_application
call env (team_added n) = Agent.add_team (name_text n)
call env (team_removed n) = Agent.remove_team (name_text n)
call env (player_added n) = Agent.add_player (name_text n)
call env (player_removed n) = Agent.remove_player (name_text n)
call env (robot_removed n) = Agent.remove_robot (name_text n)
call env (registered n) = Agent.register_robot (name_text n)
call env (unregistered n) = Agent.unregister_robot (name_text n)
call env (robot_added n t) = Agent.add_robot env.video_first (name_text n) (name_text t)
call env (video_url_set n v) = Agent.set_robot (name_text n) (str "video_url") v
call env (address_set n v) = Agent.set_player (name_text n) (str "address") v
call env (score_set n v) = Agent.set_team env.lexical_u32 (name_text n) (str "score") v

abbrev pub HasNames : Command → Type 0
HasNames game_started = Unit
HasNames game_stopped = Unit
HasNames application_stopped = Unit
HasNames (team_added n) = IsName n
HasNames (team_removed n) = IsName n
HasNames (player_added n) = IsName n
HasNames (player_removed n) = IsName n
HasNames (robot_removed n) = IsName n
HasNames (registered n) = IsName n
HasNames (unregistered n) = IsName n
HasNames (robot_added n t) = IsName n × IsName t
HasNames (video_url_set n v) = IsName n × IsWord v
HasNames (address_set n v) = IsName n × IsWord v
HasNames (score_set n v) = IsName n × IsWord v

team : IsWord (str "team")
team = keyword (str "team") refl refl

robot : IsWord (str "robot")
robot = keyword (str "robot") refl refl

player : IsWord (str "player")
player = keyword (str "player") refl refl

pub perform-call :
    (env : Surroundings) (whole : Text) (c : Command) (app : Application)
    → HasNames c
    → Step.perform env whole (written c).0 (before whole (written c).1) app
      ≡ (call env c app >>= done)
unfolding Step.perform Step.add Step.remove Step.register Step.unregister Step.start Step.stop
    Step.set compare_text written call dispatch
perform-call env whole game_started app h =
    rw (extract-before [] whole (str "game") [] (keyword (str "game") refl refl)) refl
perform-call env whole game_stopped app h =
    rw (extract-before [] whole (str "game") [] (keyword (str "game") refl refl)) refl
perform-call env whole application_stopped app h =
    rw (extract-before [] whole (str "application") [] (keyword (str "application") refl refl)) refl
perform-call env whole (team_added n) app h =
    rw (extract-before [] whole (str "team") (written_name n) team)
      (dispatch_argument-name whole n Agent.add_team app h)
perform-call env whole (team_removed n) app h =
    rw (extract-before [] whole (str "team") (written_name n) team)
      (dispatch_argument-name whole n Agent.remove_team app h)
perform-call env whole (player_added n) app h =
    rw (extract-before [] whole (str "player") (written_name n) player)
      (dispatch_argument-name whole n Agent.add_player app h)
perform-call env whole (player_removed n) app h =
    rw (extract-before [] whole (str "player") (written_name n) player)
      (dispatch_argument-name whole n Agent.remove_player app h)
perform-call env whole (robot_removed n) app h =
    rw (extract-before [] whole (str "robot") (written_name n) robot)
      (dispatch_argument-name whole n Agent.remove_robot app h)
perform-call env whole (registered n) app h =
    rw (extract-before [] whole (str "robot") (written_name n) robot)
      (dispatch_argument-name whole n Agent.register_robot app h)
perform-call env whole (unregistered n) app h =
    rw (extract-before [] whole (str "robot") (written_name n) robot)
      (dispatch_argument-name whole n Agent.unregister_robot app h)
perform-call env whole (robot_added n t) app (hn, ht) =
    rw
      (
        extract-before [] whole (str "robot") (written_name n ++ written_name t) robot,
        read_name-before whole n.first n.others (written_name t) hn.head hn.rest,
        read_name-last whole t ht,
      )
      refl
perform-call env whole (video_url_set n v) app (h, hv) =
    rw (extract-before [] whole (str "robot") (written_name n ++ str "video_url" ∷ v ∷ []) robot) (
      dispatch_setting-name whole n (str "video_url") v Agent.set_robot app h
        (keyword (str "video_url") refl refl) hv)
perform-call env whole (address_set n v) app (h, hv) =
    rw (extract-before [] whole (str "player") (written_name n ++ str "address" ∷ v ∷ []) player) (
      dispatch_setting-name whole n (str "address") v Agent.set_player app h
        (keyword (str "address") refl refl) hv)
perform-call env whole (score_set n v) app (h, hv) =
    rw (extract-before [] whole (str "team") (written_name n ++ str "score" ∷ v ∷ []) team) (
      dispatch_setting-name whole n (str "score") v (Agent.set_team env.lexical_u32) app h
        (keyword (str "score") refl refl) hv)
