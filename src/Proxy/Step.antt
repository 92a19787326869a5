-- ===== src/Proxy/Step.antt =====
-- AgentProxy::step in src/orwell/proxy/AgentProxy.cpp: one command of the agent and its reply. The
-- output mode is the one member that it changes, and a sentinel puts it back, so it is an argument.
pub mod Commands
pub mod Language
pub mod Effects
pub mod Called
pub mod Refined
pub mod ReadBack
use server_game.Base.{
  ℕ, zero, suc, Bool, true, false, Option, none, some, [], ◌∷◌, Result, ok, err, out_of_range,
  if◌then◌else◌, ◌>>=◌,
}
use server_game.Base.Key.{◌==◌}
use server_game.Base.Text.{Text, str, text_key}
use server_game.Game.Types.{Time, Game}
use server_game.Application.State.{Application, access_server}
use server_game.Proxy.Reply.{OutputMode, text, json, Reply, succeeded, Json, null}
use server_game.Proxy.Stream.{Stream, open_text, extract, extract_u32, read_name}
use server_game.Proxy.Listing.{list_process, view_process}
use server_game.Proxy.Getting.{get_process, ko}
use server_game.Proxy.Agent

-- The application, whether the command was understood, and the reply.
abbrev pub Outcome : Type 0
Outcome = Application × Bool × Text

abbrev pub unparsed : Application → Result Outcome
unparsed app = ok (app, false, [])

-- The entries of the map of actions.
pub data Action : Type 0 where
  list view get : Action

unfoldable pub find_action : Text → Option Action
find_action action =
    if action == str "list"
    then some list
    else if action == str "view"
    then some view
    else if action == str "get"
    then some get
    else none

-- Dispatch
unfoldable pub dispatch : Stream → (Application → Result Application) → Application → Result Outcome
dispatch s f app = if s.eof then (f app >>= λ app'. ok (app', true, str "OK")) else unparsed app

-- DispatchArgument
unfoldable pub dispatch_argument :
    Stream → (Text → Application → Result Application) → Application → Result Outcome
unfolding dispatch
dispatch_argument s f app = read_name s >>= λ r. dispatch r.1 (f r.0) app

-- Two words.
abbrev pub words : Stream → Text × Text × Stream
words s =
    let (property, s') = extract [] s in let (value, s'') = extract [] s' in (property, value, s'')

-- A name and two words, as `set` takes them.
abbrev pub dispatch_setting :
    Stream → (Text → Text → Text → Application → Result Application) → Application → Result Outcome
dispatch_setting s f app = read_name s >>= λ r.
    let (property, value, s') = words r.1 in dispatch s' (f r.0 property value) app

unfoldable pub unregister : Stream → Application → Result Outcome
unregister s app =
    let (what, s') = extract [] s in
    if what == str "robot" then dispatch_argument s' Agent.unregister_robot app else unparsed app

unfoldable pub register : Stream → Application → Result Outcome
register s app =
    let (what, s') = extract [] s in
    if what == str "robot" then dispatch_argument s' Agent.register_robot app else unparsed app

unfoldable pub remove : Stream → Application → Result Outcome
remove s app =
    let (what, s') = extract [] s in
    if what == str "team"
    then dispatch_argument s' Agent.remove_team app
    else if what == str "robot"
    then dispatch_argument s' Agent.remove_robot app
    else if what == str "player"
    then dispatch_argument s' Agent.remove_player app
    else unparsed app

unfoldable pub stop : Stream → Application → Result Outcome
stop s app =
    let (what, s') = extract [] s in
    if what == str "application"
    then dispatch s' Agent.stop_application app
    else if what == str "game"
    then dispatch s' Agent.stop_game app
    else unparsed app

-- What is not in the source: the order in which the two ports are popped, the value of a local
-- variable before anything is assigned to it, the clock, and the libraries for json and for casts.
pub record Surroundings : Type 0 where
  pub video_first : Bool
  pub unset_value : ℕ
  pub now : Time
  pub dump : Json → Result Text
  pub lexical_u32 : Text → Option ℕ

module _ (env : Surroundings) where
  unfoldable pub start : Stream → Application → Result Outcome
  start s app =
      let (what, s') = extract [] s in
      if what == str "game" then dispatch s' (Agent.start_game env.now) app else unparsed app

  unfoldable pub add : Stream → Application → Result Outcome
  add s app =
      let (what, s') = extract [] s in
      if what == str "team"
      then dispatch_argument s' Agent.add_team app
      else if what == str "robot"
      then (read_name s' >>= λ name. read_name name.1 >>= λ team.
          dispatch team.1 (Agent.add_robot env.video_first name.0 team.0) app)
      else if what == str "player"
      then dispatch_argument s' Agent.add_player app
      else unparsed app

  unfoldable pub set : Stream → Application → Result Outcome
  set s app =
      let (what, s') = extract [] s in
      let (property, s'') = extract [] s' in
      let (value, s''') = extract_u32 env.unset_value s'' in
      if what == str "game"
      then dispatch s''' (Agent.set_game property value) app
      else if what == str "player"
      then dispatch_setting s' Agent.set_player app
      else if what == str "robot"
      then dispatch_setting s' Agent.set_robot app
      else if what == str "team"
      then dispatch_setting s' (Agent.set_team env.lexical_u32) app
      else unparsed app

  -- IAction::process of the action.
  unfoldable pub answer : Action → OutputMode → Stream → Game → Result Reply
  answer list mode s game = list_process env.dump mode s game
  answer view mode s game = view_process env.dump mode s game
  answer get mode s game = get_process env.dump mode s game

  -- The call of the action, and the conversions of its reply.
  unfoldable pub query : Action → OutputMode → Stream → Application → Result Outcome
  unfolding answer
  query action mode s app = do
    host ← access_server app
    r ← answer action mode s host.game
    ok (app, succeeded r, r.reply)

  -- The reply to a command that was not understood, where it has none yet.
  unfoldable pub fall_back : OutputMode → Outcome → Result Outcome
  fall_back mode (app, true, reply) = ok (app, true, reply)
  fall_back mode (app, false, c ∷ reply) = ok (app, false, c ∷ reply)
  fall_back text (app, false, []) = ok (app, false, ko)
  fall_back json (app, false, []) = env.dump null >>= λ t. ok (app, false, t)

  -- `substr`, which throws past the end.
  abbrev pub substr : ℕ → Text → Result Text
  substr zero cs = ok cs
  substr (suc n) [] = err out_of_range
  substr (suc n) (c ∷ cs) = substr n cs

  -- A command in json mode: beside the actions nothing is known there.
  unfoldable pub step_json : Text → Application → Result Outcome
  step_json command app =
      let (action, s) = extract [] (open_text command) in
      elim (find_action action) [
        | some a ↦ query a json s app
        | none ↦ fall_back json (app, false, [])
      ]

  -- The branches of text mode.
  unfoldable pub perform : Text → Text → Stream → Application → Result Outcome
  unfolding step_json
  perform command action s app =
      if action == str "start"
      then start s app
      else if action == str "stop"
      then stop s app
      else if action == str "add"
      then add s app
      else if action == str "remove"
      then remove s app
      else if action == str "register"
      then register s app
      else if action == str "unregister"
      then unregister s app
      else if action == str "set"
      then set s app
      else if action == str "ping"
      then ok (app, true, str "pong")
      else if action == str "json"
      then (substr 5 command >>= λ rest. step_json rest app)
      else unparsed app

  unfoldable pub step_text : Text → Application → Result Outcome
  step_text command app =
      let (action, s) = extract [] (open_text command) in
      elim (find_action action) [
        | some a ↦ query a text s app
        | none ↦ perform command action s app >>= fall_back text
      ]

  -- AgentProxy::step
  unfoldable pub step : OutputMode → Text → Application → Result Outcome
  unfolding step_text step_json
  step text command app = step_text command app
  step json command app = step_json command app
