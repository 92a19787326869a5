-- ===== src/Application/Life.antt =====
-- The life cycle of the application, CREATED, RUNNING and STOPPED, along anything that is done with
-- it.
pub mod Since
pub mod Forward
use server_game.Base.{ℕ, ◌≡◌, Bool, List, Result, ok}
use server_game.Base.Text.{Text}
use server_game.Game.Types.{Registry, Time}
use server_game.Callbacks.Decider.{Externals}
use server_game.Proxy.Reply.{OutputMode}
use server_game.Proxy.Step.{Surroundings, Outcome, step}
use server_game.Server.Loop.{Running, Turn}
use server_game.Application.State.{Application, stop, clean, pop_port}
use server_game.Application.Options.{Parameters}
use server_game.Application.Run.{
  Process, Course, idle, broadcasting, served, run, loop_until_one_message_is_processed,
}

abbrev pub left_by : Course → Application
left_by (idle app) = app
left_by (broadcasting app) = app
left_by (served r) = r.application

module _ (ext : Externals) (env : Surroundings) (unset : Time) (items : Registry) where
  -- A call of a member function of the application, or of its agent proxy, that returns.
  pub data Call : Application → Application → Type 0 where
    ran :
        (process : Process) (turns : List Turn) (p : Parameters) (a : Application) (c : Course)
        → run ext env unset items process turns p a ≡ ok c
        → Call a (left_by c)
    commanded :
        (mode : OutputMode) (command : Text) (a : Application) (o : Outcome)
        → step env mode command a ≡ ok o
        → Call a o.0
    processed :
        (turns : List Turn) (r s : Running)
        → loop_until_one_message_is_processed ext env turns r ≡ ok s
        → Call r.application s.application
    stopped_by_signal : (a : Application) → Call a (stop a).0
    cleaned : (a : Application) → Call a (clean a)
    popped : (a : Application) → Call a (pop_port a).0

  pub data Reach (a : Application) : Application → Type 0 where
    here : Reach a a
    next : {b c : Application} → Reach a b → Call b c → Reach a c
