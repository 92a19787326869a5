-- ===== src/Application/Run.antt =====
-- Application::run in src/orwell/Application.cpp. The father of the
-- two processes, or the only one, runs the server's loop over the turns that come; the system calls
-- that watch over the child change nothing here.
use server_game.Base.{◌*◌, List, [], Result, ok, dangling, or_fault, if◌then◌else◌, ◌>>=◌}
use server_game.Base.Int.{ℤ, sub_ℕ, pos_part, neg_part}
use server_game.Game.Types.{Registry, Time}
use server_game.Callbacks.Decider.{Externals}
use server_game.Proxy.Step.{Surroundings}
use server_game.Server.{publish_first}
use server_game.Server.Loop.{Running, Turn, main_loop, until_processed}
use server_game.Application.State.{Application, created, running, stopped}
use server_game.Application.Options.{Parameters}
use server_game.Application.Launch.{init_server, init_broadcast_server, is_set}

-- What `fork` returns in: the child, or the father with its pid.
pub data Process : Type 0 where
  father child : Process

-- What a process comes to: an application that is left as it is, the broadcast server of the child,
-- or the server and what its loop did.
pub data Course : Type 0 where
  idle broadcasting : Application → Course
  served : Running → Course

abbrev pub milliseconds : ℤ → ℤ
milliseconds n = sub_ℕ (pos_part n * 1000) (neg_part n * 1000)

module _ (ext : Externals) (env : Surroundings) (not_a_date_time : Time) (items : Registry) where
  -- The server once it is made, in an application that runs.
  unfoldable pub launch : Parameters → Application → Result Running
  launch p app = do
    app' ← init_server env.video_first not_a_date_time items p app
    tick ← or_fault dangling p.options.tick_interval
    ok (record {
      application = record app' { state = running };
      pulled = [];
      asked = [];
      channels = publish_first;
      published = [];
      replied = [];
      agent_replies = [];
      tic_duration = milliseconds tick;
      previous_tic = env.now;
    })

  unfoldable pub run_server : List Turn → Parameters → Application → Result Course
  unfolding launch
  run_server turns p app = do r ← launch p app; r' ← main_loop ext env turns r; ok (served r')

  unfoldable pub run_broadcast : Parameters → Application → Result Course
  run_broadcast p app = do
    app' ← init_broadcast_server p app
    ok (broadcasting (record app' { state = running }))

  -- The part of `run` in state CREATED.
  unfoldable pub run_created : Process → List Turn → Parameters → Application → Result Course
  unfolding run_server run_broadcast launch
  run_created process turns p app =
      if is_set p.options.dry_run
      then (launch p app >>= λ r. ok (served r))
      else if is_set p.options.broadcast
      then elim process [ child ↦ run_broadcast p app | father ↦ run_server turns p app ]
      else run_server turns p app

  -- Application::run
  unfoldable pub run : Process → List Turn → Parameters → Application → Result Course
  unfolding run_created
  run process turns p app = elim app.state [
    | created ↦ run_created process turns p app
    | running ↦ ok (idle app)
    | stopped ↦ ok (idle app)
  ]

module _ (ext : Externals) (env : Surroundings) where
  -- Application::loopUntilOneMessageIsProcessed
  unfoldable pub loop_until_one_message_is_processed : List Turn → Running → Result Running
  unfolding until_processed
  loop_until_one_message_is_processed turns r = elim r.application.state [
    | created ↦ ok r
    | running ↦ until_processed ext env turns r
    | stopped ↦ ok r
  ]
