-- ===== src/Application/State.antt =====
-- The state of class Application, its life cycle, and its pool of video ports.
use server_game.Base.{
  ℕ, Bool, true, false, Option, none, some, List, [], ◌∷◌, ◌++◌, Result, dangling, or_fault,
}
use server_game.Game.Types.{Game}
use server_game.Game.Rules
use server_game.Broadcast.{Urls}

pub data State : Type 0 where
  created running stopped : State

-- What the application reaches of its Server: the game and the two flags of the main loop.
pub record Host : Type 0 where
  pub game : Game
  pub main_loop_running : Bool
  pub forced_stop : Bool

-- The BroadcastServer.
pub record Broadcaster : Type 0 where
  pub port : ℕ
  pub urls : Urls
  pub main_loop_running : Bool
  pub forced_stop : Bool

-- A server is missing while its pointer is null.
pub record Application : Type 0 where
  pub state : State
  pub server : Option Host
  pub broadcast_server : Option Broadcaster
  pub available_ports : List ℕ
  pub taken_ports : List ℕ

-- Application::Application
abbrev pub make : Application
make = record {
  state = created;
  server = none;
  broadcast_server = none;
  available_ports = [];
  taken_ports = [];
}

-- Application::accessServer, with its assertion.
abbrev pub access_server : Application → Result Host
access_server app = or_fault dangling app.server

-- Server::stop
unfoldable pub stop_server : Host → Host
stop_server host = record {
  game = Rules.stop host.game;
  main_loop_running = false;
  forced_stop = true;
}

-- BroadcastServer::stop
unfoldable pub stop_broadcast : Broadcaster → Broadcaster
stop_broadcast b = record b { main_loop_running = false; forced_stop = true }

abbrev pub if_there {ℓ} : {A : Type ℓ} → (A → A) → Option A → Option A
if_there f none = none
if_there f (some a) = some (f a)

-- Application::stop, which does nothing in the other states.
unfoldable pub stop : Application → Application × Bool
stop app = elim app.state [
  | created ↦ (app, false)
  | stopped ↦ (app, false)
  | running ↦ (
    record app {
      state = stopped;
      server = if_there stop_server app.server;
      broadcast_server = if_there stop_broadcast app.broadcast_server;
    },
    true,
  )
]

-- Application::clean
unfoldable pub clean : Application → Application
clean app = record app { server = none; broadcast_server = none }

-- `back()` and `pop_back()` of a vector.
abbrev pub pop_back : List ℕ → Option (List ℕ × ℕ)
pop_back [] = none
pop_back (x ∷ xs) = elim (pop_back xs) [ none ↦ some ([], x) | some (ys, y) ↦ some (x ∷ ys, y) ]

-- Application::popPort, which gives 0 once the ports are used up.
unfoldable pub pop_port : Application → Application × ℕ
pop_port app = elim (pop_back app.available_ports) [
  | none ↦ (app, 0)
  | some (ports, port) ↦
      (record app { available_ports = ports; taken_ports = app.taken_ports ++ port ∷ [] }, port)
]
