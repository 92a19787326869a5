-- ===== src/Server.antt =====
-- src/orwell/Server.cpp: which of the two sockets is served next. The messages that wait at a
-- socket are a list, the oldest first.
pub mod Turns
pub mod Loop
use server_game.Base.{ℕ, Bool, true, false, List, [], ◌∷◌, Result, ok, if◌then◌else◌, ◌>>=◌}
use server_game.Game.Types.{Time}
use server_game.Com.RawMessage.{RawMessage}
use server_game.Callbacks.Messages.{Channel, publish, reply, World}
use server_game.Callbacks.Decider.{Externals, process}

-- The two orders of the vector of the channels.
pub data Channels : Type 0 where
  publish_first reply_first : Channels

pub record Server : Type 0 where
  pub world : World
  pub pulled : List RawMessage
  pub asked : List RawMessage
  pub channels : Channels

-- std::next_permutation on two values, which starts over after the last order.
unfoldable pub next_permutation : Channels → Channels
next_permutation publish_first = reply_first
next_permutation reply_first = publish_first

abbrev pub channel_list : Channels → List Channel
channel_list publish_first = publish ∷ reply ∷ []
channel_list reply_first = reply ∷ publish ∷ []

module _ (ext : Externals) (now : Time) (milliseconds : ℕ) where
  -- The message at a socket, if one waits there, is taken and processed.
  unfoldable pub serve : List RawMessage → Channel → World → Result (World × List RawMessage × Bool)
  serve [] channel w = ok (w, [], false)
  serve (m ∷ rest) channel w =
      process ext now milliseconds m channel w >>= λ w'. ok (w', rest, true)

  -- Server::receive_and_process
  unfoldable pub receive_and_process : Channel → Server → Result (Server × Bool)
  unfolding serve
  receive_and_process publish s = do
    (w, rest, done) ← serve s.pulled publish s.world
    ok (record s { world = w; pulled = rest }, done)
  receive_and_process reply s = do
    (w, rest, done) ← serve s.asked reply s.world
    ok (record s { world = w; asked = rest }, done)

  -- std::any_of over the channels, which stops at the first one that is served.
  unfoldable pub any_of : List Channel → Server → Result (Server × Bool)
  any_of [] s = ok (s, false)
  any_of (c ∷ cs) s =
      receive_and_process c s >>= λ r. elim r.1 [ true ↦ ok (r.0, true) | false ↦ any_of cs r.0 ]

  -- Server::processMessageIfAvailable
  unfoldable pub process_message_if_available : Server → Result (Server × Bool)
  unfolding any_of next_permutation
  process_message_if_available s = do
    (s', done) ← any_of (channel_list s.channels) s
    ok (record s' { channels = next_permutation s'.channels }, done)
