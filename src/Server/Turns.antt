-- ===== src/Server/Turns.antt =====
-- The two sockets take turns.
use server_game.Base.{ℕ, ◌≡◌, refl, true, false, List, [], ◌∷◌, ok}
use server_game.Game.Types.{Time}
use server_game.Com.RawMessage.{RawMessage}
use server_game.Callbacks.Messages.{publish, reply, World}
use server_game.Callbacks.Decider.{Externals, process}
use server_game.Server.{
  Server, Channels, publish_first, reply_first, process_message_if_available, receive_and_process,
  any_of, next_permutation,
}

-- While messages wait at both sockets and the publishing channel comes first, two calls whose
-- messages are processed without a fault serve the oldest message of each socket, and the order of
-- the channels is the same again after that.
pub both_served :
    (ext : Externals) (now later : Time) (milliseconds milliseconds' : ℕ) (m n : RawMessage)
    (ms ns : List RawMessage) (v w w' : World)
    → process ext now milliseconds m publish v ≡ ok w
    → process ext later milliseconds' n reply w ≡ ok w'
    → (middle : Server) × (process_message_if_available ext now milliseconds
          (record { world = v; pulled = m ∷ ms; asked = n ∷ ns; channels = publish_first })
        ≡ ok (middle, true))
      × (middle.asked ≡ n ∷ ns)
      × (process_message_if_available ext later milliseconds' middle
          ≡ ok (record { world = w'; pulled = ms; asked = ns; channels = publish_first }, true))
unfolding process_message_if_available receive_and_process any_of next_permutation
both_served ext now later milliseconds milliseconds' m n ms ns v w w' first second = (
  record { world = w; pulled = ms; asked = n ∷ ns; channels = reply_first },
  rw first refl,
  refl,
  rw second refl,
)

-- A message at the replying socket alone, that is processed without a fault, is served by a single
-- call, whichever channel comes first; with nothing at either socket the call only changes the
-- order of the channels.
lone_served :
    (ext : Externals) (now : Time) (milliseconds : ℕ) (order : Channels) (n : RawMessage)
    (ns : List RawMessage) (v w : World)
    → process ext now milliseconds n reply v ≡ ok w
    → (process_message_if_available ext now milliseconds
          (record { world = v; pulled = []; asked = n ∷ ns; channels = order })
        ≡ ok (
          record { world = w; pulled = []; asked = ns; channels = next_permutation order },
          true,
        ))
      × (process_message_if_available ext now milliseconds
            (record { world = v; pulled = []; asked = []; channels = order })
          ≡ ok (
            record { world = v; pulled = []; asked = []; channels = next_permutation order },
            false,
          ))
unfolding process_message_if_available receive_and_process any_of next_permutation
lone_served ext now milliseconds publish_first n ns v w done = (rw done refl, refl)
lone_served ext now milliseconds reply_first n ns v w done = (rw done refl, refl)
