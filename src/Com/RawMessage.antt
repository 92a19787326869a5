-- ===== src/Com/RawMessage.antt =====
-- src/orwell/com/RawMessage.cpp, and how src/orwell/com/Socket.cpp writes a message into one text
-- and reads it back. What the socket does with the text is ZeroMQ's part.
pub mod RoundTrip
use server_game.Base.{ℕ, Bool, true, false, Option, none, some, List, [], ◌∷◌, ◌++◌, if◌then◌else◌}
use server_game.Base.Key.{◌==◌, nat_key}
use server_game.Base.Text.{Text}

pub record RawMessage : Type 0 where
  pub routing_id : Text
  pub type : Text
  pub payload : Text

abbrev pub space : ℕ
space = b' '

-- The text before the first occurrence of a byte and the text behind it: `find` from a position
-- and the two calls of `substr` that follow.
unfoldable pub split_at : ℕ → Text → Option (Text × Text)
split_at c [] = none
split_at c (x ∷ xs) = elim (x == c) [
  | true ↦ some ([], xs)
  | false ↦ elim (split_at c xs) [ none ↦ none | some (before, after) ↦ some (x ∷ before, after) ]
]

-- The text that Socket::send hands to the socket.
unfoldable pub send : RawMessage → Text
send m = m.routing_id ++ (space ∷ (m.type ++ (space ∷ m.payload)))

-- What Socket::receive makes of a text that has come: without a first space all is empty, without
-- a second one the type and the payload are.
unfoldable pub receive : Text → RawMessage
receive text = elim (split_at space text) [
  | none ↦ record { routing_id = []; type = []; payload = [] }
  | some (dest, rest) ↦ elim (split_at space rest) [
    | none ↦ record { routing_id = dest; type = []; payload = [] }
    | some (type, payload) ↦ record { routing_id = dest; type = type; payload = payload }
  ]
]
