-- ===== src/Com/RawMessage/RoundTrip.antt =====
-- A message survives the way over a socket.
use server_game.Base.{ℕ, ◌≡◌, ◌≢◌, some, [], ◌∷◌, ◌++◌, All, arith}
use server_game.Base.Key.{nat_key}
use server_game.Base.Text.{Text}
use server_game.Com.RawMessage.{RawMessage, space, split_at, send, receive}

-- The byte does not occur in the text.
abbrev pub Without : ℕ → Text → Type 0
Without c = All (λ x. x ≢ c)

pub split_at-append :
    (c : ℕ) (before after : Text)
    → Without c before
    → split_at c (before ++ (c ∷ after)) ≡ some (before, after)
unfolding split_at
split_at-append c [] after w = ground arith
split_at-append c (x ∷ xs) after w = ground (arith, split_at-append c xs after w.1, w.0)

-- A message whose routing id and type have no space in them is received as it was sent, whatever
-- its payload holds.
pub receive-send :
    (m : RawMessage) → Without space m.routing_id → Without space m.type → receive (send m) ≡ m
unfolding receive send
receive-send m id type = ground (
  arith,
  split_at-append space m.routing_id (m.type ++ (space ∷ m.payload)) id,
  split_at-append space m.type m.payload type,
)
