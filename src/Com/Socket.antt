-- ===== src/Com/Socket.antt =====
-- src/orwell/com/Socket.cpp: the calls that send and receive. What ZeroMQ does with a socket is a
-- parameter.
pub mod Exchange
use server_game.Base.{Bool, true, false, [], ◌∷◌, if◌then◌else◌}
use server_game.Base.Text.{Text}
use server_game.Com.RawMessage
use server_game.Com.RawMessage.{RawMessage}

-- What `recv` comes back with: it throws `zmq::error_t`, there is no message, or there is one.
pub data Received : Type 0 where
  recv_error : Received
  nothing : Received
  came : Text → Received

-- What `send` does: it takes the message, or it throws `zmq::error_t` or something else.
pub data Sent : Type 0 where
  accepted send_error other_error : Sent

-- A socket of ZeroMQ, whose `recv` is told whether it may wait.
pub record Zmq {ℓ} (W : Type ℓ) : Type ℓ where
  pub recv : Bool → W → Received × W
  pub send : Text → W → Sent × W

-- An exception is caught, and nothing came then.
abbrev pub given {ℓ} : {W : Type ℓ} → Received → Text → W → (Bool × Text) × W
given recv_error old w = ((false, old), w)
given nothing old w = ((false, old), w)
given (came text) old w = ((true, text), w)

-- Each exception is caught.
abbrev pub settled {ℓ} : {W : Type ℓ} → Sent → W → W
settled accepted w = w
settled send_error w = w
settled other_error w = w

module _ {ℓ} {W : Type ℓ} (zmq : Zmq W) where
  -- Socket::receiveString, where the text was `old`.
  unfoldable pub receive_string : Bool → Text → W → (Bool × Text) × W
  receive_string blocking old w = let (r, w') = zmq.recv blocking w in given r old w'

  -- Socket::receive, where the message was `old`.
  unfoldable pub receive : Bool → RawMessage → W → (Bool × RawMessage) × W
  unfolding receive_string
  receive blocking old w =
      let ((received, text), w') = receive_string blocking [] w in
      ((received, if received then RawMessage.receive text else old), w')

  -- Socket::sendString
  unfoldable pub send_string : Text → W → W
  send_string text w = let (s, w') = zmq.send text w in settled s w'

  -- Socket::send
  unfoldable pub send : RawMessage → W → W
  unfolding send_string
  send m w = send_string (RawMessage.send m) w
