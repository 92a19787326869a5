-- ===== src/Broadcast/Receiver.antt =====
-- The loop of BroadcastServer::runBroadcastReceiver in src/orwell/BroadcastServer.cpp: one buffer
-- for all datagrams, `atoi` on it, and the answers. What `recvfrom` comes back with is given call
-- by call.
pub mod Fresh
pub mod Versions
use server_game.Base.{
  ℕ, zero, suc, ◌+◌, ◌-◌, ◌*◌, ◌^◌, Bool, true, false, List, [], ◌∷◌, ◌++◌, length, Option, none,
  some, Result, ok, err, dangling, leb, ltb, if◌then◌else◌, ◌&&◌, ◌||◌, ◌>>=◌,
}
use server_game.Base.Int.{ℤ, pos, negsuc}
use server_game.Base.Key.{◌==◌, nat_key}
use server_game.Base.Text.{Text}
use server_game.Broadcast.{Urls, answer}

-- UDP_MESSAGE_LIMIT
abbrev pub message_limit : ℕ
message_limit = 512

-- `recvfrom` timed out, or a datagram came from a client; and whether `stop` was called meanwhile.
pub data Arrival : Type 0 where
  silence : Bool → Arrival
  datagram : Bool → ℕ → Text → Arrival

-- The local variables of the loop that last, the flag, and what was sent to whom.
pub record Receiver : Type 0 where
  pub running : Bool
  pub buffer : Text
  pub sent : List (ℕ × Text)

unfoldable pub zeros : ℕ → Text
zeros zero = []
zeros (suc n) = 0 ∷ zeros n

-- `recvfrom` writes the bytes over the front of the buffer; those that do not fit are lost.
abbrev pub overwrite : Text → Text → Text
overwrite [] buffer = buffer
overwrite (c ∷ cs) [] = []
overwrite (c ∷ cs) (b ∷ buffer) = c ∷ overwrite cs buffer

-- `memset` of the first bytes to 0.
abbrev pub wipe : ℕ → Text → Text
wipe zero buffer = buffer
wipe (suc n) [] = []
wipe (suc n) (b ∷ buffer) = 0 ∷ wipe n buffer

abbrev pub is_space : ℕ → Bool
is_space c = (leb 9 c && leb c 13) || (c == 32)

abbrev pub is_digit : ℕ → Bool
is_digit c = leb b'0' c && leb c b'9'

-- The digits up to the first byte that is none. Past the last byte of the buffer nothing may be
-- read.
unfoldable pub read_digits : ℕ → Text → Result ℕ
read_digits acc [] = err dangling
read_digits acc (c ∷ cs) =
    let more = read_digits (acc * 10 + (c - b'0')) cs in if is_digit c then more else ok acc

-- A number that an `int` cannot hold is undefined behaviour of `atoi`.
abbrev pub positive : ℕ → Result ℤ
positive n = if ltb n (2 ^ 31) then ok (pos n) else err dangling

abbrev pub negative : ℕ → Result ℤ
negative zero = ok (pos 0)
negative (suc n) = if ltb n (2 ^ 31) then ok (negsuc n) else err dangling

-- The sign, and the digits behind it.
unfoldable pub read_sign : Text → Result ℤ
unfolding read_digits
read_sign [] = err dangling
read_sign (c ∷ cs) =
    if c == b'-'
    then (read_digits 0 cs >>= negative)
    else if c == b'+'
    then (read_digits 0 cs >>= positive)
    else (read_digits 0 (c ∷ cs) >>= positive)

-- `atoi`, on a buffer that need not have a zero byte.
unfoldable pub atoi : Text → Result ℤ
unfolding read_sign
atoi [] = err dangling
atoi (c ∷ cs) = let rest = atoi cs in if is_space c then rest else read_sign (c ∷ cs)

-- The number of bytes that `recvfrom` returns.
abbrev pub read_size : Text → ℕ
read_size bytes = if ltb message_limit (length bytes) then message_limit else length bytes

-- The version that is read, and the buffer as it is left. An empty datagram has version 0.
unfoldable pub take_version : Text → Text → Result (ℤ × Text)
unfolding atoi
take_version [] buffer = ok (pos 0, buffer)
take_version (c ∷ cs) buffer =
    let written = overwrite (c ∷ cs) buffer in
    atoi written >>= λ version. ok (version, wipe (read_size (c ∷ cs)) written)

abbrev pub unless : Bool → Bool → Bool
unless true running = false
unless false running = running

module _ (urls : Urls) where
  -- One round of the loop.
  unfoldable pub receive_one : Arrival → Receiver → Result Receiver
  unfolding take_version
  receive_one (silence stop) r = ok (record r { running = unless stop r.running })
  receive_one (datagram stop client bytes) r = do
    (version, buffer) ← take_version bytes r.buffer
    ok (record {
      running = unless stop r.running;
      buffer = buffer;
      sent = r.sent ++ (client, answer urls version) ∷ [];
    })

  -- The loop, as long as something arrives.
  unfoldable pub receive_all : List Arrival → Receiver → Result Receiver
  receive_all [] r = ok r
  receive_all (a ∷ rest) r = elim r.running [
    | false ↦ ok r
    | true ↦ receive_one a r >>= λ r'. receive_all rest r'
  ]

  -- BroadcastServer::runBroadcastReceiver, where the kernel joined the multicast group, or else
  -- `exit` ended the process.
  unfoldable pub run_broadcast_receiver : Bool → List Arrival → Result (Option Receiver)
  unfolding receive_all receive_one
  run_broadcast_receiver joined arrivals =
      if joined
      then (do
        r ←
            receive_all arrivals
              (record { running = true; buffer = zeros message_limit; sent = [] })
        ok (some r))
      else ok none
