-- ===== src/Callbacks/Pings/Elapsed.antt =====
-- How long a ping took, and when an input is passed on.
use server_game.Base.{
  ℕ, ◌+◌, ◌-◌, ◌%◌, ◌^◌, ◌<◌, ◌≤◌, ◌≡◌, refl, true, false, none, some, List, [], ◌∷◌, ◌++◌, ok,
  if◌then◌else◌, ◌&&◌, ◌||◌, not, arith, All, ap,
}
use server_game.Base.Key.{◌==◌, ==_refl}
use server_game.Base.Text.{Text, text_key}
use server_game.Game.Roster.{get_has_robot_by_id, access_robot_by_id}
use server_game.Callbacks.Messages.{Timing, Input, Body, Outgoing, World, publish_message}
use server_game.Callbacks.Pings.{this_logger, ping, stamp, pong, input}

-- A timing of another program.
abbrev pub IsForeign : Timing → Type 0
IsForeign t = (this_logger == t.logger) ≡ false

abbrev pub stamped_timing : ℕ → ℕ → Timing
stamped_timing sent elapsed = record {
  logger = this_logger;
  timestamp = some sent;
  elapsed = some elapsed;
}

stamp-own :
    (now sent : ℕ) (t : Timing) (rest : List Timing)
    → (this_logger == t.logger) ≡ true
    → t.timestamp ≡ some sent
    → sent ≤ now
    → now < 2 ^ 64
    → stamp now (t ∷ rest) ≡ record t { elapsed = some (now - sent) } ∷ stamp now rest
unfolding stamp
stamp-own now sent t rest own at le small =
    let wrapped : (now + (2 ^ 64 - sent % 2 ^ 64)) % 2 ^ 64 ≡ now - sent = omega arith in
    ground (arith, own, at, wrapped)

stamp_stops :
    (now : ℕ) (t : Timing) (rest : List Timing)
    → (this_logger == t.logger) ≡ true
    → t.timestamp ≡ none
    → stamp now (t ∷ rest) ≡ t ∷ rest
unfolding stamp
stamp_stops now t rest own missing = ground (arith, own, missing)

stamp-foreign :
    (now : ℕ) (before rest : List Timing)
    → All IsForeign before
    → stamp now (before ++ rest) ≡ before ++ stamp now rest
unfolding stamp
stamp-foreign now [] rest h = refl
stamp-foreign now (t ∷ ts) rest h = ground (arith, stamp-foreign now ts rest h.1, h.0)

stamp_unchanged : (now : ℕ) (ts : List Timing) → All IsForeign ts → stamp now ts ≡ ts
unfolding stamp
stamp_unchanged now [] h = refl
stamp_unchanged now (t ∷ ts) h = ground (arith, stamp_unchanged now ts h.1, h.0)

append_assoc : (a b c : List Timing) → (a ++ b) ++ c ≡ a ++ (b ++ c)
append_assoc [] b c = refl
append_assoc (x ∷ a) b c = ap (◌∷◌ x) (append_assoc a b c)

-- The timings of the last message that was published.
abbrev pub last_timings : List Outgoing → List Timing
last_timings [] = []
last_timings (m ∷ []) = elim m.body [ Body.ping ts ↦ ts | Body.pong ts ↦ ts | _ ↦ [] ]
last_timings (m ∷ n ∷ rest) = last_timings (n ∷ rest)

last_timings-append :
    (ms : List Outgoing) (m : Outgoing) → last_timings (ms ++ (m ∷ [])) ≡ last_timings (m ∷ [])
last_timings-append [] m = refl
last_timings-append (x ∷ []) m = refl
last_timings-append (x ∷ y ∷ ms) m = last_timings-append (y ∷ ms) m

-- A ping with timings of other programs goes out with one timing more. When its timings come back
-- in a pong, followed by further timings of other programs, that one gets the milliseconds that
-- have passed since, and the other timings stay as they are.
pub pong-ping :
    (id from : Text) (sent now : ℕ) (before after : List Timing) (w later : World)
    → All IsForeign before
    → All IsForeign after
    → sent ≤ now
    → now < 2 ^ 64
    → last_timings
        (pong from now (last_timings (ping id sent before w).published ++ after) later).published
      ≡ before ++ (stamped_timing sent (now - sent) ∷ after)
unfolding ping pong
pong-ping id from sent now before after w later fb fa le small =
    rw
      (
        last_timings-append later.published,
        last_timings-append w.published,
        append_assoc before (own ∷ []) after,
        stamp-foreign now before (own ∷ after) fb,
        stamp-own now sent own after (==_refl this_logger) refl le small,
        stamp_unchanged now after fa,
      )
      refl
  where
    own : Timing
    own = record { logger = this_logger; timestamp = some sent; elapsed = none }

-- A pong that carries a timing of the server without a time: it and all behind it stay as they are.
pong-missing :
    (id : Text) (now : ℕ) (before after : List Timing) (t : Timing) (w : World)
    → All IsForeign before
    → (this_logger == t.logger) ≡ true
    → t.timestamp ≡ none
    → last_timings (pong id now (before ++ (t ∷ after)) w).published ≡ before ++ (t ∷ after)
unfolding pong
pong-missing id now before after t w fb own missing =
    rw (last_timings-append w.published, stamp-foreign now before (t ∷ after) fb)
      (ap (λ l. before ++ l) (stamp_stops now t after own missing))

-- An input is passed on, once and unchanged, just while the game runs and, where the first weapon
-- is fired, the robot is known; it never throws, and nothing else changes.
input_relays :
    (id : Text) (message : Input) (w : World)
    → input id message w
      ≡ ok (
          if w.game.is_running && (not message.weapon1 || get_has_robot_by_id id w.game)
          then publish_message (record { routing_id = id; body = Body.input message }) w
          else w)
unfolding input access_robot_by_id get_has_robot_by_id
input_relays id message w = ground arith
