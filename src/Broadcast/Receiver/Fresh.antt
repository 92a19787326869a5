-- ===== src/Broadcast/Receiver/Fresh.antt =====
-- The one buffer of the loop serves as a new one for each datagram would.
use server_game.Base.{
  ℕ, zero, suc, ◌≡◌, refl, sym, ap, ◌∙◌, Bool, true, false, Option, none, some, List, [], ◌∷◌, ◌++◌,
  length, Result, ok, err, ltb, if◌then◌else◌, ◌>>=◌, arith,
}
use mathlib.Core.List.{append-nil, append_assoc}
use server_game.Base.Int.{ℤ, pos}
use server_game.Base.Text.{Text}
use server_game.Broadcast.{Urls, answer}
use server_game.Broadcast.Receiver.{
  message_limit, Arrival, silence, datagram, Receiver, zeros, overwrite, wipe, atoi, take_version,
  unless, receive_one, receive_all, run_broadcast_receiver,
}

-- The version of a datagram that stands in front of zeros only.
abbrev pub version_of : Text → Result ℤ
version_of [] = ok (pos 0)
version_of (c ∷ cs) = atoi (overwrite (c ∷ cs) (zeros message_limit))

module _ (urls : Urls) where
  -- The answers without a buffer: each datagram up to the stop is answered by its version.
  unfoldable pub answers : List Arrival → Result (List (ℕ × Text))
  answers [] = ok []
  answers (silence true ∷ rest) = ok []
  answers (silence false ∷ rest) = answers rest
  answers (datagram true client bytes ∷ rest) = do
    version ← version_of bytes
    ok ((client, answer urls version) ∷ [])
  answers (datagram false client bytes ∷ rest) = do
    version ← version_of bytes
    more ← answers rest
    ok ((client, answer urls version) ∷ more)

wipe-none : (n : ℕ) → wipe n [] ≡ []
wipe-none zero = refl
wipe-none (suc n) = refl

wipe-written :
    (n : ℕ) (bytes : Text)
    → wipe (if ltb n (length bytes) then n else length bytes) (overwrite bytes (zeros n)) ≡ zeros n
unfolding zeros
wipe-written zero [] = refl
wipe-written zero (c ∷ cs) = wipe-none _
wipe-written (suc n) [] = ground arith
wipe-written (suc n) (c ∷ cs) = ground (arith, wipe-written n cs)

abbrev fresh : List (ℕ × Text) → Receiver
fresh s = record { running = true; buffer = zeros message_limit; sent = s }

take_version-fresh :
    (bytes : Text)
    → take_version bytes (zeros message_limit)
      ≡ (version_of bytes >>= λ version. ok (version, zeros message_limit))
unfolding take_version
take_version-fresh [] = refl
take_version-fresh (c ∷ cs) =
    ap (λ b. atoi (overwrite (c ∷ cs) (zeros message_limit)) >>= λ version. ok (version, b))
      (wipe-written message_limit (c ∷ cs))

abbrev sends : Result Receiver → Result (List (ℕ × Text))
sends r = r >>= λ x. ok x.sent

bind_assoc {ℓ κ μ} :
    {A : Type ℓ} {B : Type κ} {C : Type μ} (r : Result A) (f : A → Result B) (g : B → Result C)
    → ((r >>= f) >>= g) ≡ (r >>= λ a. f a >>= g)
bind_assoc (ok a) f g = refl
bind_assoc (err e) f g = refl

module _ (urls : Urls) where
  ended :
      (arrivals : List Arrival) (b : Text) (s : List (ℕ × Text))
      → receive_all urls arrivals (record { running = false; buffer = b; sent = s })
        ≡ ok (record { running = false; buffer = b; sent = s })
  unfolding receive_all
  ended [] b s = refl
  ended (a ∷ rest) b s = refl

  -- The receiver once a datagram was answered.
  abbrev answered : Bool → ℕ → List (ℕ × Text) → ℤ → Receiver
  answered stop client s version = record {
    running = unless stop true;
    buffer = zeros message_limit;
    sent = s ++ (client, answer urls version) ∷ [];
  }

  receive_one-fresh :
      (stop : Bool) (client : ℕ) (bytes : Text) (s : List (ℕ × Text))
      → receive_one urls (datagram stop client bytes) (fresh s)
        ≡ (version_of bytes >>= λ version. ok (answered stop client s version))
  unfolding receive_one
  receive_one-fresh stop client bytes s =
      ap
        (λ (o : Result (ℤ × Text)). o >>= λ x. ok (record {
          running = unless stop true;
          buffer = x.1;
          sent = s ++ (client, answer urls x.0) ∷ [];
        }))
        (take_version-fresh bytes)
      ∙ bind_assoc (version_of bytes) _ _

  after_answer :
      (stop : Bool) (client : ℕ) (bytes : Text) (rest : List Arrival) (s : List (ℕ × Text))
      → sends (receive_one urls (datagram stop client bytes) (fresh s) >>= receive_all urls rest)
        ≡ (version_of bytes >>= λ version.
            sends (receive_all urls rest (answered stop client s version)))
  after_answer stop client bytes rest s =
      ap (λ o. sends (o >>= receive_all urls rest)) (receive_one-fresh stop client bytes s)
      ∙ seen (version_of bytes)
    where
      seen :
          (v : Result ℤ)
          → sends ((v >>= λ version. ok (answered stop client s version)) >>= receive_all urls rest)
            ≡ (v >>= λ version. sends (receive_all urls rest (answered stop client s version)))
      seen (ok v) = refl
      seen (err e) = refl

  receive_all-fresh :
      (arrivals : List Arrival) (s : List (ℕ × Text))
      → sends (receive_all urls arrivals (fresh s))
        ≡ (answers urls arrivals >>= λ more. ok (s ++ more))
  unfolding receive_all answers receive_one
  receive_all-fresh [] s = ap ok (sym (append-nil s))
  receive_all-fresh (silence true ∷ rest) s =
      ap sends (ended rest (zeros message_limit) s) ∙ ap ok (sym (append-nil s))
  receive_all-fresh (silence false ∷ rest) s = receive_all-fresh rest s
  receive_all-fresh (datagram true client bytes ∷ rest) s =
      after_answer true client bytes rest s ∙ last (version_of bytes)
    where
      last :
          (v : Result ℤ)
          → (v >>= λ version. sends (receive_all urls rest (answered true client s version))) ≡ (
              (v >>= λ version. ok ((client, answer urls version) ∷ [])) >>= λ more. ok (s ++ more))
      last (ok v) = ap sends (ended rest (zeros message_limit) (s ++ (client, answer urls v) ∷ []))
      last (err e) = refl
  receive_all-fresh (datagram false client bytes ∷ rest) s =
      after_answer false client bytes rest s ∙ then_rest (version_of bytes) (receive_all-fresh rest)
    where
      regroup :
          (x : ℕ × Text) (a : Result (List (ℕ × Text)))
          → (a >>= λ more. ok ((s ++ x ∷ []) ++ more))
            ≡ ((a >>= λ more. ok (x ∷ more)) >>= λ more. ok (s ++ more))
      regroup x (ok more) = ap ok (append_assoc s (x ∷ []) more)
      regroup x (err e) = refl

      then_rest :
          (v : Result ℤ)
          → ((t : List (ℕ × Text))
              → sends (receive_all urls rest (fresh t))
                ≡ (answers urls rest >>= λ more. ok (t ++ more)))
          → (v >>= λ version. sends (receive_all urls rest (answered false client s version))) ≡ (
              (v >>= λ version.
              answers urls rest >>= λ more. ok ((client, answer urls version) ∷ more))
              >>= λ more. ok (s ++ more))
      then_rest (ok v) later =
          later (s ++ (client, answer urls v) ∷ [])
          ∙ regroup (client, answer urls v) (answers urls rest)
      then_rest (err e) later = refl

-- What was sent before the process ended, or the loop did.
abbrev pub sent_by : Option Receiver → List (ℕ × Text)
sent_by none = []
sent_by (some r) = r.sent

-- Whatever datagrams come, and also where one of them ends in a fault: the loop with its one buffer
-- sends just what a loop would that reads the version of each datagram in front of zeros alone, up
-- to the stop and including a datagram that came with it. No byte of an earlier datagram is read
-- again.
pub run_broadcast_receiver-fresh :
    (urls : Urls) (arrivals : List Arrival)
    → (run_broadcast_receiver urls true arrivals >>= λ o. ok (sent_by o)) ≡ answers urls arrivals
unfolding run_broadcast_receiver
run_broadcast_receiver-fresh urls arrivals =
    bind_assoc (receive_all urls arrivals (fresh [])) _ _
    ∙ receive_all-fresh urls arrivals []
    ∙ unit (answers urls arrivals)
  where
    unit : (a : Result (List (ℕ × Text))) → (a >>= λ more. ok more) ≡ a
    unit (ok more) = refl
    unit (err e) = refl
