-- ===== src/Broadcast/Receiver/Versions.antt =====
-- From the digits of a version to the urls that its sender reads in the answer.
use server_game.Base.{
  err, ℕ, zero, suc, ◌+◌, ◌-◌, ◌*◌, ◌/◌, ◌%◌, ◌^◌, ◌≤◌, ◌<◌, ◌≡◌, refl, ap, ◌∙◌, Bool, true, false,
  List, [], ◌∷◌, ◌++◌, length, length-append, Result, ok, ltb, if◌then◌else◌, ◌>>=◌, arith, All,
  some, All-append,
}
use server_game.Base.Int.{ℤ, pos}
use server_game.Base.Text.{Text}
use server_game.Base.Decimal.{to_string, digits, value, value-digits}
use server_game.Base.Key.{◌==◌, nat_key}
use server_game.Broadcast.{Urls, answer}
use server_game.Broadcast.Decode.{read, Fits, expected, read-answer}
use server_game.Broadcast.Receiver.{
  message_limit, Arrival, datagram, zeros, overwrite, is_digit, is_space, read_digits, read_sign,
  atoi, positive, run_broadcast_receiver,
}
use server_game.Broadcast.Receiver.Fresh.{
  version_of, answers, sent_by, run_broadcast_receiver-fresh,
}

abbrev IsDigit : ℕ → Type 0
IsDigit c = is_digit c ≡ true

digits-IsDigit : (fuel n : ℕ) → All IsDigit (digits fuel n)
unfolding digits
digits-IsDigit zero n = tt
digits-IsDigit (suc fuel) n = if_small (ltb n 10) refl (digits-IsDigit fuel (n / 10))
  where
    last : IsDigit (b'0' + n % 10)
    last = ground arith

    if_small :
        (b : Bool)
        → ltb n 10 ≡ b
        → All IsDigit (digits fuel (n / 10))
        → All IsDigit (if b then (b'0' + n) ∷ [] else digits fuel (n / 10) ++ (b'0' + n % 10) ∷ [])
    if_small true e h = (ground (arith, e), tt)
    if_small false e h = All-append IsDigit (digits fuel (n / 10)) _ h (last, tt)

-- Digits in front of a zero are read to their end.
read_digits-value :
    (s rest : Text) (acc : ℕ) → All IsDigit s → read_digits acc (s ++ 0 ∷ rest) ≡ ok (value s acc)
unfolding read_digits value
read_digits-value [] rest acc h = refl
read_digits-value (c ∷ cs) rest acc h =
    ground (arith, h.0, read_digits-value cs rest (acc * 10 + (c - b'0')) h.1)

-- Ten to the power `k`.
abbrev ten : ℕ → ℕ
ten zero = 1
ten (suc k) = 10 * ten k

digits-length : (fuel k n : ℕ) → n < ten (suc k) → length (digits fuel n) ≤ suc k
unfolding digits
digits-length zero k n h = omega arith
digits-length (suc fuel) zero n h = ground arith
digits-length (suc fuel) (suc k) n h =
    let rest = digits-length fuel k (n / 10) (omega arith) in
    let sum = length-append (digits fuel (n / 10)) ((b'0' + n % 10) ∷ []) in
    ground (arith, rest, sum)

overwrite-append :
    (s : Text) (n : ℕ) → length s < n → (rest : Text) × (overwrite s (zeros n) ≡ s ++ 0 ∷ rest)
unfolding zeros
overwrite-append [] zero h = elim h [ ]
overwrite-append [] (suc n) h = (zeros n, refl)
overwrite-append (c ∷ cs) zero h = elim h [ ]
overwrite-append (c ∷ cs) (suc n) h =
    let (rest, e) = overwrite-append cs n (omega arith) in (rest, ap (◌∷◌ c) e)

-- A digit is neither a space nor a sign.
atoi-digits :
    (s rest : Text) (c : ℕ)
    → IsDigit c
    → atoi (c ∷ (s ++ 0 ∷ rest)) ≡ (read_digits 0 (c ∷ (s ++ 0 ∷ rest)) >>= positive)
unfolding atoi read_sign
atoi-digits s rest c h =
    let no_space : is_space c ≡ false = ground (arith, h) in
    let no_minus : (c == b'-') ≡ false = ground (arith, h) in
    let no_plus : (c == b'+') ≡ false = ground (arith, h) in rw (no_space, no_minus, no_plus) refl

version_of-digits :
    (s : Text) → All IsDigit s → length s < message_limit → version_of s ≡ positive (value s 0)
unfolding value
version_of-digits [] h l = refl
version_of-digits (c ∷ cs) h l =
    let (rest, e) = overwrite-append (c ∷ cs) message_limit l in
    ap atoi e
    ∙ atoi-digits cs rest c h.0
    ∙ ap (λ o. o >>= positive) (read_digits-value (c ∷ cs) rest 0 h)

version_of-to_string : (n : ℕ) → n < 2 ^ 31 → version_of (to_string n) ≡ ok (pos n)
unfolding to_string
version_of-to_string n h =
    version_of-digits (digits (suc n) n) (digits-IsDigit (suc n) n)
      (omega (arith, digits-length (suc n) 9 n (omega arith)))
    ∙ ap positive (value-digits (suc n) n (omega arith))
    ∙ ground (arith, h)

-- Datagrams from clients, none of which came with a stop.
abbrev pub asked : List (ℕ × Text) → List Arrival
asked [] = []
asked ((client, bytes) ∷ more) = datagram false client bytes ∷ asked more

module _ (urls : Urls) where
  answers-append :
      (earlier : List (ℕ × Text)) (now : List Arrival)
      → answers urls (asked earlier ++ now)
        ≡ (answers urls (asked earlier) >>= λ sent. answers urls now >>= λ more. ok (sent ++ more))
  unfolding answers
  answers-append [] now = unit (answers urls now)
    where
      unit : (a : Result (List (ℕ × Text))) → a ≡ (a >>= λ more. ok more)
      unit (ok more) = refl
      unit (err e) = refl
  answers-append ((client, bytes) ∷ earlier) now =
      both (version_of bytes) (answers urls (asked earlier)) (answers urls now) _
        (answers-append earlier now)
    where
      both :
          (v : Result ℤ) (a b c : Result (List (ℕ × Text)))
          → c ≡ (a >>= λ sent. b >>= λ more. ok (sent ++ more))
          → (v >>= λ version. c >>= λ more. ok ((client, answer urls version) ∷ more)) ≡ (
              (v >>= λ version. a >>= λ more. ok ((client, answer urls version) ∷ more)) >>= λ sent.
              b >>= λ more. ok (sent ++ more))
      both (err x) a b c e = refl
      both (ok v) (err x) b c e = rw e refl
      both (ok v) (ok s) (err x) c e = rw e refl
      both (ok v) (ok s) (ok t) c e = rw e refl

  -- A client that sends the digits of a version that an int can hold, in the datagram that comes
  -- with the stop, after any datagrams that were answered: it gets one answer more, the last of
  -- all, from which a reader of fields gets the urls that go with the version. The urls fit their
  -- size bytes and have no zero byte.
  pub discovered :
      (earlier : List (ℕ × Text)) (client n : ℕ) (later : List Arrival) (sent : List (ℕ × Text))
      → answers urls (asked earlier) ≡ ok sent
      → n < 2 ^ 31
      → Fits urls.puller_url
      → Fits urls.publisher_url
      → Fits urls.replier_url
      → Fits urls.agent_url
      → (message : Text) × ((run_broadcast_receiver urls true
              (asked earlier ++ datagram true client (to_string n) ∷ later)
            >>= λ o. ok (sent_by o))
          ≡ ok (sent ++ (client, message) ∷ []))
        × (read 5 message ≡ some (expected urls (pos n)))
  unfolding answers
  discovered earlier client n later sent e h a b c d = (
    answer urls (pos n),
    run_broadcast_receiver-fresh urls _
        ∙ answers-append earlier (datagram true client (to_string n) ∷ later)
        ∙ ap
            (λ o. o >>= λ s.
              answers urls (datagram true client (to_string n) ∷ later) >>= λ more. ok (s ++ more))
            e
        ∙ ap
            (λ (o : Result ℤ).
              (o >>= λ version. ok ((client, answer urls version) ∷ [])) >>= λ more.
              ok (sent ++ more))
            (version_of-to_string n h),
    read-answer urls (pos n) a b c d,
  )
