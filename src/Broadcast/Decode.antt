-- ===== src/Broadcast/Decode.antt =====
-- A reader of the answer, written from the description of its fields, gets the urls back.
use server_game.Base.{
  ℕ, zero, suc, ◌%◌, ◌^◌, ◌<◌, ◌≡◌, ◌≢◌, refl, ap, Option, none, some, List, [], ◌∷◌, ◌++◌, length,
  arith, All,
}
use server_game.Base.Int.{ℤ, pos, negsuc}
use server_game.Base.Key.{nat_key}
use server_game.Base.Text.{Text}
use server_game.Broadcast.{Urls, c_str, field, answer}

-- The first bytes of a text and the bytes behind them, if there are so many.
abbrev pub take_off : ℕ → Text → Option (Text × Text)
take_off zero s = some ([], s)
take_off (suc n) [] = none
take_off (suc n) (c ∷ cs) = elim (take_off n cs) [ none ↦ none | some (a, b) ↦ some (c ∷ a, b) ]

-- Fields of a tag, a size and so many bytes, up to a zero; as many fields as the fuel allows.
pub read : ℕ → Text → Option (List (ℕ × Text))
read zero s = none
read (suc fuel) [] = none
read (suc fuel) (zero ∷ s) = some []
read (suc fuel) (suc tag ∷ []) = none
read (suc fuel) (suc tag ∷ size ∷ s) = elim (take_off size s) [
  | none ↦ none
  | some (url, rest) ↦ elim (read fuel rest) [
    | none ↦ none
    | some fields ↦ some ((suc tag, url) ∷ fields)
  ]
]

-- A url that fits its size byte and has no zero byte.
abbrev pub Fits : Text → Type 0
Fits url = (length url < 256) × All (λ c. c ≢ 0) url

take_off-append : (s rest : Text) → take_off (length s) (s ++ rest) ≡ some (s, rest)
take_off-append [] rest = refl
take_off-append (c ∷ cs) rest = ground (arith, take_off-append cs rest)

c_str-whole : (s : Text) → All (λ c. c ≢ 0) s → c_str s ≡ s
unfolding c_str
c_str-whole [] h = refl
c_str-whole (c ∷ cs) h = ground (arith, c_str-whole cs h.1, h.0)

read-field :
    (fuel tag : ℕ) (url rest : Text) (fields : List (ℕ × Text))
    → Fits url
    → read fuel rest ≡ some fields
    → read (suc fuel) (field (suc tag) url ++ rest) ≡ some ((suc tag, url) ∷ fields)
unfolding read field
read-field fuel tag url rest fields fits h =
    let small : length url % 2 ^ 8 ≡ length url = omega (arith, fits.0) in
    let whole = c_str-whole url fits.1 in
    let taken = take_off-append url rest in ground (arith, small, whole, taken, h)

-- The urls that an answer to a version carries.
abbrev pub expected : Urls → ℤ → List (ℕ × Text)
expected urls (negsuc n) = []
expected urls (pos zero) = (0xA0, urls.puller_url) ∷ (0xA1, urls.publisher_url) ∷ []
expected urls (pos (suc zero)) =
    (0xA0, urls.puller_url) ∷ (0xA1, urls.publisher_url) ∷ (0xA2, urls.replier_url) ∷ []
expected urls (pos (suc (suc n))) =
    (0xA0, urls.puller_url)
    ∷ (0xA1, urls.publisher_url)
    ∷ (0xA2, urls.replier_url)
    ∷ (0xA3, urls.agent_url)
    ∷ []

append_assoc : (a b c : Text) → (a ++ b) ++ c ≡ a ++ (b ++ c)
append_assoc [] b c = refl
append_assoc (x ∷ a) b c = ap (◌∷◌ x) (append_assoc a b c)

-- The two fields that each answer starts with.
read-two :
    (fuel : ℕ) (puller publisher rest : Text) (fields : List (ℕ × Text))
    → Fits puller
    → Fits publisher
    → read fuel rest ≡ some fields
    → read (suc (suc fuel)) ((field 0xA0 puller ++ field 0xA1 publisher) ++ rest)
      ≡ some ((0xA0, puller) ∷ (0xA1, publisher) ∷ fields)
read-two fuel puller publisher rest fields a b h =
    rw (append_assoc (field 0xA0 puller) (field 0xA1 publisher) rest) (
      read-field (suc fuel) 0x9F puller (field 0xA1 publisher ++ rest) ((0xA1, publisher) ∷ fields)
        a (read-field fuel 0xA0 publisher rest fields b h))

answer_older : (urls : Urls) (n : ℕ) → answer urls (negsuc n) ≡ 0 ∷ []
unfolding answer
answer_older urls n = ground arith

answer_newest :
    (urls : Urls) (n : ℕ)
    → answer urls (pos (suc (suc n)))
      ≡ (field 0xA0 urls.puller_url ++ field 0xA1 urls.publisher_url)
        ++ (field 0xA2 urls.replier_url ++ (field 0xA3 urls.agent_url ++ (0 ∷ [])))
unfolding answer
answer_newest urls n = ground arith

-- A reader of fields that has the answer gets the urls that go with the version.
pub read-answer :
    (urls : Urls) (version : ℤ)
    → Fits urls.puller_url
    → Fits urls.publisher_url
    → Fits urls.replier_url
    → Fits urls.agent_url
    → read 5 (answer urls version) ≡ some (expected urls version)
unfolding answer read
read-answer urls (negsuc n) a b c d = rw (answer_older urls n) refl
read-answer urls (pos zero) a b c d =
    read-two 3 urls.puller_url urls.publisher_url (0 ∷ []) [] a b refl
read-answer urls (pos (suc zero)) a b c d =
    read-two 3 urls.puller_url urls.publisher_url (field 0xA2 urls.replier_url ++ (0 ∷ [])) _ a b
      (read-field 2 0xA1 urls.replier_url (0 ∷ []) [] c refl)
read-answer urls (pos (suc (suc n))) a b c d = rw (answer_newest urls n) (
    read-two 3 urls.puller_url urls.publisher_url
      (field 0xA2 urls.replier_url ++ (field 0xA3 urls.agent_url ++ (0 ∷ []))) _ a b
      (read-field 2 0xA1 urls.replier_url (field 0xA3 urls.agent_url ++ (0 ∷ [])) _ c
        (read-field 1 0xA2 urls.agent_url (0 ∷ []) [] d refl)))
