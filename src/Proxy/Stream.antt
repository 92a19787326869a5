-- ===== src/Proxy/Stream.antt =====
-- std::istringstream as the proxies use it, in the "C" locale, and src/orwell/proxy/Tokens.cpp.
pub mod Words
pub mod Ends
pub mod Names
use server_game.Base.{
  ℕ, zero, suc, ◌+◌, ◌-◌, ◌*◌, ◌%◌, ◌^◌, Bool, true, false, Option, none, some, List, [], ◌∷◌, ◌++◌,
  ltb, leb, length, Result, ok, err, dangling, endless, if◌then◌else◌, ◌&&◌, ◌||◌, not,
}
use server_game.Base.Key.{◌==◌, nat_key}
use server_game.Base.Text.{Text}

-- The text that is left, and the bits `eofbit` and `failbit`.
pub record Stream : Type 0 where
  pub whole : Text
  pub rest : Text
  pub eof : Bool
  pub failed : Bool

abbrev pub open_text : Text → Stream
open_text text = record { whole = text; rest = text; eof = false; failed = false }

abbrev pub good : Stream → Bool
good s = not s.eof && not s.failed

abbrev pub is_space : ℕ → Bool
is_space c = c == b' ' || (leb 9 c && leb c 13)

unfoldable pub skip_spaces : Text → Text
skip_spaces [] = []
skip_spaces (c ∷ cs) = elim (is_space c) [ true ↦ skip_spaces cs | false ↦ c ∷ cs ]

-- The text before the first space, and the text from there.
unfoldable pub word : Text → Text × Text
word [] = ([], [])
word (c ∷ cs) = elim (is_space c) [
  | true ↦ ([], c ∷ cs)
  | false ↦ let (w, rest) = word cs in (c ∷ w, rest)
]

abbrev pub is_nil : Text → Bool
is_nil [] = true
is_nil (c ∷ cs) = false

-- Where the text ends before a value, the variable keeps what it has.
abbrev pub at_end {ℓ} : {A : Type ℓ} → A → Stream → A × Stream
at_end old s = (old, record s { rest = []; eof = true; failed = true })

-- What is taken, and the stream behind it.
abbrev pub taking {ℓ} : {A : Type ℓ} → Stream → A → Text → Bool → A × Stream
taking s a rest fails = (a, record s { rest = rest; eof = is_nil rest; failed = fails })

unfoldable pub extract_word : Text → Text → Stream → Text × Stream
extract_word old [] s = at_end old s
extract_word old (c ∷ cs) s = taking s (word (c ∷ cs)).0 (word (c ∷ cs)).1 false

-- `stream >> text`, where the text was `old`: a stream that is not good leaves it so.
unfoldable pub extract : Text → Stream → Text × Stream
unfolding extract_word word skip_spaces
extract old s =
    if good s then extract_word old (skip_spaces s.rest) s else (old, record s { failed = true })

abbrev pub is_digit : ℕ → Bool
is_digit c = leb b'0' c && leb c b'9'

-- The number that the digits in front stand for, if there is a digit, and the text behind them.
unfoldable pub digits_from : Text → Option ℕ → Option ℕ × Text
digits_from [] n = (n, [])
digits_from (c ∷ cs) n = elim (is_digit c) [
  | false ↦ (n, c ∷ cs)
  | true ↦ digits_from cs (some (elim n [ none ↦ 0 | some m ↦ m * 10 ] + (c - b'0')))
]

-- An unsigned number of that many bits from digits: a missing number is 0 and one too large the
-- greatest, both with failbit; a sign wraps round.
unfoldable pub number_of : ℕ → Bool → Option ℕ → ℕ × Bool
number_of bits negative none = (0, true)
number_of bits negative (some n) =
    if ltb n (2 ^ bits)
    then (if negative then (2 ^ bits - n) % 2 ^ bits else n, false)
    else (2 ^ bits - 1, true)

signed_number : ℕ → Text → Stream → ℕ × Stream
unfolding number_of digits_from
signed_number bits [] s = taking s 0 [] true
signed_number bits (c ∷ cs) s =
    let negative = c == b'-' in
    let body = if negative || c == b'+' then cs else c ∷ cs in
    let (n, rest) = digits_from body none in
    let (value, fails) = number_of bits negative n in taking s value rest fails

extract_number_from : ℕ → ℕ → Text → Stream → ℕ × Stream
unfolding signed_number
extract_number_from bits old [] s = at_end old s
extract_number_from bits old (c ∷ cs) s = signed_number bits (c ∷ cs) s

-- `stream >> number`, where the number was `old`.
unfoldable pub extract_number : ℕ → ℕ → Stream → ℕ × Stream
unfolding extract_number_from skip_spaces
extract_number bits old s =
    if good s
    then extract_number_from bits old (skip_spaces s.rest) s
    else (old, record s { failed = true })

abbrev pub extract_u32 : ℕ → Stream → ℕ × Stream
extract_u32 = extract_number 32

char_from : ℕ → Text → Stream → ℕ × Stream
char_from old [] s = at_end old s
char_from old (c ∷ cs) s = (c, record s { rest = cs })

-- `stream >> character`, which does not look behind it.
unfoldable pub extract_char : ℕ → Stream → ℕ × Stream
unfolding char_from skip_spaces
extract_char old s =
    if good s then char_from old (skip_spaces s.rest) s else (old, record s { failed = true })

abbrev pub quote : ℕ
quote = 34

abbrev pub space : ℕ
space = b' '

-- `back()`, if there is one.
abbrev pub back : Text → Option ℕ
back [] = none
back (c ∷ []) = some c
back (c ∷ d ∷ cs) = back (d ∷ cs)

-- All but the last.
abbrev pub but_last : Text → Text
but_last [] = []
but_last (c ∷ []) = []
but_last (c ∷ d ∷ cs) = c ∷ but_last (d ∷ cs)

-- `substr(1, length - 2)`
abbrev pub inside : Text → Text
inside [] = []
inside (c ∷ cs) = but_last cs

-- The loop over the fragments of a name in quotes. `back()` of an empty text is undefined.
unfoldable pub fragments : ℕ → Text → Text → Stream → Result (Text × Stream)
fragments zero result fragment s = err endless
fragments (suc fuel) result fragment s = elim (good s) [
  | false ↦ ok (result, s)
  | true ↦
      let (fragment', s') = extract fragment s in
      let result' = result ++ (space ∷ fragment') in
      elim (back fragment') [
        | none ↦ err dangling
        | some c ↦ elim (c == quote) [
          | true ↦ ok (inside result', s')
          | false ↦ fragments fuel result' fragment' s'
        ]
      ]
]

unfoldable pub name_from : Text → Stream → Result (Text × Stream)
name_from [] s = err dangling
name_from (c ∷ cs) s =
    if quote == c then fragments (suc (suc (length s.rest))) (c ∷ cs) [] s else ok (c ∷ cs, s)

-- ReadName. `front()` of an empty text is undefined. A round takes a fragment or ends the stream.
unfoldable pub read_name : Stream → Result (Text × Stream)
unfolding name_from extract fragments
read_name s = let (first, s') = extract [] s in name_from first s'
