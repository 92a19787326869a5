-- ===== src/Proxy/Stream/Words.antt =====
-- Reading a text word by word.
use server_game.Base.{ℕ, ◌≡◌, refl, true, false, List, [], ◌∷◌, ◌++◌, All}
use server_game.Base.Key.{◌==◌, nat_key}
use server_game.Base.Text.{Text}
use server_game.Proxy.Stream.{
  Stream, open_text, extract, extract_word, word, skip_spaces, is_space, is_nil, quote,
}

-- A word has a byte, and none of its bytes is a space.
abbrev pub NotSpace : ℕ → Type 0
NotSpace c = is_space c ≡ false

pub record IsWord (w : Text) : Type 0 where
  pub head : is_nil w ≡ false
  pub clean : All NotSpace w

-- Neither a space nor a quote.
abbrev pub Plain : ℕ → Type 0
Plain c = (is_space c ≡ false) × ((c == quote) ≡ false)

pub record IsPlain (w : Text) : Type 0 where
  pub head : is_nil w ≡ false
  pub clean : All Plain w

-- Each word with a space before it.
unfoldable pub spaced : List Text → Text
spaced [] = []
spaced (w ∷ ws) = b' ' ∷ w ++ spaced ws

-- The stream once all but these words are read.
abbrev pub before : Text → List Text → Stream
before whole [] = record { whole = whole; rest = []; eof = true; failed = false }
before whole (w ∷ ws) = record {
  whole = whole;
  rest = spaced (w ∷ ws);
  eof = false;
  failed = false;
}

word-spaced : (w : Text) (ws : List Text) → All NotSpace w → word (w ++ spaced ws) ≡ (w, spaced ws)
unfolding word spaced
word-spaced [] [] h = refl
word-spaced [] (v ∷ vs) h = refl
word-spaced (c ∷ cs) ws (h, hs) = rw (h, word, word-spaced cs ws hs) refl

-- A word at the front of what is left.
taken :
    (old whole left : Text) (c : ℕ) (cs : Text) (ws : List Text)
    → All NotSpace (c ∷ cs)
    → extract_word old
        (skip_spaces (c ∷ cs ++ spaced ws))
        (record { whole = whole; rest = left; eof = false; failed = false })
      ≡ (c ∷ cs, before whole ws)
unfolding extract_word skip_spaces spaced
taken old whole left c cs [] (h, hs) = rw (h, skip_spaces, word-spaced (c ∷ cs) [] (h, hs)) refl
taken old whole left c cs (w ∷ ws) (h, hs) =
    rw (h, skip_spaces, word-spaced (c ∷ cs) (w ∷ ws) (h, hs)) refl

pub extract-before :
    (old whole w : Text) (ws : List Text)
    → IsWord w
    → extract old (before whole (w ∷ ws)) ≡ (w, before whole ws)
unfolding extract spaced
extract-before old whole [] ws h = let bad = h.head in cc
extract-before old whole (c ∷ cs) ws h = taken old whole (spaced ((c ∷ cs) ∷ ws)) c cs ws h.clean

pub extract-open :
    (w : Text) (ws : List Text)
    → IsWord w
    → extract [] (open_text (w ++ spaced ws)) ≡ (w, before (w ++ spaced ws) ws)
unfolding extract
extract-open [] ws h = let bad = h.head in cc
extract-open (c ∷ cs) ws h = taken [] (c ∷ cs ++ spaced ws) (c ∷ cs ++ spaced ws) c cs ws h.clean

pub words_of : (cs : Text) → All Plain cs → All NotSpace cs
words_of [] h = tt
words_of (c ∷ cs) h = (h.0.0, words_of cs h.1)

pub IsPlain-IsWord : (w : Text) → IsPlain w → IsWord w
IsPlain-IsWord w h = record { head = h.head; clean = words_of w h.clean }
