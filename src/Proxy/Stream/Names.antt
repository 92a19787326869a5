-- ===== src/Proxy/Stream/Names.antt =====
-- ReadName of src/orwell/proxy/Tokens.cpp on names in quotes.
use server_game.Base.{
  ℕ, zero, suc, ◌<◌, ◌≤◌, ◌≡◌, refl, sym, ap, ◌∙◌, false, some, List, [], ◌∷◌, ◌++◌, All,
  All-append, length, length-append, ok, arith,
}
use mathlib.Core.List.{append-nil, append_assoc}
use server_game.Base.Key.{◌==◌, nat_key}
use server_game.Base.Text.{Text}
use server_game.Proxy.Stream.{
  Stream, good, quote, back, but_last, inside, fragments, name_from, read_name,
}
use server_game.Proxy.Stream.Words.{
  IsWord, IsPlain, IsPlain-IsWord, NotSpace, Plain, words_of, spaced, before, extract-before,
}

-- The words of a name in quotes, behind its first.
unfoldable pub closing : Text → List Text → List Text
closing w [] = (w ++ quote ∷ []) ∷ []
closing w (v ∷ vs) = w ∷ closing v vs

-- A name of several words stands in quotes.
unfoldable pub name_words : Text → List Text → List Text
unfolding closing
name_words w [] = w ∷ []
name_words w (v ∷ vs) = (quote ∷ w) ∷ closing v vs

back-close : (w : Text) → back (w ++ quote ∷ []) ≡ some quote
back-close [] = refl
back-close (c ∷ []) = refl
back-close (c ∷ d ∷ cs) = back-close (d ∷ cs)

but_last-close : (w : Text) → but_last (w ++ quote ∷ []) ≡ w
but_last-close [] = refl
but_last-close (c ∷ []) = refl
but_last-close (c ∷ d ∷ cs) = ap (λ t. c ∷ t) (but_last-close (d ∷ cs))

back-plain :
    (c : ℕ) (cs : Text)
    → All Plain (c ∷ cs)
    → (d : ℕ) × (back (c ∷ cs) ≡ some d) × ((d == quote) ≡ false)
back-plain c [] h = (c, refl, h.0.1)
back-plain c (d ∷ cs) h = back-plain d cs h.1

closed_word : (w : Text) → IsPlain w → IsWord (w ++ quote ∷ [])
closed_word [] h = let bad = h.head in cc
closed_word (c ∷ cs) h = record {
  head = refl;
  clean = All-append NotSpace (c ∷ cs) (quote ∷ []) (words_of (c ∷ cs) h.clean) (refl, tt);
}

quoted_word : (w : Text) → IsPlain w → IsWord (quote ∷ w)
quoted_word w h = record { head = refl; clean = (refl, words_of w h.clean) }

fragments-last :
    (fuel : ℕ) (result old whole v : Text) (rest : List Text)
    → IsPlain v
    → fragments (suc fuel) result old (before whole ((v ++ quote ∷ []) ∷ rest))
      ≡ ok (inside (result ++ (b' ' ∷ v ++ quote ∷ [])), before whole rest)
unfolding fragments
fragments-last fuel result old whole v rest h =
    rw (extract-before old whole (v ++ quote ∷ []) rest (closed_word v h), fragments, back-close v)
      (rw (extract-before old whole (v ++ quote ∷ []) rest (closed_word v h)) refl)

fragments-next :
    (fuel : ℕ) (result old whole v : Text) (rest : List Text)
    → IsPlain v
    → fragments (suc fuel) result old (before whole (v ∷ rest))
      ≡ fragments fuel (result ++ b' ' ∷ v) v (before whole rest)
unfolding fragments
fragments-next fuel result old whole [] rest h = let bad = h.head in cc
fragments-next fuel result old whole (c ∷ cs) rest h =
    let (d, e, plain) = back-plain c cs h.clean in
    rw (extract-before old whole (c ∷ cs) rest (IsPlain-IsWord (c ∷ cs) h), fragments, e, plain)
      (rw (extract-before old whole (c ∷ cs) rest (IsPlain-IsWord (c ∷ cs) h)) refl)

-- The fragments up to the closing quote, with a round for each.
fragments-closing :
    (fuel : ℕ) (result old whole v : Text) (vs rest : List Text)
    → length vs < fuel
    → IsPlain v
    → All IsPlain vs
    → fragments fuel result old (before whole (closing v vs ++ rest))
      ≡ ok (inside (result ++ spaced (closing v vs)), before whole rest)
unfolding closing spaced
fragments-closing zero result old whole v vs rest b h hs = elim b [ ]
fragments-closing (suc fuel) result old whole v [] rest b h hs =
    rw (append-nil (v ++ quote ∷ [])) (fragments-last fuel result old whole v rest h)
fragments-closing (suc fuel) result old whole v (w ∷ vs) rest b h (hw, hs) =
    fragments-next fuel result old whole v (closing w vs ++ rest) h
    ∙ fragments-closing fuel (result ++ b' ' ∷ v) v whole w vs rest (omega arith) hw hs
    ∙ ap (λ t. ok (inside t, before whole rest))
        (append_assoc result (b' ' ∷ v) (spaced (closing w vs)))

length-spaced : (ws : List Text) → length ws ≤ length (spaced ws)
unfolding spaced
length-spaced [] = omega arith
length-spaced (w ∷ ws) = omega (arith, length-spaced ws, length-append w (spaced ws))

length-closing : (w : Text) (vs : List Text) → length (closing w vs) ≡ suc (length vs)
unfolding closing
length-closing w [] = refl
length-closing w (v ∷ vs) = ap suc (length-closing v vs)

-- The text of a name.
abbrev pub name_text : Text → List Text → Text
name_text w vs = w ++ spaced vs

spaced-closing : (v : Text) (vs : List Text) → spaced (closing v vs) ≡ spaced (v ∷ vs) ++ quote ∷ []
unfolding spaced closing
spaced-closing v [] = rw (append-nil v, append-nil (v ++ quote ∷ [])) refl
spaced-closing v (w ∷ vs) =
    ap (λ t. b' ' ∷ v ++ t) (spaced-closing w vs)
    ∙ sym (append_assoc (b' ' ∷ v) (spaced (w ∷ vs)) (quote ∷ []))

inside-closing :
    (w v : Text) (vs : List Text)
    → inside ((quote ∷ w) ++ spaced (closing v vs)) ≡ name_text w (v ∷ vs)
inside-closing w v vs =
    ap (λ t. but_last (w ++ t)) (spaced-closing v vs)
    ∙ ap but_last (sym (append_assoc w (spaced (v ∷ vs)) (quote ∷ [])))
    ∙ but_last-close (w ++ spaced (v ∷ vs))

name_from-plain : (w : Text) (s : Stream) → IsPlain w → name_from w s ≡ ok (w, s)
unfolding name_from
name_from-plain [] s h = let bad = h.head in cc
name_from-plain (c ∷ cs) s h = ground (arith, h.clean.0.1)

-- The rounds are enough: each takes a byte at least.
enough :
    (whole v : Text) (vs rest : List Text)
    → length vs < suc (suc (length (before whole (closing v vs ++ rest)).rest))
unfolding closing
enough whole v [] rest = omega arith
enough whole v (w ∷ vs) rest = omega (
  arith,
  length-spaced (v ∷ (closing w vs ++ rest)),
  length-append (closing w vs) rest,
  length-closing w vs,
)

name_from-quoted :
    (whole w v : Text) (vs rest : List Text)
    → IsPlain v
    → All IsPlain vs
    → name_from (quote ∷ w) (before whole (closing v vs ++ rest))
      ≡ ok (name_text w (v ∷ vs), before whole rest)
unfolding name_from
name_from-quoted whole w v vs rest h hs =
    fragments-closing (suc (suc (length (before whole (closing v vs ++ rest)).rest))) (quote ∷ w) []
      whole v vs rest (enough whole v vs rest) h hs
    ∙ ap (λ t. ok (t, before whole rest)) (inside-closing w v vs)

alone : (w : Text) → name_text w [] ≡ w
unfolding spaced
alone w = append-nil w

-- ReadName gives back a name of words without quotes and spaces, and stops in front of the words
-- behind it: a name of one word is read as it stands, one of several words stands in quotes.
pub read_name-before :
    (whole w : Text) (vs rest : List Text)
    → IsPlain w
    → All IsPlain vs
    → read_name (before whole (name_words w vs ++ rest)) ≡ ok (name_text w vs, before whole rest)
unfolding read_name name_words
read_name-before whole w [] rest h hs =
    rw (extract-before [] whole w rest (IsPlain-IsWord w h), read_name)
      (name_from-plain w (before whole rest) h
        ∙ ap (λ t. ok (t, before whole rest)) (sym (alone w)))
read_name-before whole w (v ∷ vs) rest h (hv, hs) =
    rw (extract-before [] whole (quote ∷ w) (closing v vs ++ rest) (quoted_word w h), read_name)
      (name_from-quoted whole w v vs rest hv hs)

one_lem : (w : Text) (s : Stream) → good s ≡ false → name_from (quote ∷ w) s ≡ ok (quote ∷ w, s)
unfolding name_from fragments
one_lem w s e = rw (fragments, e) refl

-- A name of one word in quotes at the end of a command keeps its quotes: the closing one is looked
-- for in the fragments behind the first.
pub read_name-one_quoted :
    (whole w : Text)
    → IsPlain w
    → read_name (before whole ((quote ∷ w ++ quote ∷ []) ∷ []))
      ≡ ok (quote ∷ w ++ quote ∷ [], before whole [])
unfolding read_name
read_name-one_quoted whole w h =
    rw (extract-before [] whole (quote ∷ w ++ quote ∷ []) [] both, read_name)
      (one_lem (w ++ quote ∷ []) (before whole []) refl)
  where
    both : IsWord (quote ∷ w ++ quote ∷ [])
    both = record { head = refl; clean = (refl, (closed_word w h).clean) }
