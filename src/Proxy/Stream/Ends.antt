-- ===== src/Proxy/Stream/Ends.antt =====
-- ReadName of src/orwell/proxy/Tokens.cpp on any stream: how far it reads, and that its loop ends.
use server_game.Base.{
  ℕ, zero, suc, ◌<◌, ◌≤◌, ◌≡◌, ◌⊎◌, inl, inr, refl, ap, Bool-cases, true, false, some, none, Option,
  [], ◌∷◌, ◌++◌, length, Result, ok, err, dangling, arith,
}
use server_game.Base.Key.{◌==◌, nat_key}
use server_game.Base.Text.{Text}
use server_game.Proxy.Stream.{
  Stream, good, quote, space, back, inside, is_nil, is_space, skip_spaces, word, extract,
  extract_word, fragments, name_from, read_name,
}

length-skip_spaces : (t : Text) → length (skip_spaces t) ≤ length t
unfolding skip_spaces
length-skip_spaces [] = omega arith
length-skip_spaces (c ∷ cs) = elim (Bool-cases (is_space c)) [
  | inl e ↦ rw (skip_spaces, e) (omega (arith, length-skip_spaces cs))
  | inr e ↦ rw (skip_spaces, e) (omega arith)
]

-- What skipping stops in front of is no space.
abbrev Unspaced : Text → Type 0
Unspaced [] = Unit
Unspaced (c ∷ cs) = is_space c ≡ false

skip_spaces-Unspaced : (t : Text) → Unspaced (skip_spaces t)
unfolding skip_spaces
skip_spaces-Unspaced [] = tt
skip_spaces-Unspaced (c ∷ cs) = elim (Bool-cases (is_space c)) [
  | inl e ↦ rw (skip_spaces, e) (skip_spaces-Unspaced cs)
  | inr e ↦ rw (skip_spaces, e) e
]

length-word : (t : Text) → length (word t).1 ≤ length t
unfolding word
length-word [] = omega arith
length-word (c ∷ cs) = elim (Bool-cases (is_space c)) [
  | inl e ↦ rw (word, e) (omega arith)
  | inr e ↦ rw (word, e) (omega (arith, length-word cs))
]

-- A stream that is good gives a word, and has fewer bytes left then; or there was none, the
-- variable keeps what it had, and the stream is at its end.
Taken : ℕ → Text → Text × Stream → Type 0
Taken bytes old (w, s) =
    ((w ≡ old) × (good s ≡ false) × (length s.rest ≡ 0))
    ⊎ ((is_nil w ≡ false) × (length s.rest < bytes))

extract_word-Taken :
    (old t : Text) (s : Stream) (bytes : ℕ)
    → Unspaced t
    → length t ≤ bytes
    → Taken bytes old (extract_word old t s)
unfolding Taken extract_word word
extract_word-Taken old [] s bytes h b = inl (refl, refl, refl)
extract_word-Taken old (c ∷ cs) s bytes h b =
    rw (word, h) (inr (refl, omega (arith, length-word cs)))

extract-Taken :
    (old : Text) (s : Stream) → good s ≡ true → Taken (length s.rest) old (extract old s)
unfolding extract
extract-Taken old s e =
    rw (extract, e)
      (extract_word-Taken old (skip_spaces s.rest) s (length s.rest) (skip_spaces-Unspaced s.rest)
        (length-skip_spaces s.rest))

-- A name and what is left, of fewer bytes than these, or a fault of an empty text.
Ends : ℕ → Result (Text × Stream) → Type 0
Ends bytes r = ((o : Text × Stream) × (r ≡ ok o) × (length o.1.rest < bytes)) ⊎ (r ≡ err dangling)

name-Ends : (bytes : ℕ) (o : Text × Stream) → length o.1.rest < bytes → Ends bytes (ok o)
unfolding Ends
name-Ends bytes o less = inl (o, refl, less)

after-Ends :
    (bytes : ℕ) (last : Option ℕ) (name : Text × Stream) (more : Result (Text × Stream))
    → length name.1.rest < bytes
    → Ends bytes more
    → Ends bytes (elim last [
      | none ↦ err dangling
      | some c ↦ elim (c == quote) [ true ↦ ok name | false ↦ more ]
    ])
unfolding Ends
after-Ends bytes none name more less h = inr refl
after-Ends bytes (some c) name more less h = elim (Bool-cases (c == quote)) [
  | inl e ↦ rw e (inl (name, refl, less))
  | inr e ↦ rw e h
]

-- What is left once a word was taken from a stream that was good.
Taken-fewer :
    (bytes : ℕ) (old : Text) (o : Text × Stream)
    → Taken bytes old o
    → (length o.1.rest ≤ bytes) × (good o.1 ≡ true → length o.1.rest < bytes)
unfolding Taken
Taken-fewer bytes old o (inl (_, ended, e)) = (omega (arith, e), λ h. cc)
Taken-fewer bytes old o (inr (_, e)) = (omega (arith, e), λ h. e)

-- A round for each byte and one to see the end are enough.
fragments-Ends :
    (fuel bytes : ℕ) (result fragment : Text) (s : Stream)
    → (good s ≡ true → length s.rest < fuel)
    → length s.rest < bytes
    → Ends bytes (fragments (suc fuel) result fragment s)
unfolding fragments
fragments-Ends zero bytes result fragment s enough less = elim (Bool-cases (good s)) [
  | inr e ↦ rw (fragments, e) (name-Ends bytes (result, s) less)
  | inl e ↦ elim (enough e) [ ]
]
fragments-Ends (suc fuel) bytes result fragment s enough less = elim (Bool-cases (good s)) [
  | inr e ↦ rw (fragments, e) (name-Ends bytes (result, s) less)
  | inl e ↦
      let o = extract fragment s in
      let (fewer, strict) = Taken-fewer (length s.rest) fragment o (extract-Taken fragment s e) in
      let b = enough e in
      rw (fragments, e)
        (after-Ends bytes (back o.0) (inside (result ++ (space ∷ o.0)), o.1)
          (fragments (suc fuel) (result ++ (space ∷ o.0)) o.0 o.1) (omega (arith, fewer, less))
          (fragments-Ends fuel bytes (result ++ (space ∷ o.0)) o.0 o.1
            (λ h. omega (arith, strict h, b)) (omega (arith, fewer, less))))
]

name_from-Ends :
    (bytes : ℕ) (name : Text) (s : Stream)
    → (is_nil name ≡ false → length s.rest < bytes)
    → Ends bytes (name_from name s)
unfolding name_from Ends
name_from-Ends bytes [] s less = inr refl
name_from-Ends bytes (c ∷ cs) s less = elim (Bool-cases (quote == c)) [
  | inl e ↦
      rw e (fragments-Ends (suc (length s.rest)) bytes (c ∷ cs) [] s (λ h. omega arith) (less refl))
  | inr e ↦ rw e (inl ((c ∷ cs, s), refl, less refl))
]

first-Ends : (bytes : ℕ) (o : Text × Stream) → Taken bytes [] o → Ends bytes (name_from o.0 o.1)
unfolding Taken
first-Ends bytes (w, s) (inl (e, _, _)) =
    name_from-Ends bytes w s (λ h. let bad = ap is_nil e in cc)
first-Ends bytes (w, s) (inr (_, less)) = name_from-Ends bytes w s (λ h. less)

-- ReadName ends on any stream: with a name, for which it has taken a byte at least, or in a fault,
-- as it asks for the first or the last byte of an empty text.
pub read_name-ends :
    (s : Stream)
    → ((o : Text × Stream) × (read_name s ≡ ok o) × (length o.1.rest < length s.rest))
      ⊎ (read_name s ≡ err dangling)
unfolding read_name Ends
read_name-ends s = elim (Bool-cases (good s)) [
  | inl e ↦ first-Ends (length s.rest) (extract [] s) (extract-Taken [] s e)
  | inr e ↦ rw (extract, e, read_name) (inr refl)
]
