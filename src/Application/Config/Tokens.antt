-- ===== src/Application/Config/Tokens.antt =====
-- A list of names with separators between them is split into the names.
use server_game.Base.{ℕ, ◌≡◌, refl, sym, ap, ◌∙◌, true, false, List, [], ◌∷◌, ◌++◌, All}
use mathlib.Core.List.{append-nil, append_assoc}
use server_game.Base.Text.{Text}
use server_game.Application.Config.{tokenize, tokens_from, is_separator, flushed}
use server_game.Game.Item.{is_empty}

abbrev pub NoSeparator : ℕ → Type 0
NoSeparator c = is_separator c ≡ false

-- A name has a byte, and no separator.
abbrev pub IsToken : Text → Type 0
IsToken w = (is_empty w ≡ false) × All NoSeparator w

abbrev pub AllSeparators : Text → Type 0
AllSeparators s = All (λ c. is_separator c ≡ true) s

-- A separator behind each name, and more of them.
unfoldable pub separated : List (Text × ℕ × Text) → Text
separated [] = []
separated ((w, c, more) ∷ rest) = w ++ c ∷ (more ++ separated rest)

abbrev pub names : List (Text × ℕ × Text) → List Text
names [] = []
names ((w, c, more) ∷ rest) = w ∷ names rest

abbrev pub IsSeparated : Text × ℕ × Text → Type 0
IsSeparated e = IsToken e.0 × (is_separator e.1 ≡ true) × AllSeparators e.2

through :
    (w rest token : Text) (tokens : List Text)
    → All NoSeparator w
    → tokens_from (w ++ rest) token tokens ≡ tokens_from rest (token ++ w) tokens
unfolding tokens_from
through [] rest token tokens h = ap (λ t. tokens_from rest t tokens) (sym (append-nil token))
through (c ∷ w) rest token tokens (h, hs) =
    rw (h, tokens_from)
      (through w rest (token ++ c ∷ []) tokens hs
        ∙ ap (λ t. tokens_from rest t tokens) (append_assoc token (c ∷ []) w))

skipped :
    (s rest : Text) (tokens : List Text)
    → AllSeparators s
    → tokens_from (s ++ rest) [] tokens ≡ tokens_from rest [] tokens
unfolding tokens_from
skipped [] rest tokens h = refl
skipped (c ∷ s) rest tokens (h, hs) = rw (h, tokens_from) (skipped s rest tokens hs)

flushed-token :
    (w : Text) (tokens : List Text) → is_empty w ≡ false → flushed w tokens ≡ tokens ++ w ∷ []
flushed-token [] tokens h = cc
flushed-token (c ∷ cs) tokens h = refl

all_tokens :
    (es : List (Text × ℕ × Text)) (tokens : List Text)
    → All IsSeparated es
    → tokens_from (separated es) [] tokens ≡ tokens ++ names es
unfolding tokens_from separated
all_tokens [] tokens h = sym (append-nil tokens)
all_tokens ((w, c, more) ∷ rest) tokens (((e, hw), hc, hm), hs) =
    through w (c ∷ (more ++ separated rest)) [] tokens hw
    ∙ rw (hc, tokens_from)
        (rw (flushed-token w tokens e) (
          skipped more (separated rest) (tokens ++ w ∷ []) hm
          ∙ all_tokens rest (tokens ++ w ∷ []) hs
          ∙ append_assoc tokens (w ∷ []) (names rest)))

-- Names without bars and spaces, with one bar or space or more behind each of them, are what
-- Application::Tokenize finds in the text, in their order.
pub tokenize-separated :
    (es : List (Text × ℕ × Text)) → All IsSeparated es → tokenize (separated es) ≡ names es
unfolding tokenize
tokenize-separated es h = all_tokens es [] h
