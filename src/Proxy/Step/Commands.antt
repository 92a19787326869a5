-- ===== src/Proxy/Step/Commands.antt =====
-- The commands of the agent apart from how they are written, and what each is to do.
use server_game.Base.{
  ◌≡◌, refl, subst, Bool, true, false, none, List, [], ◌∷◌, ◌++◌, All, Result, ok, err, ◌&&◌, not,
  ◌>>=◌, arith,
}
use mathlib.Core.List.{append-nil}
use server_game.Base.Text.{Text, str, text_key}
use server_game.Application.State.{Application}
use server_game.Proxy.Stream.{is_nil, is_space, read_name}
use server_game.Proxy.Stream.Words.{
  IsWord, IsPlain, NotSpace, before, spaced, extract-before, extract-open,
}
use server_game.Proxy.Stream.Names.{name_words, read_name-before}
use server_game.Proxy.Reply.{OutputMode}
use server_game.Proxy.Step
use server_game.Proxy.Step.{Surroundings, Outcome, dispatch, dispatch_argument}

-- A name by its words.
pub record Name : Type 0 where
  pub first : Text
  pub others : List Text

pub record IsName (n : Name) : Type 0 where
  pub head : IsPlain n.first
  pub rest : All IsPlain n.others

abbrev pub name_text : Name → Text
name_text n = n.first ++ spaced n.others

abbrev pub written_name : Name → List Text
written_name n = name_words n.first n.others

pub read_name-last :
    (whole : Text) (n : Name)
    → IsName n
    → read_name (before whole (written_name n)) ≡ ok (name_text n, before whole [])
read_name-last whole n h =
    subst (λ ws. read_name (before whole ws) ≡ ok (name_text n, before whole []))
      (append-nil (written_name n)) (read_name-before whole n.first n.others [] h.head h.rest)

abbrev pub done : Application → Result Outcome
done app = ok (app, true, str "OK")

pub dispatch_argument-name :
    (whole : Text) (n : Name) (f : Text → Application → Result Application) (app : Application)
    → IsName n
    → dispatch_argument (before whole (written_name n)) f app ≡ (f (name_text n) app >>= done)
unfolding dispatch_argument dispatch
dispatch_argument-name whole n f app h = rw (read_name-last whole n h) refl

abbrev pub all_words : Text → Bool
all_words [] = true
all_words (c ∷ cs) = not (is_space c) && all_words cs

clean_of : (w : Text) → all_words w ≡ true → All NotSpace w
clean_of [] e = tt
clean_of (c ∷ cs) e = (ground arith, clean_of cs (ground arith))

-- A word of the language.
pub keyword : (w : Text) → is_nil w ≡ false → all_words w ≡ true → IsWord w
keyword w e f = record { head = e; clean = clean_of w f }

-- A name and two words behind it.
pub dispatch_setting-name :
    (whole : Text) (n : Name) (p v : Text)
    (f : Text → Text → Text → Application → Result Application) (app : Application)
    → IsName n
    → IsWord p
    → IsWord v
    → Step.dispatch_setting (before whole (written_name n ++ p ∷ v ∷ [])) f app
      ≡ (f (name_text n) p v app >>= done)
unfolding dispatch
dispatch_setting-name whole n p v f app h hp hv =
    rw
      (
        read_name-before whole n.first n.others (p ∷ v ∷ []) h.head h.rest,
        extract-before [] whole p (v ∷ []) hp,
        extract-before [] whole v [] hv,
      )
      refl

pub fall_back-done :
    (env : Surroundings) (r : Result Application)
    → ((r >>= done) >>= Step.fall_back env OutputMode.text) ≡ (r >>= done)
unfolding Step.fall_back
fall_back-done env (ok app) = refl
fall_back-done env (err e) = refl

-- A command that no action answers is read word by word.
pub step-words :
    (env : Surroundings) (w : Text) (ws : List Text) (app : Application)
    → IsWord w
    → Step.find_action w ≡ none
    → Step.step env OutputMode.text (w ++ spaced ws) app ≡ (
        Step.perform env (w ++ spaced ws) w (before (w ++ spaced ws) ws) app
        >>= Step.fall_back env OutputMode.text)
unfolding Step.step Step.step_text
step-words env w ws app h e =
    rw (extract-open w ws h, Step.step_text, e) (rw (extract-open w ws h) refl)
