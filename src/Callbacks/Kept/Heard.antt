-- ===== src/Callbacks/Kept/Heard.antt =====
-- Any sequence of messages, as ProcessDecider::process handles them one after the other.
use server_game.Base.{
  ℕ, ◌≡◌, sym, ap, ◌∙◌, subst, some, List, [], ◌∷◌, Result, ok, ok-injective, ◌>>=◌, >>=-ok,
}
use server_game.Base.Text.{Text, text_key}
use server_game.Base.StdMap.{find}
use server_game.Game.Types.{Time}
use server_game.Game.Sound.{IsSound}
use server_game.Com.RawMessage.{RawMessage}
use server_game.Callbacks.Messages.{Channel, World}
use server_game.Callbacks.Decider.{Externals, process}
use server_game.Callbacks.Kept.Reported.{process-Fine}
use server_game.Callbacks.Kept.Apart.{IsApart, IsApart-Kept}

empty : (t n : Text) → find {K = Text} {V = Text} t [] ≡ some n → ⊥
unfolding find
empty t n h = cc

-- A message with the socket that it came over, and the time.
pub record Heard : Type 0 where
  pub now : Time
  pub milliseconds : ℕ
  pub message : RawMessage
  pub channel : Channel

-- The messages one after the other, as ProcessDecider::process handles them.
unfoldable pub hear : Externals → List Heard → World → Result World
hear ext [] w = ok w
hear ext (h ∷ rest) w = process ext h.now h.milliseconds h.message h.channel w >>= hear ext rest

hear-IsApart :
    (ext : Externals) (hs : List Heard) (w w' : World)
    → hear ext hs w ≡ ok w'
    → IsApart w.game
    → IsApart w'.game
unfolding hear
hear-IsApart ext [] w w' e a = subst (λ (x : World). IsApart x.game) (ok-injective e) a
hear-IsApart ext (h ∷ rest) w w' e a =
    let (m, first_one, e') = >>=-ok (process ext h.now h.milliseconds h.message h.channel w) _ e in
    hear-IsApart ext rest m w' e' (
      process-Fine IsApart IsApart-Kept ext h.now h.milliseconds h.message h.channel w a m
        first_one)

-- A sound game under no temporary id of which a robot is registered yet. Whatever messages come,
-- unless one of them faults, no two temporary ids are ever registered under one robot, and each
-- that is registered has a robot of the map that is marked as real.
pub registered-IsApart :
    (ext : Externals) (hs : List Heard) (w w' : World)
    → hear ext hs w ≡ ok w'
    → IsSound w.game
    → w.game.registered_robots ≡ []
    → IsApart w'.game
registered-IsApart ext hs w w' e v fresh = hear-IsApart ext hs w w' e (record {
  sound = v;
  apart = λ t u n x y. absurd (nothing t n x);
  real = λ t n x. absurd (nothing t n x);
})
  where
    nothing : (t n : Text) → find t w.game.registered_robots ≡ some n → ⊥
    nothing t n x = empty t n (ap (find t) (sym fresh) ∙ x)
