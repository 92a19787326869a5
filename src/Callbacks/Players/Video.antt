-- ===== src/Callbacks/Players/Video.antt =====
-- The video that a player is told, apart from how ProcessHello finds it in the url.
use server_game.Base.{
  ℕ, ◌≡◌, ◌≢◌, refl, Option, none, some, [], ◌∷◌, ◌++◌, ok, arith, ◌⊎◌, inl, inr, Option-cases, ap,
}
use server_game.Base.Key.{nat_key}
use server_game.Base.Text.{Text, str}
use server_game.Game.Types.{Robot}
use server_game.Com.RawMessage.{split_at}
use server_game.Com.RawMessage.RoundTrip.{Without, split_at-append}
use server_game.Callbacks.Players.{behind, colon, video_of}

-- An url `nc:ADDRESS:TEXT` has the address and the port that the text is cast to; in `nc:ADDRESS` the
-- whole url is cast; with any other url the video comes over the robot's port of this machine.
abbrev pub IsVideo : (Text → Option ℕ) → Robot → Text → ℕ → Type 0
IsVideo cast r address port =
    ((text : Text) × (r.video_url ≡ str "nc:" ++ (address ++ colon ∷ text))
      × Without colon address
      × (cast text ≡ some port))
    ⊎ (((r.video_url ≡ str "nc:" ++ address)
          × Without colon address
          × (cast r.video_url ≡ some port))
        ⊎ (((rest : Text) → r.video_url ≢ str "nc:" ++ rest)
            × (address ≡ str "localhost")
            × (port ≡ r.video_retransmission_port)))

behind-append : (p rest : Text) → behind p (p ++ rest) ≡ some rest
behind-append [] rest = refl
behind-append (c ∷ p) rest = ground (arith, behind-append p rest)

behind-split : (p text rest : Text) → behind p text ≡ some rest → text ≡ p ++ rest
behind-split [] text rest e = ground (arith, e)
behind-split (c ∷ p) [] rest e = cc
behind-split (c ∷ p) (d ∷ text) rest e = ground (arith, e, behind-split p text rest)

split_at-none : (c : ℕ) (text : Text) → Without c text → split_at c text ≡ none
unfolding split_at
split_at-none c [] h = refl
split_at-none c (x ∷ xs) (h, hs) = ground (arith, h, split_at-none c xs hs)

pub video_of-IsVideo :
    (cast : Text → Option ℕ) (r : Robot) (address : Text) (port : ℕ)
    → IsVideo cast r address port
    → video_of cast r ≡ ok (address, port)
unfolding video_of
video_of-IsVideo cast r address port (inl (text, url, plain, c)) =
    rw (url, video_of) (rw (split_at-append colon address text plain) (rw c refl))
video_of-IsVideo cast r address port (inr (inl (url, plain, c))) =
    rw (ap (behind (str "nc:")) url, video_of) (rw (split_at-none colon address plain) (rw c refl))
video_of-IsVideo cast r address port (inr (inr (other, a, p))) =
    elim (Option-cases (behind (str "nc:") r.video_url)) [
      | inl e ↦ rw (e, video_of, a, p) refl
      | inr (rest, e) ↦ absurd (other rest (behind-split (str "nc:") r.video_url rest e))
    ]
