-- ===== src/Base/Ensures.antt =====
-- What holds of each value that a computation returns, part by part.
use mathlib.Core.Path.{◌≡◌, subst}
use mathlib.Core.Bool.{Bool, true, false}
use server_game.Base.Tests.{Result, ok, err, Fault, ◌>>=◌, >>=-ok, ok-injective, if◌then◌else◌}

module _ {ℓ κ} {A : Type ℓ} (P : A → Type κ) where
  abbrev pub Ensures : Result A → Type (ℓ ⊔ κ)
  Ensures r = (a : A) → r ≡ ok a → P a

  pub ok-Ensures : (a : A) → P a → Ensures (ok a)
  ok-Ensures a p b e = subst P (ok-injective e) p

  pub err-Ensures : (f : Fault) → Ensures (err f)
  err-Ensures f b e = cc

  pub if-Ensures :
      (b : Bool) (r s : Result A) → Ensures r → Ensures s → Ensures (if b then r else s)
  if-Ensures true r s hr hs = hr
  if-Ensures false r s hr hs = hs

  pub bind-Ensures {μ} :
      {X : Type μ} (r : Result X) (next : X → Result A)
      → ((x : X) → r ≡ ok x → Ensures (next x))
      → Ensures (r >>= next)
  bind-Ensures r next h a e = let (x, e1, e2) = >>=-ok r next e in h x e1 a e2
