-- ===== src/Base/StdMap/Order.antt =====
-- The entries of a map stay in strictly increasing order of their keys.
use Prim.Native.Nat.{Ordering}
use mathlib.Core.Path.{◌≡◌}
use mathlib.Core.Option.{some}
use mathlib.Core.List.{[], ◌∷◌}
use native.Mathlib.Omega.{arith}
use server_game.Base.Key.{Key}
use server_game.Base.StdMap.{Map, find, put, insert, erase}

module _ {ℓ κ} {K : Type ℓ} {V : Type κ} ⦃k : Key K⦄ where
  -- Every key of the map comes after `a`.
  abbrev pub Above : K → Map K V → Type ℓ
  Above a [] = Unit
  Above a ((b, v) ∷ m) = (k.cmp a b ≡ Ordering.lt) × Above a m

  abbrev pub IsSorted : Map K V → Type ℓ
  IsSorted [] = Unit
  IsSorted ((a, v) ∷ m) = Above a m × IsSorted m

  Above-trans : (a b : K) (m : Map K V) → k.cmp a b ≡ Ordering.lt → Above b m → Above a m
  Above-trans a b [] h u = tt
  Above-trans a b ((c, v) ∷ m) h u = (k.cmp_trans a b c h u.0, Above-trans a b m h u.1)

  Above-put :
      (a b : K) (v : V) (m : Map K V) → k.cmp b a ≡ Ordering.lt → Above b m → Above b (put a v m)
  unfolding put
  Above-put a b v [] h u = (h, tt)
  Above-put a b v ((c, w) ∷ m) h u = ground (arith, Above-put a b v m)

  Above-erase : (a b : K) (m : Map K V) → Above b m → Above b (erase a m)
  unfolding erase
  Above-erase a b [] u = tt
  Above-erase a b ((c, w) ∷ m) u = ground (arith, Above-erase a b m)

  pub put-IsSorted : (a : K) (v : V) (m : Map K V) → IsSorted m → IsSorted (put a v m)
  unfolding put
  put-IsSorted a v [] s = (tt, tt)
  put-IsSorted a v ((b, w) ∷ m) s = ground (
    arith,
    put-IsSorted a v m,
    k.cmp_iff a b,
    k.cmp_flip b a,
    Above-trans a b m,
    Above-put a b v m,
  )

  pub erase-IsSorted : (a : K) (m : Map K V) → IsSorted m → IsSorted (erase a m)
  unfolding erase
  erase-IsSorted a [] s = tt
  erase-IsSorted a ((b, w) ∷ m) s = ground (arith, erase-IsSorted a m, Above-erase a b m)

  pub insert-IsSorted : (a : K) (v : V) (m : Map K V) → IsSorted m → IsSorted (insert a v m)
  unfolding insert
  insert-IsSorted a v m s = ground (arith, put-IsSorted a v m)

  pub find-Above :
      (a b : K) (v : V) (m : Map K V) → Above a m → find b m ≡ some v → k.cmp a b ≡ Ordering.lt
  unfolding find
  find-Above a b v [] u h = cc
  find-Above a b v ((c, w) ∷ m) u h = ground (arith, k.cmp_iff b c, find-Above a b v m)

  -- Behind the first entry of a sorted map its key is not found.
  pub find_behind :
      (a b : K) (v w : V) (m : Map K V)
      → IsSorted ((a, v) ∷ m)
      → find b m ≡ some w
      → find b ((a, v) ∷ m) ≡ some w
  unfolding find
  find_behind a b v w m s h =
      ground (arith, find-Above a b w m s.0 h, k.cmp_flip a b, k.cmp_iff b a, h)
