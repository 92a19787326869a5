-- ===== src/Base/StdMap.antt =====
-- `std::map`: the entries in increasing order of their keys, with the operations that the program
-- calls. `find` compares every key, so that its laws need no order.
pub mod Order
pub mod Same
use Prim.Native.Nat.{Ordering}
use mathlib.Core.Path.{◌≡◌, refl}
use mathlib.Core.Bool.{Bool, true, false}
use mathlib.Core.Option.{Option, none, some}
use mathlib.Core.List.{List, [], ◌∷◌, map}
use native.Mathlib.Omega.{arith}
use server_game.Base.Key.{Key, ◌==◌}
use server_game.Base.Tests.{if◌then◌else◌}

abbrev pub Map {ℓ κ} : Type ℓ → Type κ → Type (ℓ ⊔ κ)
Map K V = List (K × V)

module _ {ℓ κ} {K : Type ℓ} {V : Type κ} ⦃k : Key K⦄ where
  unfoldable pub find : K → Map K V → Option V
  find a [] = none
  find a ((b, v) ∷ m) = elim (k.cmp a b) [ Ordering.eq ↦ some v | _ ↦ find a m ]

  -- `m[a] = v`: an entry for `a` is overwritten.
  unfoldable pub put : K → V → Map K V → Map K V
  put a v [] = (a, v) ∷ []
  put a v ((b, w) ∷ m) = elim (k.cmp a b) [
    | Ordering.lt ↦ (a, v) ∷ (b, w) ∷ m
    | Ordering.eq ↦ (a, v) ∷ m
    | Ordering.gt ↦ (b, w) ∷ put a v m
  ]

  -- `m.insert(a, v)`: an entry for `a` is left as it is.
  unfoldable pub insert : K → V → Map K V → Map K V
  insert a v m = elim (find a m) [ none ↦ put a v m | some w ↦ m ]

  -- `m.erase(a)`
  unfoldable pub erase : K → Map K V → Map K V
  erase a [] = []
  erase a ((b, v) ∷ m) = elim (k.cmp a b) [ Ordering.eq ↦ erase a m | _ ↦ (b, v) ∷ erase a m ]

  pub find-put :
      (a c : K) (v : V) (m : Map K V) → find c (put a v m) ≡ (if c == a then some v else find c m)
  unfolding find put
  find-put a c v [] = ground arith
  find-put a c v ((b, w) ∷ m) =
      ground (arith, k.cmp_iff a b, k.cmp_iff c a, k.cmp_iff c b, find-put a c v m)

  pub find-erase :
      (a c : K) (m : Map K V) → find c (erase a m) ≡ (if c == a then none else find c m)
  unfolding find erase
  find-erase a c [] = ground arith
  find-erase a c ((b, w) ∷ m) =
      ground (arith, k.cmp_iff a b, k.cmp_iff c a, k.cmp_iff c b, find-erase a c m)

  pub find-insert :
      (a c : K) (v : V) (m : Map K V)
      → find c (insert a v m)
        ≡ elim (find a m) [ none ↦ if c == a then some v else find c m | some w ↦ find c m ]
  unfolding insert
  find-insert a c v m = ground (arith, find-put a c v m)

  pub find-put_self : (a : K) (v : V) (m : Map K V) → find a (put a v m) ≡ some v
  find-put_self a v m = ground (arith, find-put a a v m, k.cmp_iff a a)

  pub find-erase_self : (a : K) (m : Map K V) → find a (erase a m) ≡ none
  find-erase_self a m = ground (arith, find-erase a a m, k.cmp_iff a a)

pub ruleset map_laws = (find-put, find-erase, find-insert)
