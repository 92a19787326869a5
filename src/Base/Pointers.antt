-- ===== src/Base/Pointers.antt =====
-- Maps from names to the places of objects: each entry leads to an object of its name.
use server_game.Base.Tests.{Option-cases, Bool-cases}
use server_game.Base.Lists.{
  length, get_elem?, modify, get_elem?-modify_self, get_elem?-modify_ne, get_elem?-append_new,
  get_elem?-append_left,
}
use server_game.Base.Key.{◌==◌, nat_key}
use server_game.Base.Text.{Text, text_key, text_iff}
use server_game.Base.StdMap.{Map, find, put, insert, erase, find-put, find-erase}
use Prim.Native.Nat.{ℕ}
use mathlib.Core.Path.{◌≡◌, ◌∙◌, subst, sym}
use mathlib.Core.Logic.{inl, inr}
use mathlib.Core.Option.{some}
use mathlib.Core.List.{List, [], ◌∷◌, ◌++◌}
use native.Mathlib.Decide.{ℕ_discrete}
use native.Mathlib.Omega.{arith}

module _ {ℓ} {A : Type ℓ} (name : A → Text) where
  -- The place holds an object of that name.
  abbrev pub Holds : List A → Text → ℕ → Type ℓ
  Holds all n a = (x : A) × (get_elem? all a ≡ some x) × (name x ≡ n)

  abbrev pub Named : Map Text ℕ → List A → Type ℓ
  Named m all = (n : Text) (a : ℕ) → find n m ≡ some a → Holds all n a

  pub Holds-append : (all ys : List A) (n : Text) (a : ℕ) → Holds all n a → Holds (all ++ ys) n a
  Holds-append all ys n a (x, e, h) = (x, get_elem?-append_left all ys a x e, h)

  pub Holds-modify :
      (all : List A) (n : Text) (a i : ℕ) (f : A → A)
      → ((x : A) → get_elem? all i ≡ some x → name (f x) ≡ name x)
      → Holds all n a
      → Holds (modify all i f) n a
  Holds-modify all n a i f same (x, e, h) = elim (ℕ_discrete i a) [
    | yes here ↦ (
      f x,
      subst (λ j. get_elem? (modify all i f) j ≡ some (f x)) here (at_place here),
      same x (seen here) ∙ h,
    )
    | no there ↦ (x, get_elem?-modify_ne all i a f there ∙ e, h)
  ]
    where
      seen : i ≡ a → get_elem? all i ≡ some x
      seen here = subst (λ j. get_elem? all j ≡ some x) (sym here) e

      at_place : i ≡ a → get_elem? (modify all i f) i ≡ some (f x)
      at_place here = get_elem?-modify_self all i f x (seen here)

  pub Named-append : (m : Map Text ℕ) (all ys : List A) → Named m all → Named m (all ++ ys)
  Named-append m all ys h n a e = Holds-append all ys n a (h n a e)

  pub Named-modify :
      (m : Map Text ℕ) (all : List A) (i : ℕ) (f : A → A)
      → ((x : A) → get_elem? all i ≡ some x → name (f x) ≡ name x)
      → Named m all
      → Named m (modify all i f)
  Named-modify m all i f same h n a e = Holds-modify all n a i f same (h n a e)

  pub Named-erase : (m : Map Text ℕ) (all : List A) (k : Text) → Named m all → Named (erase k m) all
  Named-erase m all k h n a e = h n a (ground (arith, find-erase k n m))

  -- A new object at the end, entered under its name.
  pub Named-put :
      (m : Map Text ℕ) (all : List A) (x : A)
      → Named m all
      → Named (put (name x) (length all) m) (all ++ x ∷ [])
  Named-put m all x h n a e = elim (Bool-cases (n == name x)) [
    | inl new ↦ (
      x,
      subst (λ b. get_elem? (all ++ x ∷ []) b ≡ some x)
          (ground (arith, find-put (name x) n (length all) m, new)) (get_elem?-append_new all x),
      ground (arith, text_iff n (name x)),
    )
    | inr old ↦
        Holds-append all (x ∷ []) n a
          (h n a (ground (arith, find-put (name x) n (length all) m, old)))
  ]

  pub Named-insert :
      (m : Map Text ℕ) (all : List A) (x : A)
      → Named m all
      → Named (insert (name x) (length all) m) (all ++ x ∷ [])
  unfolding insert
  Named-insert m all x h n a e = elim (Option-cases (find (name x) m)) [
    | inl new ↦ Named-put m all x h n a (ground (arith, new))
    | inr (b, old) ↦ Holds-append all (x ∷ []) n a (h n a (ground (arith, old)))
  ]
