-- ===== src/Base/StdMap/Same.antt =====
-- Two maps of one size, of which the one finds each entry of the other, are equal.
use Prim.Native.Nat.{◌≤◌, Ordering}
use mathlib.Core.Path.{◌≡◌, refl, subst}
use mathlib.Core.Logic.{◌↔◌, ◌⊎◌, inl, inr}
use mathlib.Core.Bool.{Bool, true}
use mathlib.Core.Option.{Option, none, some}
use mathlib.Core.List.{[], ◌∷◌}
use native.Mathlib.Omega.{arith}
use server_game.Base.Tests.{Option-cases}
use server_game.Base.Lists.{length, All}
use server_game.Base.Key.{Key, nat_key}
use server_game.Base.StdMap.{Map, find}
use server_game.Base.StdMap.Order.{Above, IsSorted, find-Above, find_behind}

-- A test that decides equality.
abbrev pub Decides {ℓ} : {A : Type ℓ} → (A → A → Bool) → Type ℓ
Decides {A} eq = (a b : A) → (eq a b ≡ true) ↔ (a ≡ b)

missing {ℓ} : {V : Type ℓ} {o : Option V} {v : V} → o ≡ none → o ≡ some v → ⊥
missing g h = cc

module _ {ℓ κ} {K : Type ℓ} {V : Type κ} ⦃k : Key K⦄ where
  -- Each entry of the first map is one of the second.
  abbrev pub Included : Map K V → Map K V → Type κ
  Included m n = All (λ (e : K × V). find e.0 n ≡ some e.1) m

  find-missing : (a : K) (n : Map K V) → Above a n → find a n ≡ none
  find-missing a n u = elim (Option-cases (find a n)) [
    | inl e ↦ e
    | inr (v, e) ↦ absurd (ground (arith, find-Above a a v n u e, k.cmp_iff a a))
  ]

  skip : (b : K) (w : V) (m n : Map K V) → Above b m → Included m ((b, w) ∷ n) → Included m n
  unfolding find
  skip b w [] n u i = tt
  skip b w ((a, v) ∷ m) n u i = (ground (arith, u.0, i.0, k.cmp_flip b a), skip b w m n u.1 i.1)

  here :
      (a b : K) (v w : V) (n : Map K V)
      → k.cmp a b ≡ Ordering.eq
      → find a ((b, w) ∷ n) ≡ some v
      → v ≡ w
  unfolding find
  here a b v w n e h = ground (arith, e, h)

  here_self : (a : K) (v : V) (n : Map K V) → find a ((a, v) ∷ n) ≡ some v
  unfolding find
  here_self a v n = ground (arith, k.cmp_iff a a)

  Above-weaken : (a b : K) (m : Map K V) → k.cmp b a ≡ Ordering.lt → Above a m → Above b m
  Above-weaken a b [] h u = tt
  Above-weaken a b ((c, w) ∷ m) h u = (k.cmp_trans b a c h u.0, Above-weaken a b m h u.1)

  -- The head of the first map is no smaller than that of the second.
  heads :
      (a b : K) (v w : V) (m n : Map K V)
      → IsSorted ((b, w) ∷ n)
      → Included ((a, v) ∷ m) ((b, w) ∷ n)
      → ((a ≡ b) × (v ≡ w)) ⊎ (k.cmp b a ≡ Ordering.lt)
  heads a b v w m n s i = order (k.cmp a b) refl
    where
      order : (o : Ordering) → k.cmp a b ≡ o → ((a ≡ b) × (v ≡ w)) ⊎ (k.cmp b a ≡ Ordering.lt)
      order Ordering.lt e =
          absurd (missing (find-missing a ((b, w) ∷ n) (e, Above-weaken b a n e s.0)) i.0)
      order Ordering.eq e = inl ((k.cmp_iff a b).0 e, here a b v w n e i.0)
      order Ordering.gt e = inr ((k.cmp_flip b a).1 e)

  Included-tail :
      (a b : K) (v w : V) (m n : Map K V)
      → a ≡ b
      → IsSorted ((a, v) ∷ m)
      → Included m ((b, w) ∷ n)
      → Included m n
  Included-tail a b v w m n e s i = skip b w m n (subst (λ c. Above c m) e s.0) i

  pub Included-length :
      (m n : Map K V) → IsSorted m → IsSorted n → Included m n → length m ≤ length n
  unfolding find
  Included-length [] n s t i = omega arith
  Included-length ((a, v) ∷ m) [] s t i = cc (i.0)
  Included-length ((a, v) ∷ m) ((b, w) ∷ n) s t i = elim (heads a b v w m n t i) [
    | inl (e, _) ↦ omega (arith, Included-length m n s.1 t.1 (Included-tail a b v w m n e s i.1))
    | inr over ↦
        let rest =
          Included-length ((a, v) ∷ m) n s t.1
            (skip b w ((a, v) ∷ m) n (over, Above-weaken a b m over s.0) i) in
        omega (arith, rest)
  ]

  pub Included-eq :
      (m n : Map K V) → IsSorted m → IsSorted n → length m ≡ length n → Included m n → m ≡ n
  Included-eq [] [] s t l i = refl
  Included-eq [] ((b, w) ∷ n) s t l i = absurd (omega (arith, l))
  Included-eq ((a, v) ∷ m) [] s t l i = absurd (omega (arith, l))
  Included-eq ((a, v) ∷ m) ((b, w) ∷ n) s t l i = elim (heads a b v w m n t i) [
    | inl (e, f) ↦
        let rest = Included-eq m n s.1 t.1 (omega (arith, l)) (Included-tail a b v w m n e s i.1) in
        cc
    | inr over ↦
        let rest =
          Included-length ((a, v) ∷ m) n s t.1
            (skip b w ((a, v) ∷ m) n (over, Above-weaken a b m over s.0) i) in
        absurd (omega (arith, rest, l))
  ]

  Included-cons :
      (b : K) (w : V) (m n : Map K V)
      → IsSorted ((b, w) ∷ n)
      → Included m n
      → Included m ((b, w) ∷ n)
  Included-cons b w [] n s i = tt
  Included-cons b w ((a, v) ∷ m) n s i = (find_behind b a w v n s i.0, Included-cons b w m n s i.1)

  pub Included-refl : (m : Map K V) → IsSorted m → Included m m
  Included-refl [] s = tt
  Included-refl ((a, v) ∷ m) s = (here_self a v m, Included-cons a v m m s (Included-refl m s.1))
