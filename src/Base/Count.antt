-- ===== src/Base/Count.antt =====
-- How often a number stands in a list, and lists in which none stands twice.
use Prim.Native.Nat.{ℕ, ◌+◌, ◌≤◌, ◌<◌}
use mathlib.Core.Path.{◌≡◌}
use mathlib.Core.Logic.{◌≢◌}
use mathlib.Core.List.{List, [], ◌∷◌, ◌++◌}
use native.Mathlib.Omega.{arith}
use server_game.Base.Tests.{if◌then◌else◌}
use server_game.Base.Lists.{All}
use server_game.Base.Key.{◌==◌, nat_key}

-- How often the number `q` is this one.
abbrev pub hit : ℕ → ℕ → ℕ
hit q p = if p == q then 1 else 0

abbrev pub count : ℕ → List ℕ → ℕ
count q [] = 0
count q (p ∷ ps) = hit q p + count q ps

pub count-append : (q : ℕ) (ps rest : List ℕ) → count q (ps ++ rest) ≡ count q ps + count q rest
count-append q [] rest = omega arith
count-append q (p ∷ ps) rest = omega (arith, count-append q ps rest)

-- The number differs from all of them.
abbrev pub Apart : ℕ → List ℕ → Type 0
Apart p qs = All (λ q. p ≢ q) qs

abbrev pub Distinct : List ℕ → Type 0
Distinct [] = Unit
Distinct (p ∷ ps) = Apart p ps × Distinct ps

Apart-of_count : (p : ℕ) (qs : List ℕ) → count p qs ≤ 0 → Apart p qs
Apart-of_count p [] h = tt
Apart-of_count p (q ∷ qs) h = ground (arith, Apart-of_count p qs)

count-Apart : (p : ℕ) (qs : List ℕ) → Apart p qs → count p qs ≤ 0
count-Apart p [] h = omega arith
count-Apart p (q ∷ qs) h = ground (arith, count-Apart p qs)

pub Distinct-of_count : (ps : List ℕ) → ((q : ℕ) → count q ps ≤ 1) → Distinct ps
Distinct-of_count [] h = tt
Distinct-of_count (p ∷ ps) h =
    (Apart-of_count p ps (ground (arith, h p)), Distinct-of_count ps (λ q. omega (arith, h q)))

pub count-le-one : (ps : List ℕ) → Distinct ps → (q : ℕ) → count q ps ≤ 1
count-le-one [] h q = omega arith
count-le-one (p ∷ ps) h q = ground (arith, count-le-one ps h.1 q, count-Apart p ps h.0)

pub All-of_count :
    (ps qs : List ℕ) → ((q : ℕ) → count q ps ≤ count q qs) → All (λ q. 0 < count q qs) ps
All-of_count ps qs h = parts ps h
  where
    parts : (rs : List ℕ) → ((q : ℕ) → count q rs ≤ count q qs) → All (λ q. 0 < count q qs) rs
    parts [] k = tt
    parts (r ∷ rs) k = (ground (arith, k r), parts rs (λ q. omega (arith, k q)))
