-- ===== src/Base/Key.antt =====
-- What `std::map` asks of its keys: a three-way comparison that is a strict total order.
use Prim.Native.Nat.{ℕ, compare, Ordering}
use mathlib.Core.Path.{◌≡◌, refl}
use mathlib.Core.Logic.{◌↔◌}
use mathlib.Core.Bool.{Bool, true, false}
use native.Mathlib.Omega.{arith}

pub record Key {ℓ} (K : Type ℓ) : Type ℓ where
  pub cmp : K → K → Ordering
  pub cmp_iff : (a b : K) → (cmp a b ≡ Ordering.eq) ↔ (a ≡ b)
  pub cmp_flip : (a b : K) → (cmp a b ≡ Ordering.lt) ↔ (cmp b a ≡ Ordering.gt)
  pub cmp_trans :
      (a b c : K) → cmp a b ≡ Ordering.lt → cmp b c ≡ Ordering.lt → cmp a c ≡ Ordering.lt

pub nat_iff : (a b : ℕ) → (compare a b ≡ Ordering.eq) ↔ (a ≡ b)
nat_iff a b = ground arith

pub nat_flip : (a b : ℕ) → (compare a b ≡ Ordering.lt) ↔ (compare b a ≡ Ordering.gt)
nat_flip a b = ground arith

pub nat_trans :
    (a b c : ℕ) → compare a b ≡ Ordering.lt → compare b c ≡ Ordering.lt → compare a c ≡ Ordering.lt
nat_trans a b c h k = ground arith

instance abbrev pub nat_key : Key ℕ
nat_key = record { cmp = compare; cmp_iff = nat_iff; cmp_flip = nat_flip; cmp_trans = nat_trans }

-- C++'s `==` on keys.
infix 50 ◌==◌
abbrev pub ◌==◌ {ℓ} : {K : Type ℓ} ⦃k : Key K⦄ → K → K → Bool
◌==◌ ⦃k⦄ a b = elim (k.cmp a b) [ Ordering.eq ↦ true | _ ↦ false ]

module _ {ℓ} {K : Type ℓ} ⦃k : Key K⦄ where
  pub ==_iff : (a b : K) → ((a == b) ≡ true) ↔ (a ≡ b)
  ==_iff a b = ground (arith, k.cmp_iff a b)

  pub ==_refl : (a : K) → (a == a) ≡ true
  ==_refl a = (==_iff a a).1 refl
