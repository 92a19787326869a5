-- ===== src/Application/Config/VideoPorts.antt =====
-- The loop over the range of the video ports.
use server_game.Base.{
  ℕ, zero, suc, ◌+◌, ◌-◌, ◌%◌, ◌<◌, ◌≤◌, ◌≡◌, refl, sym, ap, subst, List, [], ◌∷◌, ok, err, endless,
  leb, leb→le, Bool-cases, inl, inr, arith,
}
use server_game.Application.Config.{video_range, video_ports}

-- The ports from `first` on, so many of them, the greatest in front.
unfoldable pub descending : ℕ → ℕ → List ℕ
descending first zero = []
descending first (suc n) = (first + n) ∷ descending first n

range_lem :
    (fuel first k last : ℕ)
    → last < 65535
    → first + k ≤ last + 1
    → last + 1 < fuel + (first + k)
    → video_range fuel (first + k) last (descending first k)
      ≡ ok (descending first (last + 1 - first))
unfolding video_range descending
range_lem zero first k last b h f = absurd (omega arith)
range_lem (suc fuel) first k last b h f = elim (Bool-cases (leb (first + k) last)) [
  | inl more ↦
      let next : (first + k + 1) % 65536 ≡ first + suc k =
        omega (arith, leb→le (first + k) last more) in
      rw (more, next)
        (range_lem fuel first (suc k) last b (omega (arith, leb→le (first + k) last more))
          (omega arith))
  | inr over ↦
      let all : k ≡ last + 1 - first = ground arith in
      rw over (ap (λ n. ok (descending first n)) all)
]

endless_lem :
    (fuel i : ℕ) (ports : List ℕ) → i < 65536 → video_range fuel i 65535 ports ≡ err endless
unfolding video_range
endless_lem zero i ports h = refl
endless_lem (suc fuel) i ports h = ground (arith, endless_lem fuel ((i + 1) % 65536) (i ∷ ports))

-- A range of video ports that ends below 65535 is read to its end: the vector gets the ports from
-- the last to the first. A range that ends at 65535 is never read to its end, since the index, an
-- uint16_t, starts again at 0.
pub video_ports_lem :
    (first last : ℕ)
    → first ≤ last
    → (last < 65535 → video_ports first last [] ≡ ok (descending first (last + 1 - first)))
      × (last ≡ 65535 → video_ports first last [] ≡ err endless)
unfolding video_ports descending
video_ports_lem first last h = (
  λ below.
      subst (λ i. video_range 65537 i last [] ≡ ok (descending first (last + 1 - first)))
        (omega arith) (range_lem 65537 first 0 last below (omega arith) (omega arith)),
  λ top.
      subst (λ l. video_range 65537 first l [] ≡ err endless) (sym top)
        (endless_lem 65537 first [] (omega arith)),
)
