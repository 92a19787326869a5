-- ===== src/Application/Consistency/Distinct.antt =====
-- What the checks on the ports amount to: no two are equal.
use server_game.Base.{
  ℕ, ◌*◌, ◌≤◌, ◌<◌, ◌≡◌, ◌≢◌, ◌↔◌, ap, Bool, true, false, some, List, [], ◌∷◌, ok, ok-injective,
  length, any, All, arith, ◌⊎◌, inr, refl, ◌&&◌, not,
}
use server_game.Base.Count.{Apart, Distinct}
use server_game.Base.Key.{◌==◌, ==_iff, nat_key}
use server_game.Base.Int.{ℤ, int_key}
use server_game.Base.Text.{Text}
use server_game.Game.Item.{is_empty, no_colour}
use server_game.Application.Options.{Parameters, ItemEntry}
use server_game.Application.Consistency.{
  insert_port, has_neighbours, badly_configured, check_ports, check_parameters_consistency,
}

abbrev Ascending : List ℕ → Type 0
Ascending [] = Unit
Ascending (p ∷ []) = Unit
Ascending (p ∷ q ∷ qs) = (p ≤ q) × Ascending (q ∷ qs)

insert-Ascending : (p : ℕ) (qs : List ℕ) → Ascending qs → Ascending (insert_port p qs)
unfolding insert_port
insert-Ascending p [] h = tt
insert-Ascending p (q ∷ []) h = ground arith
insert-Ascending p (q ∷ r ∷ rs) (h, hs) = ground (arith, insert-Ascending p (r ∷ rs) hs)

insert-Apart : (r p : ℕ) (qs : List ℕ) → Apart r (insert_port p qs) ↔ ((r ≢ p) × Apart r qs)
unfolding insert_port
insert-Apart r p [] = ground arith
insert-Apart r p (q ∷ qs) = ground (arith, insert-Apart r p qs)

insert-Distinct : (p : ℕ) (qs : List ℕ) → Distinct (insert_port p qs) ↔ (Apart p qs × Distinct qs)
unfolding insert_port
insert-Distinct p [] = ground arith
insert-Distinct p (q ∷ qs) = ground (arith, insert-Distinct p qs, insert-Apart q p qs)

least : (p q : ℕ) (qs : List ℕ) → p < q → Ascending (q ∷ qs) → Apart p (q ∷ qs)
least p q [] h a = ground arith
least p q (r ∷ rs) h (a, more) = ground (arith, least p r rs)

neighbours-Distinct : (ps : List ℕ) → Ascending ps → (has_neighbours ps ≡ false) ↔ Distinct ps
unfolding has_neighbours
neighbours-Distinct [] a = ground arith
neighbours-Distinct (p ∷ []) a = ground arith
neighbours-Distinct (p ∷ q ∷ qs) (a, more) =
    ground (arith, neighbours-Distinct (q ∷ qs) more, least p q qs)

abbrev pub NotZero : ℕ → Type 0
NotZero q = q ≢ 0

zero-insert :
    (p : ℕ) (qs : List ℕ)
    → (any (λ q. q == 0) (insert_port p qs) ≡ false) ↔ (NotZero p × (any (λ q. q == 0) qs ≡ false))
unfolding insert_port
zero-insert p [] = ground arith
zero-insert p (q ∷ qs) = ground (arith, zero-insert p qs)

-- An item has a colour or RFIDs, not both.
abbrev pub IsWellConfigured : Text × ItemEntry → Type 0
IsWellConfigured e = (e.1.colour ≡ no_colour) ⊎ (e.1.rfids ≡ [])

either_iff :
    (colour : ℤ) (rfids : List Text)
    → ((not (colour == no_colour) && not (is_empty rfids)) ≡ false)
      ↔ ((colour ≡ no_colour) ⊎ (rfids ≡ []))
either_iff colour [] = (λ h. inr refl, λ h. both (not (colour == no_colour)))
  where
    both : (b : Bool) → (b && false) ≡ false
    both true = refl
    both false = refl
either_iff colour (x ∷ xs) = ground (arith, ==_iff colour no_colour)

all_configured_iff :
    (items : List (Text × ItemEntry))
    → (any badly_configured items ≡ false) ↔ All IsWellConfigured items
all_configured_iff [] = ground arith
all_configured_iff (e ∷ es) =
    let (f, g) = either_iff e.1.colour e.1.rfids in
    let (fs, gs) = all_configured_iff es in
    (λ h. (f (ground (arith, h)), fs (ground (arith, h))), λ (h, hs). ground (arith, g h, gs hs))

-- The ports as the multimap has them.
sorted : List ℕ → List ℕ
sorted [] = []
sorted (p ∷ ps) = insert_port p (sorted ps)

sorted-Ascending : (ps : List ℕ) → Ascending (sorted ps)
unfolding sorted
sorted-Ascending [] = tt
sorted-Ascending (p ∷ ps) = insert-Ascending p (sorted ps) (sorted-Ascending ps)

sorted-Apart : (r : ℕ) (ps : List ℕ) → Apart r (sorted ps) ↔ Apart r ps
unfolding sorted
sorted-Apart r [] = ground arith
sorted-Apart r (p ∷ ps) = ground (arith, insert-Apart r p (sorted ps), sorted-Apart r ps)

sorted-Distinct : (ps : List ℕ) → Distinct (sorted ps) ↔ Distinct ps
unfolding sorted
sorted-Distinct [] = ground arith
sorted-Distinct (p ∷ ps) =
    ground (arith, insert-Distinct p (sorted ps), sorted-Apart p ps, sorted-Distinct ps)

sorted-zero : (ps : List ℕ) → (any (λ q. q == 0) (sorted ps) ≡ false) ↔ All NotZero ps
unfolding sorted
sorted-zero [] = ground arith
sorted-zero (p ∷ ps) = ground (arith, zero-insert p (sorted ps), sorted-zero ps)

pub check_ports-true :
    (ports : List ℕ) (p : Parameters)
    → (check_ports ports p ≡ true) ↔ (
        (has_neighbours ports ≡ false)
        × (any (λ q. q == 0) ports ≡ false)
        × (2 * length p.robots ≤ length p.video_ports)
        × (any badly_configured p.items ≡ false))
unfolding check_ports
check_ports-true ports p = ground arith

-- The four conditions on parameters with these ports.
abbrev pub AreConsistent : List ℕ → Parameters → Type 0
AreConsistent ports p =
    Distinct ports
    × All NotZero ports
    × (2 * length p.robots ≤ length p.video_ports)
    × All IsWellConfigured p.items

sorted-AreConsistent :
    (ports : List ℕ) (p : Parameters)
    → (check_ports (sorted ports) p ≡ true) ↔ AreConsistent ports p
sorted-AreConsistent ports p =
    let checks = check_ports-true (sorted ports) p in
    let apart = neighbours-Distinct (sorted ports) (sorted-Ascending ports) in
    let same = sorted-Distinct ports in
    let zero = sorted-zero ports in
    let items = all_configured_iff p.items in
    (
      λ e. let (a, b, c, d) = checks.0 e in (same.0 (apart.0 a), zero.0 b, c, items.0 d),
      λ (a, b, c, d). checks.1 (apart.1 (same.1 a), zero.1 b, c, items.1 d),
    )

-- For parameters with their five ports, CheckParametersConsistency returns true exactly where no
-- two of the ports are equal, none of them is 0, there are two video ports for each robot, and no
-- item has both a colour and RFIDs.
pub check_parameters_consistency_iff :
    (p : Parameters) (publisher puller agent replier broadcast : ℕ)
    → p.options.publisher_port ≡ some publisher
    → p.options.puller_port ≡ some puller
    → p.options.agent_port ≡ some agent
    → p.options.replier_port ≡ some replier
    → p.options.broadcast_port ≡ some broadcast
    → (check_parameters_consistency p ≡ ok true)
      ↔ AreConsistent (broadcast ∷ replier ∷ agent ∷ puller ∷ publisher ∷ []) p
unfolding check_parameters_consistency sorted check_ports
check_parameters_consistency_iff p publisher puller agent replier broadcast e1 e2 e3 e4 e5 =
    let ports : List ℕ = broadcast ∷ replier ∷ agent ∷ puller ∷ publisher ∷ [] in
    let iff = sorted-AreConsistent ports p in
    rw (e1, e2, e3, e4, e5) (λ e. iff.0 (ok-injective e), λ h. ap ok (iff.1 h))
