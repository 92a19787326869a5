-- ===== src/Game/Detector/Machine.antt =====
-- The states of a flag detector: what each of them says of the item that was last seen.
use server_game.Base.{
  ℕ, ◌≡◌, refl, subst, sym, Bool, true, false, Option, none, some, List, [], ◌∷◌, get_elem?, inl,
  inr, Option-cases, Result, ok, err, ◌>>=◌, or_fault, if◌then◌else◌, dangling,
}
use server_game.Base.Int.{ℤ, int_key}
use server_game.Base.Key.{◌==◌}
use server_game.Game.Types.{
  FlagDetector, Game, States, outside, frontier, unknown_from_frontier, inside,
  transition_from_inside,
}
use server_game.Game.Item.{get_item_by_colour}
use server_game.Game.Contact.{robot_is_in_contact_with}
use server_game.Game.Detector.{
  enter, leave, from_frontier, from_unknown, from_transition, react, set_colour,
  frontier_colour_code,
}

-- Off the flags no item is remembered, on one and beside one there is.
abbrev pub HasItem : States → Option ℕ → Type 0
HasItem outside o = o ≡ none
HasItem frontier o = o ≡ none
HasItem unknown_from_frontier o = o ≡ none
HasItem inside o = (item : ℕ) × (o ≡ some item)
HasItem transition_from_inside o = (item : ℕ) × (o ≡ some item)

abbrev pub IsCoherent : FlagDetector → Type 0
IsCoherent d = HasItem d.state d.last_item

-- What holds of the result, if there is one.
abbrev pub Returns {ℓ} : {A : Type ℓ} → Result A → (A → Type 0) → Type 0
Returns (ok a) P = P a
Returns (err e) P = Unit

Returns-bind {ℓ κ} :
    {A : Type ℓ} {B : Type κ} (m : Result A) (f : A → Result B) (P : B → Type 0)
    → ((a : A) → m ≡ ok a → Returns (f a) P)
    → Returns (m >>= f) P
Returns-bind (ok a) f P h = h a refl
Returns-bind (err e) f P h = tt

abbrev Coherent : FlagDetector × Game × Bool → Type 0
Coherent r = IsCoherent r.0

enter-IsCoherent :
    (code : ℤ) (item : ℕ) (d : FlagDetector) (g : Game) → Returns (enter code item d g) Coherent
unfolding enter
enter-IsCoherent code item d g =
    Returns-bind (or_fault dangling (get_elem? g.all_robots d.robot)) _ Coherent λ robot _.
      Returns-bind (robot_is_in_contact_with robot.robot_id item g) _ Coherent λ g' _. (item, refl)

if-Returns {ℓ} :
    {A : Type ℓ} (b : Bool) (m n : Result A) (P : A → Type 0)
    → Returns m P
    → Returns n P
    → Returns (if b then m else n) P
if-Returns true m n P h k = h
if-Returns false m n P h k = k

leave-IsCoherent : (d : FlagDetector) (g : Game) → Returns (leave d g) Coherent
unfolding leave
leave-IsCoherent d g = elim (Option-cases d.last_item) [
  | inl e ↦ rw (e, leave) refl
  | inr (item, e) ↦
      rw (e, leave)
        (Returns-bind (or_fault dangling (get_elem? g.all_robots d.robot)) _ Coherent
          λ robot _. refl)
]

-- A detector that stays as it is.
stays : (d : FlagDetector) {s : States} → d.state ≡ s → HasItem s d.last_item → IsCoherent d
stays d e h = subst (λ s. HasItem s d.last_item) (sym e) h

react-IsCoherent :
    (s : States) (code : ℤ) (d : FlagDetector) (g : Game)
    → d.state ≡ s
    → HasItem s d.last_item
    → Returns (react s code d g) Coherent
unfolding react
react-IsCoherent outside code d g e h =
    if-Returns (frontier_colour_code == code) _ _ Coherent h (stays d e h)
react-IsCoherent frontier code d g e h = elim (Option-cases (get_item_by_colour code g.items)) [
  | inl unknown ↦ rw (unknown, from_frontier) h
  | inr (item, known) ↦ rw (known, from_frontier) (enter-IsCoherent code item d g)
]
react-IsCoherent unknown_from_frontier code d g e h =
    elim (Option-cases (get_item_by_colour code g.items)) [
      | inl unknown ↦ rw (unknown, from_unknown) (stays d e h)
      | inr (item, known) ↦
          rw (known, from_unknown) (rw (h, from_unknown) (enter-IsCoherent code item d g))
    ]
react-IsCoherent inside code d g e h =
    if-Returns (frontier_colour_code == code) _ _ Coherent (leave-IsCoherent d g)
      (if-Returns (code == d.colour_code) _ _ Coherent (stays d e h) h)
react-IsCoherent transition_from_inside code d g e h =
    if-Returns (code == d.colour_code) _ _ Coherent
      (elim (Option-cases d.last_item) [
        | inl none_left ↦ rw (none_left, from_transition) (stays d e h)
        | inr (item, there) ↦ rw there (item, there)
      ])
      (if-Returns (frontier_colour_code == code) _ _ Coherent (leave-IsCoherent d g) (stays d e h))

pub set_colour-IsCoherent :
    (code : ℤ) (d : FlagDetector) (g : Game)
    → IsCoherent d
    → Returns (set_colour code d g) (λ r. IsCoherent r.0)
unfolding set_colour
set_colour-IsCoherent code d g h =
    Returns-bind (react d.state code d g) _ (λ r. IsCoherent r.0)
      λ r e. subst (λ m. Returns m Coherent) e (react-IsCoherent d.state code d g refl h)

-- The colours that a robot reports, one after the other.
pub watch : List ℤ → FlagDetector → Game → Result (FlagDetector × Game)
watch [] d g = ok (d, g)
watch (code ∷ codes) d g = do r ← set_colour code d g; watch codes r.0 r.1

-- Whatever colours a robot reports, unless a report faults, a detector that remembers an item just
-- while it is inside or beside a flag does so afterwards.
pub watch-IsCoherent :
    (codes : List ℤ) (d : FlagDetector) (g : Game)
    → IsCoherent d
    → Returns (watch codes d g) (λ r. IsCoherent r.0)
unfolding watch
watch-IsCoherent [] d g h = h
watch-IsCoherent (code ∷ codes) d g h =
    Returns-bind (set_colour code d g) _ (λ r. IsCoherent r.0)
      λ r e.
        watch-IsCoherent codes r.0 r.1
          (subst (λ m. Returns m (λ q. IsCoherent q.0)) e (set_colour-IsCoherent code d g h))
