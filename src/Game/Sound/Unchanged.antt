-- ===== src/Game/Sound/Unchanged.antt =====
-- The operations that add and remove nothing: the contacts, the course of the game, the steps.
use server_game.Base.{
  ℕ, ◌≡◌, refl, ◌∙◌, subst, Bool, true, false, Option, none, some, [], ◌∷◌, ◌++◌, arith, get_elem?,
  modify, inl, inr, Bool-cases, Option-cases, Result-cases, >>=-ok, ok-injective, ok, or_fault,
  if◌then◌else◌,
}
use server_game.Base.Int.{ltb_ℤ}
use server_game.Base.{dangling}
use server_game.Base.Text.{Text, text_key}
use server_game.Base.StdMap.{Map, find, put, erase}
use server_game.Base.Pointers.{Named, Named-modify}
use server_game.Game.Types.{
  Game, Item, Team, Contact, Time, Duration, StepSignal, staying_alive, silence_i_kill_u,
}
use server_game.Game.Team.{deref}
use server_game.Game.Item.{capture}
use server_game.Game.Contact
use server_game.Game.Contact.{
  change_item, destroy, settle, capture_item, step_all, handle_contacts, robot_is_in_contact_with,
  robot_drops_contact_with,
}
use server_game.Game.Sound.{IsSound, team_name}

-- Nothing is added, removed or renamed.
pub record SameNames (f g : Game) : Type 0 where
  pub robots : g.robots ≡ f.robots
  pub ids : g.robots_by_id ≡ f.robots_by_id
  pub players : g.players ≡ f.players
  pub teams : g.teams ≡ f.teams
  pub all_robots : g.all_robots ≡ f.all_robots
  pub all_players : g.all_players ≡ f.all_players
  pub registered : g.registered_robots ≡ f.registered_robots
  pub team_names : (m : Map Text ℕ) → Named team_name m f.all_teams → Named team_name m g.all_teams

pub IsSound-same : (f g : Game) → SameNames f g → IsSound f → IsSound g
IsSound-same f g s v = record {
  robots_sorted = rw s.robots v.robots_sorted;
  ids_sorted = rw s.ids v.ids_sorted;
  players_sorted = rw s.players v.players_sorted;
  teams_sorted = rw s.teams v.teams_sorted;
  robots_named = rw (s.robots, s.all_robots) v.robots_named;
  ids_named = rw (s.ids, s.all_robots) v.ids_named;
  players_named = rw (s.players, s.all_players) v.players_named;
  teams_named = rw s.teams (s.team_names f.teams v.teams_named);
}

-- The teams are as they were.
pub same_teams :
    (f g : Game)
    → g.robots ≡ f.robots
    → g.robots_by_id ≡ f.robots_by_id
    → g.players ≡ f.players
    → g.teams ≡ f.teams
    → g.all_robots ≡ f.all_robots
    → g.all_players ≡ f.all_players
    → g.all_teams ≡ f.all_teams
    → g.registered_robots ≡ f.registered_robots
    → SameNames f g
same_teams f g a b c d e p q r = record {
  robots = a;
  ids = b;
  players = c;
  teams = d;
  all_robots = e;
  all_players = p;
  registered = r;
  team_names = λ m h. rw q h;
}

pub SameNames-refl : (f : Game) → SameNames f f
SameNames-refl f = same_teams f f refl refl refl refl refl refl refl refl

pub SameNames-trans : (f g h : Game) → SameNames f g → SameNames g h → SameNames f h
SameNames-trans f g h p q = record {
  robots = q.robots ∙ p.robots;
  ids = q.ids ∙ p.ids;
  players = q.players ∙ p.players;
  teams = q.teams ∙ p.teams;
  all_robots = q.all_robots ∙ p.all_robots;
  all_players = q.all_players ∙ p.all_players;
  registered = q.registered ∙ p.registered;
  team_names = λ m n. q.team_names m (p.team_names m n);
}

pub if-SameNames :
    (b : Bool) (f g h : Game) → SameNames f g → SameNames f h → SameNames f (if b then g else h)
if-SameNames true f g h p q = p
if-SameNames false f g h p q = q

destroy-SameNames : (c : Contact) (f : Game) → SameNames f (destroy c f)
unfolding destroy
destroy-SameNames c f =
    if-SameNames c.finished f f _ (SameNames-refl f)
      (same_teams f _ refl refl refl refl refl refl refl refl)

captured_name : (i : Item) (t : Team) → team_name (capture i t).1 ≡ team_name t
unfolding capture
captured_name i t = ground arith

-- The two lookups of a capture that returns.
capture_item-ok :
    (team item : ℕ) (f g : Game)
    → capture_item team item f ≡ ok g
    → (t : Team) × (i : Item) × (get_elem? f.all_teams team ≡ some t)
      × (g
          ≡ change_item item
              (λ _. (capture i t).0)
              (record f { all_teams = modify f.all_teams team (λ _. (capture i t).1) }))
unfolding capture_item deref
capture_item-ok team item f g e = elim (Option-cases (get_elem? f.all_teams team)) [
  | inl gone ↦ absurd (ground (arith, gone))
  | inr (t, there) ↦ elim (Option-cases (get_elem? f.items.all_items item)) [
    | inl gone ↦ absurd (ground (arith, there, gone))
    | inr (i, item_there) ↦ (t, i, there, ground (arith, there, item_there))
  ]
]

capture_item-SameNames :
    (team item : ℕ) (f g : Game) → capture_item team item f ≡ ok g → SameNames f g
capture_item-SameNames team item f g e =
    let (t, i, there, same) = capture_item-ok team item f g e in
    rw same (record {
      robots = refl;
      ids = refl;
      players = refl;
      teams = refl;
      all_robots = refl;
      all_players = refl;
      registered = refl;
      team_names = λ m h.
          Named-modify team_name m f.all_teams team (λ _. (capture i t).1)
            (λ x here. captured_name i t ∙ ground (arith, here, there)) h;
    })

step-SameNames :
    (c : Contact) (now : Time) (f : Game) (r : StepSignal × Contact × Game)
    → Contact.step c now f ≡ ok r
    → SameNames f r.2
unfolding Contact.step
step-SameNames c now f (s, c', g) e = elim (Bool-cases c.finished) [
  | inl done ↦ absurd (ground (arith, done))
  | inr open_still ↦ elim (Bool-cases (ltb_ℤ c.stop_time now)) [
    | inr on ↦ rw (going_on open_still on) (SameNames-refl f)
    | inl over ↦ elim (Option-cases (get_elem? f.all_robots c.robot)) [
      | inl gone ↦ absurd (ground (arith, open_still, over, gone))
      | inr (r, there) ↦ elim (Result-cases (capture_item r.team c.item f)) [
        | inr (x, fails) ↦ absurd (ground (arith, open_still, over, there, fails))
        | inl (g', works) ↦
            capture_item-SameNames r.team c.item f g
              (works ∙ ground (arith, open_still, over, there, works))
      ]
    ]
  ]
]
  where
    going_on : c.finished ≡ false → ltb_ℤ c.stop_time now ≡ false → g ≡ f
    going_on open_still on = ground (arith, open_still, on)

settle-SameNames :
    (id : Text) (f : Game) (r : StepSignal × Contact × Game)
    → SameNames f r.2
    → SameNames f (settle id r).1
settle-SameNames id f (staying_alive, c, g) s = s
settle-SameNames id f (silence_i_kill_u, c, g) s = SameNames-trans f g _ s (destroy-SameNames c g)

step_all-SameNames :
    (cs : Map Text Contact) (now : Time) (f : Game) (r : Map Text Contact × Game)
    → step_all cs now f ≡ ok r
    → SameNames f r.1
unfolding step_all
step_all-SameNames [] now f r e = rw (last e) (SameNames-refl f)
  where
    last : ok ([], f) ≡ ok r → r.1 ≡ f
    last h = ground (arith, h)
step_all-SameNames ((id, c) ∷ cs) now f r e =
    let (s, stepped, e') = >>=-ok (Contact.step c now f) _ e in
    let (rest, done, e'') = >>=-ok (step_all cs now (settle id s).1) _ e' in
    let mid = (settle id s).1 in
    SameNames-trans f mid r.1 (settle-SameNames id f s (step-SameNames c now f s stepped)) (
      subst (SameNames mid) (last (settle id s).0 rest e'')
        (step_all-SameNames cs now mid rest done))
  where
    last :
        (here : Map Text Contact) (rest : Map Text Contact × Game)
        → ok (here ++ rest.0, rest.1) ≡ ok r
        → rest.1 ≡ r.1
    last here rest h = ground (arith, h)

pub handle_contacts-SameNames : (f g : Game) → handle_contacts f ≡ ok g → SameNames f g
unfolding handle_contacts
handle_contacts-SameNames f g e =
    let (r, done, e') = >>=-ok (step_all f.contacts f.time f) _ e in
    SameNames-trans f r.1 g (step_all-SameNames f.contacts f.time f r done) (
      same_teams r.1 g (ground (arith, e')) (ground (arith, e')) (ground (arith, e'))
        (ground (arith, e')) (ground (arith, e')) (ground (arith, e')) (ground (arith, e'))
        (ground (arith, e')))

make-SameNames :
    (start : Time) (timer : Duration) (robot item : ℕ) (f : Game) (made : Contact × Game)
    → Contact.make start timer robot item f ≡ ok made
    → SameNames f made.1
unfolding Contact.make
make-SameNames start timer robot item f made e =
    let (r, there, e') = >>=-ok (or_fault dangling (get_elem? f.all_robots robot)) _ e in
    let (t, team, e'') = >>=-ok (deref r.team f) _ e' in
    subst (λ (m : Contact × Game). SameNames f m.1) (ok-injective e'')
      (same_teams f _ refl refl refl refl refl refl refl refl)

-- The end of the contact that is replaced, if there is one.
replace-SameNames :
    (o : Option Contact) (f h : Game)
    → SameNames f h
    → SameNames f (elim o [ none ↦ h | some old ↦ destroy old h ])
replace-SameNames none f h s = s
replace-SameNames (some old) f h s = SameNames-trans f h _ s (destroy-SameNames old h)

pub touch-SameNames :
    (id : Text) (item : ℕ) (f g : Game) → robot_is_in_contact_with id item f ≡ ok g → SameNames f g
unfolding robot_is_in_contact_with
touch-SameNames id item f g e =
    let (robot, found, e') = >>=-ok (or_fault dangling (find id f.robots_by_id)) _ e in
    let (made, done, e'') =
      >>=-ok (Contact.make f.time f.rules.time_to_capture robot item f) _ e' in
    let h : Game = record made.1 { contacts = put id made.0 f.contacts } in
    subst (SameNames f) (ok-injective e'') (
      replace-SameNames (find id f.contacts) f h (
        SameNames-trans f made.1 h
          (make-SameNames f.time f.rules.time_to_capture robot item f made done)
          (same_teams made.1 h refl refl refl refl refl refl refl refl)))

-- The end of a contact that is dropped, if there is one.
pub drop-SameNames :
    (id : Text) (item : ℕ) (f : Game) → SameNames f (robot_drops_contact_with id item f)
unfolding robot_drops_contact_with
drop-SameNames id item f = dropped (find id f.contacts)
  where
    g : Game
    g = record f { contacts = erase id f.contacts }

    dropped : (o : Option Contact) → SameNames f (elim o [ none ↦ f | some old ↦ destroy old g ])
    dropped none = SameNames-refl f
    dropped (some old) =
        SameNames-trans f g _ (same_teams f g refl refl refl refl refl refl refl refl)
          (destroy-SameNames old g)
