-- ===== src/Game/Contact/Steps.antt =====
-- Game::handleContacts: it never throws on a game whose contacts are sound, and it keeps just the
-- contacts whose time is not over.
use server_game.Base.{
  ℕ, ◌<◌, ◌≡◌, refl, ◌∙◌, ap, Bool, true, false, some, arith, length, get_elem?, get_elem?_total,
  length-modify, modify, ok, if◌then◌else◌,
}
use server_game.Base.Int.{ltb_ℤ}
use server_game.Base.{not, [], ◌∷◌, inl, inr, Bool-cases}
use server_game.Base.{keep, All}
use server_game.Base.StdMap.{Map}
use server_game.Base.Text.{Text}
use server_game.Game.Contact.{step_all, destroy, handle_contacts}
use server_game.Game.Types.{Contact, Game, Robot, Team, Item, Time, staying_alive, silence_i_kill_u}
use server_game.Game.Team.{is_live, deref}
use server_game.Game.Item.{capture}
use server_game.Game.Contact.{step, capture_item, change_item}

-- A contact that is still open, of a robot, a team and an item that are all there.
pub record IsReady (game : Game) (contact : Contact) : Type 0 where
  pub open_still : contact.finished ≡ false
  pub who : Robot
  pub robot_there : get_elem? game.all_robots contact.robot ≡ some who
  pub team_live : is_live game.teams who.team ≡ true
  pub team_there : who.team < length game.all_teams
  pub item_there : contact.item < length game.items.all_items

-- What the step of a contact leaves as it is.
pub record SameObjects (before after : Game) : Type 0 where
  pub robots : after.all_robots ≡ before.all_robots
  pub teams : after.teams ≡ before.teams
  pub team_count : length after.all_teams ≡ length before.all_teams
  pub item_count : length after.items.all_items ≡ length before.items.all_items

SameObjects-refl : (game : Game) → SameObjects game game
SameObjects-refl game = record { robots = refl; teams = refl; team_count = refl; item_count = refl }

SameObjects-trans : (f g h : Game) → SameObjects f g → SameObjects g h → SameObjects f h
SameObjects-trans f g h p q = record {
  robots = q.robots ∙ p.robots;
  teams = q.teams ∙ p.teams;
  team_count = q.team_count ∙ p.team_count;
  item_count = q.item_count ∙ p.item_count;
}

IsReady-same : (f g : Game) (c : Contact) → SameObjects f g → IsReady f c → IsReady g c
IsReady-same f g c s r = record {
  open_still = r.open_still;
  who = r.who;
  robot_there = ap (λ l. get_elem? l c.robot) s.robots ∙ r.robot_there;
  team_live = ap (λ m. is_live m r.who.team) s.teams ∙ r.team_live;
  team_there = omega (arith, s.team_count, r.team_there);
  item_there = omega (arith, s.item_count, r.item_there);
}

-- The game after a capture by the team at one place of the item at another.
pub captured : ℕ → ℕ → Team → Item → Game → Game
captured team item t i game =
    change_item item (λ _. (capture i t).0)
      (record game { all_teams = modify game.all_teams team (λ _. (capture i t).1) })

SameObjects-captured :
    (team item : ℕ) (t : Team) (i : Item) (game : Game)
    → SameObjects game (captured team item t i game)
unfolding captured
SameObjects-captured team item t i game = record {
  robots = refl;
  teams = refl;
  team_count = length-modify game.all_teams team (λ _. (capture i t).1);
  item_count = length-modify game.items.all_items item (λ _. (capture i t).0);
}

abbrev pub is_over : Time → Contact → Bool
is_over now contact = ltb_ℤ contact.stop_time now

-- A ready contact takes its step: it goes on unchanged, or captures and is finished.
pub step-IsReady :
    (contact : Contact) (now : Time) (game : Game) (ready : IsReady game contact)
    → (t : Team) × (i : Item) × (get_elem? game.all_teams ready.who.team ≡ some t)
      × (get_elem? game.items.all_items contact.item ≡ some i)
      × (step contact now game ≡ (
          if is_over now contact
          then ok (
            silence_i_kill_u,
            record contact { finished = true },
            captured ready.who.team contact.item t i game,
          )
          else ok (staying_alive, contact, game)))
unfolding step capture_item deref captured
step-IsReady contact now game ready =
    let (t, et) = get_elem?_total game.all_teams ready.who.team ready.team_there in
    let (i, ei) = get_elem?_total game.items.all_items contact.item ready.item_there in
    (t, i, et, ei, rw (ready.open_still, ready.robot_there) (rw ready.team_live (rw (et, ei) refl)))

abbrev pub Ready : Game → Map Text Contact → Type 0
Ready game = All (λ e. IsReady game e.1)

Ready-same : (f g : Game) (cs : Map Text Contact) → SameObjects f g → Ready f cs → Ready g cs
Ready-same f g [] s r = tt
Ready-same f g ((id, c) ∷ cs) s r = (IsReady-same f g c s r.0, Ready-same f g cs s r.1)

-- The contacts that are not over.
abbrev pub going_on : Time → Map Text Contact → Map Text Contact
going_on now = keep (λ e. not (is_over now e.1))

step_all-Ready :
    (cs : Map Text Contact) (now : Time) (game : Game)
    → Ready game cs
    → (after : Game) × (step_all cs now game ≡ ok (going_on now cs, after)) × SameObjects game after
unfolding step_all destroy
step_all-Ready [] now game ready = (game, refl, SameObjects-refl game)
step_all-Ready ((id, c) ∷ cs) now game ready =
    let (t, i, et, ei, stepped) = step-IsReady c now game ready.0 in
    elim (Bool-cases (is_over now c)) [
      | inl over ↦
          let after_capture = captured ready.0.who.team c.item t i game in
          let same = SameObjects-captured ready.0.who.team c.item t i game in
          let (after, rest, same') =
            step_all-Ready cs now after_capture (Ready-same game after_capture cs same ready.1) in
          (
            after,
            rw (stepped, over) (ground (arith, rest)),
            SameObjects-trans game after_capture after same same',
          )
      | inr on ↦
          let (after, rest, same) = step_all-Ready cs now game ready.1 in
          (after, rw (stepped, on) (ground (arith, rest)), same)
    ]

Ready-going_on :
    (game : Game) (now : Time) (cs : Map Text Contact)
    → Ready game cs
    → Ready game (going_on now cs)
Ready-going_on game now [] r = tt
Ready-going_on game now ((id, c) ∷ cs) r =
    let rest = Ready-going_on game now cs r.1 in
    elim (is_over now c)
      as (λ b.
        Ready game (elim (not b) [ true ↦ (id, c) ∷ going_on now cs | false ↦ going_on now cs ])) [
          | true ↦ rest
          | false ↦ (r.0, rest)
        ]

-- Where every contact of the game is ready, `handleContacts` does not throw. It leaves just the
-- contacts whose stop time is not before the time of the game, as they were and ready still, and
-- it adds or removes no robot, no team and no item.
pub handle_contacts-Ready :
    (game : Game)
    → Ready game game.contacts
    → (after : Game) × (handle_contacts game ≡ ok after)
      × (after.contacts ≡ going_on game.time game.contacts)
      × Ready after after.contacts
      × (after.all_robots ≡ game.all_robots)
      × (after.teams ≡ game.teams)
      × (length after.all_teams ≡ length game.all_teams)
      × (length after.items.all_items ≡ length game.items.all_items)
unfolding handle_contacts
handle_contacts-Ready game ready =
    let (after, done, same) = step_all-Ready game.contacts game.time game ready in
    let left = going_on game.time game.contacts in
    let after' : Game = record after { contacts = left } in
    (
      after',
      rw done refl,
      refl,
      Ready-same game after' left
          (record {
            robots = same.robots;
            teams = same.teams;
            team_count = same.team_count;
            item_count = same.item_count;
          })
          (Ready-going_on game game.time game.contacts ready),
      same.robots,
      same.teams,
      same.team_count,
      same.item_count,
    )
