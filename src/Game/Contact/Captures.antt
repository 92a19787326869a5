-- ===== src/Game/Contact/Captures.antt =====
-- What a contact does to the item and to the teams: its start, its end by capture, its loss.
use server_game.Base.{
  ℕ, ◌+◌, ◌%◌, ◌^◌, ◌≡◌, ◌≢◌, refl, ◌∙◌, true, false, none, some, arith, get_elem?, modify,
  get_elem?-modify_self, get_elem?-modify_ne, ok, or_fault, if◌then◌else◌,
}
use server_game.Base.Key.{◌==◌}
use server_game.Base.Int.{◌+ℤ◌}
use server_game.Base.Text.{Text, text_key, text_iff}
use server_game.Base.StdMap.{Map, find, put, erase, find-put_self, find-erase, find-erase_self}
use server_game.Game.Types.{
  Contact, Game, Robot, Team, Item, Time, silence_i_kill_u, started, succeeded, failed,
}
use server_game.Game.Team.{deref}
use server_game.Game.Item.{capture, start_capture, abort_capture}
use server_game.Game.Contact.{
  make, step, capture_item, destroy, change_item, robot_is_in_contact_with,
  robot_drops_contact_with,
}
use server_game.Game.Contact.Steps.{IsReady, is_over}

-- The item and the team after a capture: nothing changes for the team that owns the item.
abbrev pub item_after : Team → Item → Item
item_after t i =
    if t.name == i.owning_team
    then i
    else record i { owning_team = t.name; capture_state = succeeded }

abbrev pub team_after : Team → Item → Team
team_after t i =
    if t.name == i.owning_team
    then t
    else record t { score = (t.score + i.points_on_capture % 2 ^ 16) % 2 ^ 32 }

capture-after : (t : Team) (i : Item) → capture i t ≡ (item_after t i, team_after t i)
unfolding capture
capture-after t i = ground arith

-- The step of a ready contact after its stop time finishes it. Unless the team of the robot owns
-- the item, the item becomes the team's and the points of the item, cut to 16 bits, are added to
-- the score in 32 bits. No other item and no other team changes.
pub step_captures :
    (contact : Contact) (now : Time) (game : Game) (t : Team) (i : Item)
    (ready : IsReady game contact)
    → is_over now contact ≡ true
    → get_elem? game.all_teams ready.who.team ≡ some t
    → get_elem? game.items.all_items contact.item ≡ some i
    → (after : Game) × (step contact now game
        ≡ ok (silence_i_kill_u, record contact { finished = true }, after))
      × (get_elem? after.items.all_items contact.item ≡ some (item_after t i))
      × (get_elem? after.all_teams ready.who.team ≡ some (team_after t i))
      × ((j : ℕ)
          → contact.item ≢ j
          → get_elem? after.items.all_items j ≡ get_elem? game.items.all_items j)
      × ((j : ℕ) → ready.who.team ≢ j → get_elem? after.all_teams j ≡ get_elem? game.all_teams j)
unfolding step capture_item deref
step_captures contact now game t i ready over et ei =
    let items = game.items.all_items in
    let teams = game.all_teams in
    let team = ready.who.team in
    (
      change_item contact.item (λ _. item_after t i)
          (record game { all_teams = modify teams team (λ _. team_after t i) }),
      rw (ready.open_still, over, ready.robot_there)
          (rw (ready.team_live) (rw (et, ei) (rw (capture-after t i) refl))),
      get_elem?-modify_self items contact.item (λ _. item_after t i) i ei,
      get_elem?-modify_self teams team (λ _. team_after t i) t et,
      λ j ne. get_elem?-modify_ne items contact.item j (λ _. item_after t i) ne,
      λ j ne. get_elem?-modify_ne teams team j (λ _. team_after t i) ne,
    )

module _ (id : Text) (item robot : ℕ) (game : Game) (r : Robot) (t : Team) (i : Item)
    (known : find id game.robots_by_id ≡ some robot)
    (robot_there : get_elem? game.all_robots robot ≡ some r) (team_there : deref r.team game ≡ ok t)
    (item_there : get_elem? game.items.all_items item ≡ some i) where
  -- The contact that is recorded for the robot.
  abbrev fresh_contact : Contact
  fresh_contact = record {
    robot = robot;
    item = item;
    stop_time = game.time +ℤ game.rules.time_to_capture;
    finished = false;
  }

  -- The game once the new contact has been made and recorded.
  touched : Game
  touched = record (change_item item (start_capture t.name) game) {
    contacts = put id fresh_contact game.contacts;
  }

  item_touched :
      (t.name == i.owning_team) ≡ false
      → get_elem? touched.items.all_items item
        ≡ some (record i { capturing_team = t.name; capture_state = started })
  unfolding touched start_capture
  item_touched foreign =
      get_elem?-modify_self game.items.all_items item (start_capture t.name) i item_there
      ∙ ground (arith, text_iff t.name i.owning_team, text_iff i.owning_team t.name)

  contact_touched : find id touched.contacts ≡ some fresh_contact
  unfolding touched
  contact_touched = find-put_self id fresh_contact game.contacts

  touch :
      robot_is_in_contact_with id item game
      ≡ ok (elim (find id game.contacts) [ none ↦ touched | some old ↦ destroy old touched ])
  unfolding robot_is_in_contact_with make touched
  touch = rw (known, or_fault) (rw robot_there (rw team_there refl))

  -- A robot without a contact touches an item that its team does not own: the capture starts, for
  -- that team, and ends once the time to capture has passed.
  pub robot_is_in_contact_with_starts :
      find id game.contacts ≡ none
      → (t.name == i.owning_team) ≡ false
      → (after : Game) × (robot_is_in_contact_with id item game ≡ ok after)
        × (find id after.contacts ≡ some fresh_contact)
        × (get_elem? after.items.all_items item
            ≡ some (record i { capturing_team = t.name; capture_state = started }))
  robot_is_in_contact_with_starts idle foreign =
      (touched, touch ∙ ground (arith, idle), contact_touched, item_touched foreign)

  -- A robot that is in contact with that item already, and reports it once more, still has a
  -- contact with it, and the item says that its capture has failed: the contact that is replaced
  -- is destroyed after the new one has started the capture.
  pub robot_is_in_contact_with_again :
      (old : Contact)
      → find id game.contacts ≡ some old
      → old.finished ≡ false
      → old.item ≡ item
      → (t.name == i.owning_team) ≡ false
      → (after : Game) × (robot_is_in_contact_with id item game ≡ ok after)
        × (find id after.contacts ≡ some fresh_contact)
        × (get_elem? after.items.all_items item
            ≡ some (record i { capturing_team = t.name; capture_state = failed }))
  unfolding destroy abort_capture
  robot_is_in_contact_with_again old had going same foreign = (
    change_item item abort_capture touched,
    touch ∙ ground (arith, had, going, same),
    contact_touched,
    get_elem?-modify_self touched.items.all_items item abort_capture _ (item_touched foreign),
  )

-- The game once a contact has been dropped.
dropped : Text → Contact → Game → Game
dropped id old game =
    change_item old.item abort_capture (record game { contacts = erase id game.contacts })

drops :
    (id : Text) (item : ℕ) (game : Game) (old : Contact)
    → find id game.contacts ≡ some old
    → old.finished ≡ false
    → robot_drops_contact_with id item game ≡ dropped id old game
unfolding robot_drops_contact_with destroy dropped
drops id item game old had going = ground (arith, had, going)

drops_nothing :
    (id : Text) (item : ℕ) (game : Game)
    → find id game.contacts ≡ none
    → robot_drops_contact_with id item game ≡ game
unfolding robot_drops_contact_with
drops_nothing id item game idle = ground (arith, idle)

find-erase_ne :
    (id other : Text) (m : Map Text Contact) → other ≢ id → find other (erase id m) ≡ find other m
find-erase_ne id other m ne = ground (arith, find-erase id other m, text_iff other id)

-- A robot that loses its contact: the contact is gone and the capture of its item has failed. The
-- contacts of the other robots stay. Without a contact nothing changes.
pub robot_drops_contact_with_fails :
    (id : Text) (item : ℕ) (game : Game) (old : Contact) (i : Item)
    → find id game.contacts ≡ some old
    → old.finished ≡ false
    → get_elem? game.items.all_items old.item ≡ some i
    → let after = robot_drops_contact_with id item game in
      (find id after.contacts ≡ none)
      × (get_elem? after.items.all_items old.item ≡ some (record i { capture_state = failed }))
      × ((other : Text) → other ≢ id → find other after.contacts ≡ find other game.contacts)
      × (robot_drops_contact_with id item after ≡ after)
unfolding dropped abort_capture
robot_drops_contact_with_fails id item game old i had going there =
    rw (drops id item game old had going) (
      find-erase_self id game.contacts,
      get_elem?-modify_self game.items.all_items old.item abort_capture i there,
      λ other ne. find-erase_ne id other game.contacts ne,
      drops_nothing id item (dropped id old game) (find-erase_self id game.contacts),
    )
