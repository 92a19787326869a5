-- ===== src/Callbacks/Kept.antt =====
-- Whatever message comes, its handler keeps the properties of the game that a few changes keep.
pub mod Reported
pub mod Sound
pub mod Apart
pub mod Heard
use server_game.Base.{
  ℕ, ◌≡◌, refl, sym, subst, Bool, true, false, Option, none, some, List, [], ◌∷◌, Result, ok,
  or_fault, dangling, get_elem?, ok-injective, >>=-ok, arith, if◌then◌else◌, ◌>>=◌,
}
use server_game.Base.Ensures
use server_game.Base.Ensures.{Ensures}
use server_game.Base.Int.{ℤ}
use server_game.Base.Key.{◌==◌}
use server_game.Base.Text.{Text, str, text_key}
use server_game.Base.StdMap.{find, put}
use server_game.Game.Types.{Game, Time, Player}
use server_game.Game.Team.{deref}
use server_game.Game.Item.{get_item_by_rfid}
use server_game.Game.Contact.{robot_drops_contact_with}
use server_game.Game.Detector.{set_colour}
use server_game.Game.Roster
use server_game.Game.Roster.{
  change_robot, change_player, set_has_real_robot, set_video_url, set_player, set_robot,
  set_address, access_player, add_player, get_robot_without_real_robot, get_robot_for_player,
  get_available_robot, get_has_robot_by_id,
}
use server_game.Game.Rules.{start}
use server_game.Game.Sound.{player_name}
use server_game.Game.Sound.Unchanged.{
  SameNames, SameNames-refl, SameNames-trans, IsSound-same, same_teams, touch-SameNames,
  drop-SameNames,
}
use server_game.Game.Sound.Course.{start-SameNames}
use server_game.Game.Sound.Added.{
  add_player-IsSound, register-IsSound, change_robot-IsSound, change_player-IsSound,
}
use server_game.Game.Sound.Detected.{set_colour-SameNames}
use server_game.Com.RawMessage.{RawMessage}
use server_game.Callbacks.Messages.{
  Channel, Body, Hello, Register, Input, Timing, Status, on, off, Rfid, ServerRobotState, Outgoing,
  World, reply_message, reply_message-game, publish_message,
}
use server_game.Callbacks.Pings
use server_game.Callbacks.Players
use server_game.Callbacks.Reports
use server_game.Callbacks.Reports.{Visit}
use server_game.Callbacks.Decider.{Externals, process}

-- The robot that was found for a real one, as ProcessRegister::execute leaves it.
abbrev pub settled : Text → Game × Option ℕ → Game
settled url (g, none) = g
settled url (g, some robot) =
    change_robot robot (set_video_url url) (change_robot robot (set_has_real_robot true) g)

-- A property of games that is kept where nothing is added, removed or renamed, where a robot and a
-- player are linked, where a player is added or changed, and where a real robot registers.
pub record Kept (P : Game → Type 0) : Type 0 where
  pub same : (f g : Game) → SameNames f g → P f → P g
  pub robot_linked : (i player : ℕ) (g : Game) → P g → P (change_robot i (set_player player) g)
  pub player_changed :
      (i : ℕ) (f : Player → Player) (g : Game)
      → ((p : Player) → player_name (f p) ≡ player_name p)
      → P g
      → P (change_player i f g)
  pub player_added : (name : Text) (g : Game) → P g → P (add_player name g).0
  pub registered :
      (temporary_id url : Text) (g : Game) (r : Game × Option ℕ)
      → get_robot_without_real_robot temporary_id g ≡ ok r
      → P g
      → P (settled url r)

pub input_game :
    (id : Text) (m : Input) (w w' : World) → Pings.input id m w ≡ ok w' → w'.game ≡ w.game
unfolding Pings.input
input_game id m w w' e = ground arith

module _ (P : Game → Type 0) (k : Kept P) where
  abbrev pub Fine : World → Type 0
  Fine w = P w.game

  replied :
      (channel : Channel) (m : Outgoing) (w : World) → Fine w → Fine (reply_message channel m w)
  replied channel m w v = subst P (sym (reply_message-game channel m w)) v

  pub ping-Fine :
      (id : Text) (now : ℕ) (ts : List Timing) (w : World) → Fine w → Fine (Pings.ping id now ts w)
  unfolding Pings.ping
  ping-Fine id now ts w v = v

  pub pong-Fine :
      (id : Text) (now : ℕ) (ts : List Timing) (w : World) → Fine w → Fine (Pings.pong id now ts w)
  unfolding Pings.pong
  pong-Fine id now ts w v = v

  pub register-Fine :
      (channel : Channel) (id : Text) (m : Register) (w : World)
      → Fine w
      → Ensures Fine (Players.register channel id m w)
  unfolding Players.register
  register-Fine channel id m w v =
      Ensures.bind-Ensures Fine (get_robot_without_real_robot m.temporary_robot_id w.game) _
        (λ r e. answered r.1 r.0 (k.registered m.temporary_robot_id m.video_url w.game r e v))
    where
      answered :
          (found : Option ℕ) (g : Game)
          → P (settled m.video_url (g, found))
          → Ensures Fine (elim found [
            | none ↦ ok (
                reply_message channel
                  (record { routing_id = id; body = Body.registered none [] })
                  (record w { game = g }))
            | some robot ↦ or_fault dangling (get_elem? g.all_robots robot) >>= λ r.
                deref r.team g >>= λ team. ok (
                  reply_message channel
                    (record { routing_id = id; body = Body.registered (some team.name) r.robot_id })
                    (record w {
                      game =
                          change_robot robot
                            (set_video_url m.video_url)
                            (change_robot robot (set_has_real_robot true) g);
                    }))
          ])
      answered none g s = Ensures.ok-Ensures Fine _ (replied channel _ _ s)
      answered (some robot) g s =
          Ensures.bind-Ensures Fine (or_fault dangling (get_elem? g.all_robots robot)) _ (λ r _.
            Ensures.bind-Ensures Fine (deref r.team g) _
              (λ team _. Ensures.ok-Ensures Fine _ (replied channel _ _ s)))

  link-Fine : (player robot : ℕ) (g : Game) → P g → P (Players.link player robot g)
  unfolding Players.link set_robot
  link-Fine player robot g v =
      k.robot_linked robot player _ (k.player_changed player (set_robot robot) g (λ p. refl) v)

  start_if_ready-Fine :
      (ready : Option Bool) (now : Time) (g : Game) → P g → P (Players.start_if_ready ready now g)
  unfolding Players.start_if_ready
  start_if_ready-Fine none now g v = v
  start_if_ready-Fine (some false) now g v = v
  start_if_ready-Fine (some true) now g v = chosen (get_available_robot g)
    where
      chosen : (o : Option ℕ) → P (elim o [ none ↦ start true none now g | some robot ↦ g ])
      chosen none = k.same g _ (start-SameNames true none now g) v
      chosen (some robot) = v

  note_address-Fine :
      (name : Text) (address : Option Text) (w : World)
      → Fine w
      → Ensures Fine (Players.note_address name address w)
  unfolding Players.note_address set_address
  note_address-Fine name none w v = Ensures.ok-Ensures Fine w v
  note_address-Fine name (some address) w v =
      Ensures.bind-Ensures Fine (access_player name w.game) _ (λ player _.
        Ensures.ok-Ensures Fine _
          (k.player_changed player (set_address address) w.game (λ p. refl) v))

  module _ (lexical_cast : Text → Option ℕ) (channel : Channel) (id : Text) (m : Hello)
      (now : Time) where
    welcome_player-Fine :
        (robot : ℕ) (w : World)
        → Fine w
        → Ensures Fine (Players.welcome_player lexical_cast channel id m now robot w)
    unfolding Players.welcome_player
    welcome_player-Fine robot w v =
        Ensures.bind-Ensures Fine (access_player m.name w.game) _ (λ player _.
          let g = Players.link player robot w.game in
          Ensures.bind-Ensures Fine (or_fault dangling (get_elem? g.all_robots robot)) _ (λ r _.
            Ensures.bind-Ensures Fine (Players.video_of lexical_cast r) _ (λ video _.
              Ensures.ok-Ensures Fine _ (
                replied channel _ _
                  (start_if_ready-Fine m.ready now g (link-Fine player robot w.game v))))))

    pub hello-Fine :
        (w : World) → Fine w → Ensures Fine (Players.hello lexical_cast channel id m now w)
    unfolding Players.hello
    hello-Fine w v =
        Ensures.if-Ensures Fine (add_player m.name w.game).1 _ _
          (greeted (get_robot_for_player m.name (add_player m.name w.game).0))
          (Ensures.ok-Ensures Fine _ (replied channel _ w' added))
      where
        w' : World
        w' = record w { game = (add_player m.name w.game).0 }

        added : Fine w'
        added = k.player_added m.name w.game v

        greeted :
            (o : Option ℕ)
            → Ensures Fine (elim o [
              | some robot ↦
                  Players.welcome_player lexical_cast channel id m now robot w' >>= λ w''.
                  Players.note_address m.name m.address w''
              | none ↦ Players.note_address m.name m.address w' >>= λ noted.
                  ok (Players.say_goodbye channel id noted)
            ])
        greeted none =
            Ensures.bind-Ensures Fine (Players.note_address m.name m.address w') _ (λ noted e.
              Ensures.ok-Ensures Fine _
                (replied channel _ noted (note_address-Fine m.name m.address w' added noted e)))
        greeted (some robot) =
            Ensures.bind-Ensures Fine
              (Players.welcome_player lexical_cast channel id m now robot w') _
              (λ w'' e.
                note_address-Fine m.name m.address w'' (welcome_player-Fine robot w' added w'' e))
