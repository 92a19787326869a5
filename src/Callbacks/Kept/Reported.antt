-- ===== src/Callbacks/Kept/Reported.antt =====
-- The report of a robot, and the choice of the handler.
use server_game.Base.{
  ℕ, refl, sym, subst, Bool, true, false, Option, none, some, List, [], ◌∷◌, Result, or_fault,
  dangling, get_elem?, if◌then◌else◌, ◌>>=◌,
}
use server_game.Base.Ensures
use server_game.Base.Ensures.{Ensures}
use server_game.Base.Int.{ℤ}
use server_game.Base.Key.{◌==◌}
use server_game.Base.Text.{Text, str, text_key}
use server_game.Base.StdMap.{find, put}
use server_game.Game.Types.{Game, Time, FlagDetector}
use server_game.Game.Item.{get_item_by_rfid}
use server_game.Game.Detector.{set_colour}
use server_game.Game.Roster.{get_has_robot_by_id}
use server_game.Game.Sound.Unchanged.{
  SameNames, SameNames-trans, same_teams, touch-SameNames, drop-SameNames,
}
use server_game.Game.Sound.Detected.{set_colour-SameNames}
use server_game.Com.RawMessage.{RawMessage}
use server_game.Callbacks.Messages.{Channel, Status, on, off, Rfid, ServerRobotState, World}
use server_game.Callbacks.Reports
use server_game.Callbacks.Reports.{Visit, touch, add_visited, visit_found}
use server_game.Callbacks.Decider.{Externals, process}
use server_game.Callbacks.Kept.{
  Kept, Fine, ping-Fine, pong-Fine, input_game, register-Fine, hello-Fine,
}

abbrev noted : Text → FlagDetector → Game → Game
noted id d g = record g { flag_detectors_by_robot = put id d g.flag_detectors_by_robot }

noted-SameNames : (id : Text) (d : FlagDetector) (g : Game) → SameNames g (noted id d g)
noted-SameNames id d g = same_teams g (noted id d g) refl refl refl refl refl refl refl refl

module _ (P : Game → Type 0) (k : Kept P) where
  abbrev FineVisit : Visit → Type 0
  FineVisit v = P v.1

  touch-Fine : (s : Status) (id : Text) (item : ℕ) (g : Game) → P g → Ensures P (touch s id item g)
  touch-Fine on id item g v = λ h e. k.same g h (touch-SameNames id item g h e) v
  touch-Fine off id item g v = Ensures.ok-Ensures P _ (k.same g _ (drop-SameNames id item g) v)

  look_for_rfid-Fine :
      (id : Text) (rs : List Rfid) (visited : List ℕ) (g : Game)
      → P g
      → Ensures FineVisit (Reports.look_for_rfid id rs (visited, g))
  unfolding Reports.look_for_rfid
  look_for_rfid-Fine id [] visited g v = Ensures.ok-Ensures FineVisit (visited, g) v
  look_for_rfid-Fine id (r ∷ rest) visited g v =
      found (get_item_by_rfid r.rfid g.items) (look_for_rfid-Fine id rest)
    where
      found :
          (o : Option ℕ)
          → ((visited : List ℕ) (g : Game)
              → P g
              → Ensures FineVisit (Reports.look_for_rfid id rest (visited, g)))
          → Ensures FineVisit (elim o [
            | none ↦ Reports.look_for_rfid id rest (visited, g)
            | some item ↦ touch r.status id item g >>= λ game'.
                Reports.look_for_rfid id rest (add_visited item visited, game')
          ])
      found none later = later visited g v
      found (some item) later =
          Ensures.bind-Ensures FineVisit (touch r.status id item g) _
            (λ h e. later (add_visited item visited) h (touch-Fine r.status id item g v h e))

  look_for_colour-Fine :
      (id : Text) (codes : List ℤ) (visited : List ℕ) (g : Game)
      → P g
      → Ensures FineVisit (Reports.look_for_colour id codes (visited, g))
  unfolding Reports.look_for_colour
  look_for_colour-Fine id [] visited g v = Ensures.ok-Ensures FineVisit (visited, g) v
  look_for_colour-Fine id (code ∷ rest) visited g v =
      found (find id g.flag_detectors_by_robot) (look_for_colour-Fine id rest)
    where
      found :
          (o : Option FlagDetector)
          → ((visited : List ℕ) (g : Game)
              → P g
              → Ensures FineVisit (Reports.look_for_colour id rest (visited, g)))
          → Ensures FineVisit (elim o [
            | none ↦ Reports.look_for_colour id rest (visited, g)
            | some detector ↦ set_colour code detector g >>= λ (d, h, item).
                Reports.look_for_colour id rest (visit_found item visited, noted id d h)
          ])
      found none later = later visited g v
      found (some d) later = Ensures.bind-Ensures FineVisit (set_colour code d g) _ (λ o e.
          later (visit_found o.2 visited) (noted id o.0 o.1) (
            k.same g _
              (SameNames-trans g o.1 _ (set_colour-SameNames g code d o e)
                (noted-SameNames id o.0 o.1))
              v))

  module _ (id : Text) (report : ServerRobotState) where
    tell-Fine :
        (is_first : Bool) (items : List ℕ) (w : World)
        → Fine P k w
        → Ensures (Fine P k) (Reports.tell id report is_first items w)
    unfolding Reports.tell
    tell-Fine is_first [] w v = Ensures.ok-Ensures (Fine P k) w v
    tell-Fine is_first (item ∷ rest) w v =
        let rest_told = tell-Fine false rest in
        Ensures.bind-Ensures (Fine P k) (or_fault dangling (get_elem? w.game.items.all_items item))
          _ (λ i _. rest_told _ v)

    tell_all-Fine :
        (items : List ℕ) (w : World)
        → Fine P k w
        → Ensures (Fine P k) (Reports.tell_all id report items w)
    tell_all-Fine [] w v = Ensures.ok-Ensures (Fine P k) _ v
    tell_all-Fine (item ∷ rest) w v = tell-Fine true (item ∷ rest) w v

    robot_state-Fine :
        (by_address : List ℕ → List ℕ) (w : World)
        → Fine P k w
        → Ensures (Fine P k) (Reports.robot_state by_address id report w)
    unfolding Reports.robot_state
    robot_state-Fine by_address w v =
        Ensures.if-Ensures (Fine P k) (get_has_robot_by_id id w.game) _ _
          (Ensures.bind-Ensures (Fine P k) (Reports.look_for_rfid id report.rfids ([], w.game)) _
            (λ touched e.
              let s = look_for_rfid-Fine id report.rfids [] w.game v touched e in
              Ensures.bind-Ensures (Fine P k) (Reports.look_for_colour id report.colours touched) _
                (λ seen f.
                  tell_all-Fine (by_address seen.0) (record w { game = seen.1 })
                    (look_for_colour-Fine id report.colours touched.0 touched.1 s seen f))))
          (Ensures.ok-Ensures (Fine P k) w v)

  -- ProcessDecider::process, whatever the type of the message.
  pub process-Fine :
      (ext : Externals) (now : Time) (milliseconds : ℕ) (m : RawMessage) (channel : Channel)
      (w : World)
      → Fine P k w
      → Ensures (Fine P k) (process ext now milliseconds m channel w)
  unfolding process
  process-Fine ext now milliseconds m channel w v =
      choose (m.type == str "Hello") _ _
        (hello-Fine P k ext.lexical_cast channel m.routing_id (ext.parse_hello m.payload) now w v)
        (choose (m.type == str "Input") _ _
          (λ w' e. subst P (sym (input_game m.routing_id (ext.parse_input m.payload) w w' e)) v)
          (choose (m.type == str "ServerRobotState") _ _
            (robot_state-Fine m.routing_id (ext.parse_robot_state m.payload) ext.by_address w v)
            (choose (m.type == str "Ping") _ _
              (Ensures.ok-Ensures (Fine P k) _
                (ping-Fine P k m.routing_id milliseconds (ext.parse_ping m.payload) w v))
              (choose (m.type == str "Pong") _ _
                (Ensures.ok-Ensures (Fine P k) _
                  (pong-Fine P k m.routing_id milliseconds (ext.parse_pong m.payload) w v))
                (choose (m.type == str "Register") _ _
                  (register-Fine P k channel m.routing_id (ext.parse_register m.payload) w v)
                  (Ensures.ok-Ensures (Fine P k) w v))))))
    where
      choose :
          (b : Bool) (r s : Result World)
          → Ensures (Fine P k) r
          → Ensures (Fine P k) s
          → Ensures (Fine P k) (if b then r else s)
      choose = Ensures.if-Ensures (Fine P k)
