-- ===== src/Callbacks/Messages.antt =====
-- The messages as the handlers see them. Their classes come from a protobuf file of another
-- repository: a field that may be missing is an Option where the code asks for its presence, or
-- where it may leave it unset.
use server_game.Base.{ℕ, ◌≡◌, refl, Bool, Option, List, [], ◌∷◌, ◌++◌}
use server_game.Base.Int.{ℤ}
use server_game.Base.Text.{Text}
use server_game.Game.Types.{Game, Landmark}

pub data Channel : Type 0 where
  publish reply : Channel

pub record Timing : Type 0 where
  pub logger : Text
  pub timestamp : Option ℕ
  pub elapsed : Option ℕ

pub record Hello : Type 0 where
  pub name : Text
  pub ready : Option Bool
  pub address : Option Text

pub record Register : Type 0 where
  pub temporary_robot_id : Text
  pub video_url : Text

-- The whole message, which is passed on, and the one part of it that is read.
pub record Input : Type 0 where
  pub content : Text
  pub weapon1 : Bool

pub data Status : Type 0 where
  on off : Status

pub record Rfid : Type 0 where
  pub rfid : Text
  pub status : Status

-- The colours alone: their times are not used.
pub record ServerRobotState : Type 0 where
  pub rfids : List Rfid
  pub colours : List ℤ
  pub battery : Option Text
  pub ultrasound : Option Text

pub data CaptureStatus : Type 0 where
  started failed succeeded : CaptureStatus

pub record ItemMessage : Type 0 where
  pub name : Text
  pub owner : Option Text
  pub capture_status : Option CaptureStatus
  pub capturer : Option Text

pub record Welcome : Type 0 where
  pub robot : Text
  pub team : Text
  pub id : Text
  pub video_address : Text
  pub video_port : ℕ

pub record GameState : Type 0 where
  pub playing : Bool
  pub seconds : ℕ
  pub total_seconds : ℤ
  pub map_limits : List Landmark
  pub teams : List (Text × ℕ)
  pub items : List ItemMessage
  pub winner : Option Text

pub record PlayerState : Type 0 where
  pub battery : Option Text
  pub ultrasound : Option Text
  pub item : Option ItemMessage

pub data Body : Type 0 where
  ping pong : List Timing → Body
  registered : Option Text → Text → Body
  welcome : Welcome → Body
  goodbye : Body
  input : Input → Body
  game_state : GameState → Body
  player_state : PlayerState → Body

-- A message that is sent, to a routing id; its type is the constructor of its body.
pub record Outgoing : Type 0 where
  pub routing_id : Text
  pub body : Body

-- The game and what the two sockets were given to send.
pub record World : Type 0 where
  pub game : Game
  pub published : List Outgoing
  pub replied : List Outgoing

abbrev pub publish_message : Outgoing → World → World
publish_message m w = record w { published = w.published ++ m ∷ [] }

-- InterfaceProcess::reply
unfoldable pub reply_message : Channel → Outgoing → World → World
reply_message publish m w = record w { published = w.published ++ m ∷ [] }
reply_message reply m w = record w { replied = w.replied ++ m ∷ [] }

pub reply_message-game :
    (channel : Channel) (m : Outgoing) (w : World) → (reply_message channel m w).game ≡ w.game
unfolding reply_message
reply_message-game publish m w = refl
reply_message-game reply m w = refl

pub reply_message-record :
    (channel : Channel) (m : Outgoing) (w : World) (g h : Game)
    → record (reply_message channel m (record w { game = g })) { game = h }
      ≡ reply_message channel m (record w { game = h })
unfolding reply_message
reply_message-record publish m w g h = refl
reply_message-record reply m w g h = refl

-- One message more was given to the socket of the channel, as the last, and none to the other.
abbrev pub Answered : Channel → Outgoing → World → World → Type 0
Answered publish m before after =
    (after.published ≡ before.published ++ m ∷ []) × (after.replied ≡ before.replied)
Answered reply m before after =
    (after.replied ≡ before.replied ++ m ∷ []) × (after.published ≡ before.published)

pub reply_message-Answered :
    (channel : Channel) (m : Outgoing) (w : World) (g : Game)
    → Answered channel m w (reply_message channel m (record w { game = g }))
unfolding reply_message
reply_message-Answered publish m w g = (refl, refl)
reply_message-Answered reply m w g = (refl, refl)
