-- ===== src/Game/Types.antt =====
-- The data of the game: the members of the classes under include/orwell/game.
-- A shared or weak pointer is the place of its object in the list of all such objects that were
-- ever made; objects are only added there, so a place is never used twice. Times and durations of
-- boost::posix_time are signed counts of microseconds.
use server_game.Base.{ℕ, suc, ◌/◌, Bool, Option, List}
use server_game.Base.Int.{ℤ, pos, negsuc}
use server_game.Base.Text.{Text}
use server_game.Base.StdMap.{Map}

abbrev pub Time : Type 0
Time = ℤ

abbrev pub Duration : Type 0
Duration = ℤ

abbrev pub microseconds : ℕ
microseconds = 1_000_000

abbrev pub negated : ℕ → ℤ
negated ℕ.zero = pos 0
negated (suc k) = negsuc k

-- `time_duration::total_seconds`, which rounds towards zero.
abbrev pub total_seconds : Duration → ℤ
total_seconds (pos n) = pos (n / microseconds)
total_seconds (negsuc n) = negated (suc n / microseconds)

pub data CaptureState : Type 0 where
  pending started succeeded failed : CaptureState

pub data StepSignal : Type 0 where
  staying_alive silence_i_kill_u : StepSignal

pub data Kind : Type 0 where
  colour rfids : Kind

-- The members of class Item with the one that class Flag adds: every item is a flag.
pub record Item : Type 0 where
  pub kind : Kind
  pub name : Text
  pub tags : List Text
  pub colour_code : ℤ
  pub owning_team : Text
  pub capturing_team : Text
  pub capture_state : CaptureState
  pub time_to_capture : Duration
  pub points_on_capture : ℕ

-- The three static members of class Item.
pub record Registry : Type 0 where
  pub items_by_rfid : Map Text ℕ
  pub items_by_colour : Map ℤ ℕ
  pub all_items : List Item

pub record Ruleset : Type 0 where
  pub game_name : Text
  pub score_to_win : ℕ
  pub points_on_capture : ℕ
  pub time_to_capture : Duration

pub record Team : Type 0 where
  pub name : Text
  pub score : ℕ
  pub robots : List ℕ
  pub is_neutral_team : Bool

pub record Robot : Type 0 where
  pub name : Text
  pub robot_id : Text
  pub team : ℕ
  pub video_url : Text
  pub video_retransmission_port : ℕ
  pub server_command_port : ℕ
  pub has_real_robot : Bool
  pub player : Option ℕ

pub record Player : Type 0 where
  pub name : Text
  pub robot : Option ℕ
  pub address : Text

pub record Contact : Type 0 where
  pub robot : ℕ
  pub item : ℕ
  pub stop_time : Time
  pub finished : Bool

pub data States : Type 0 where
  outside frontier unknown_from_frontier inside transition_from_inside : States

pub record FlagDetector : Type 0 where
  pub colour_code : ℤ
  pub state : States
  pub robot : ℕ
  pub last_item : Option ℕ

pub record RgbColour : Type 0 where
  pub r : ℕ
  pub g : ℕ
  pub b : ℕ

pub record Coordinates : Type 0 where
  pub x : ℕ
  pub y : ℕ

pub record Landmark : Type 0 where
  pub position : Coordinates
  pub colour : RgbColour

-- class Game, with the objects that its maps point to and the static members of class Item.
pub record Game : Type 0 where
  pub is_running : Bool
  pub robots : Map Text ℕ
  pub robots_by_id : Map Text ℕ
  pub players : Map Text ℕ
  pub teams : Map Text ℕ
  pub registered_robots : Map Text Text
  pub time : Time
  pub start_time : Time
  pub game_duration : Duration
  pub contacts : Map Text Contact
  pub winner : Option Text
  pub rules : Ruleset
  pub map_limits : List Landmark
  pub flag_detectors_by_robot : Map Text FlagDetector
  pub all_robots : List Robot
  pub all_players : List Player
  pub all_teams : List Team
  pub items : Registry
