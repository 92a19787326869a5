-- ===== src/Callbacks/Kept/Sound.antt =====
-- Whatever message comes, its handler keeps the game sound.
use server_game.Base.{ℕ, refl, none, some, Option}
use server_game.Base.Ensures.{Ensures}
use server_game.Base.Text.{Text}
use server_game.Game.Types.{Game, Time}
use server_game.Game.Roster.{change_robot, set_player, set_video_url, set_has_real_robot}
use server_game.Game.Sound.{IsSound}
use server_game.Game.Sound.Unchanged.{IsSound-same}
use server_game.Game.Sound.Added.{
  add_player-IsSound, register-IsSound, change_robot-IsSound, change_player-IsSound,
}
use server_game.Com.RawMessage.{RawMessage}
use server_game.Callbacks.Messages.{Channel, World}
use server_game.Callbacks.Decider.{Externals, process}
use server_game.Callbacks.Kept.{Kept, settled}
use server_game.Callbacks.Kept.Reported.{process-Fine}

linked : (i player : ℕ) (g : Game) → IsSound g → IsSound (change_robot i (set_player player) g)
unfolding set_player
linked i player g v = change_robot-IsSound i _ g (λ r. (refl, refl)) v

-- Two fields of the robot are set, and nothing that leads to it.
settled-IsSound : (url : Text) (r : Game × Option ℕ) → IsSound r.0 → IsSound (settled url r)
unfolding set_video_url set_has_real_robot
settled-IsSound url (g, none) v = v
settled-IsSound url (g, some robot) v =
    change_robot-IsSound robot _ _ (λ r. (refl, refl))
      (change_robot-IsSound robot _ g (λ r. (refl, refl)) v)

pub IsSound-Kept : Kept IsSound
IsSound-Kept = record {
  same = IsSound-same;
  robot_linked = linked;
  player_changed = change_player-IsSound;
  player_added = add_player-IsSound;
  registered = λ t url g r e v. settled-IsSound url r (register-IsSound t g r e v);
}

abbrev pub SoundWorld : World → Type 0
SoundWorld w = IsSound w.game

-- ProcessDecider::process, whatever the type of the message.
pub process-Sound :
    (ext : Externals) (now : Time) (milliseconds : ℕ) (m : RawMessage) (channel : Channel)
    (w : World)
    → SoundWorld w
    → Ensures SoundWorld (process ext now milliseconds m channel w)
process-Sound = process-Fine IsSound IsSound-Kept
