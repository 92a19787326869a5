-- ===== src/Callbacks/Players/Registered.antt =====
-- What a real robot is told, the first time it registers and again.
use server_game.Base.{
  ℕ, ◌≡◌, refl, ◌∙◌, ap, true, some, get_elem?, get_elem?-modify_self, modify, ok,
}
use server_game.Base.Text.{Text, text_key}
use server_game.Base.StdMap.Order.{IsSorted}
use server_game.Game.Types.{Robot, Team, Game}
use server_game.Game.Team.{deref}
use server_game.Game.Roster.{
  change_robot, set_has_real_robot, set_video_url, get_robot_without_real_robot,
}
use server_game.Game.Roster.Available.{registration_is_stable}
use server_game.Callbacks.Messages.{
  Channel, Register, Body, Outgoing, World, reply_message, reply_message-game, reply_message-record,
}
use server_game.Callbacks.Players.{register}

-- The robot once it is registered with a url.
abbrev pub real_with : Text → Robot → Robot
real_with url r = set_video_url url (set_has_real_robot true r)

abbrev pub with_url : Text → ℕ → Game → Game
with_url url robot game =
    change_robot robot (set_video_url url) (change_robot robot (set_has_real_robot true) game)

abbrev pub told : Text → Robot → Team → Outgoing
told id r t = record { routing_id = id; body = Body.registered (some t.name) r.robot_id }

pub with_url-there :
    (url : Text) (robot : ℕ) (game : Game) (r : Robot)
    → get_elem? game.all_robots robot ≡ some r
    → get_elem? (with_url url robot game).all_robots robot ≡ some (real_with url r)
with_url-there url robot game r there =
    get_elem?-modify_self (modify game.all_robots robot (set_has_real_robot true)) robot
      (set_video_url url) (set_has_real_robot true r)
      (get_elem?-modify_self game.all_robots robot (set_has_real_robot true) r there)

real_with-id : (url : Text) (r : Robot) → (real_with url r).robot_id ≡ r.robot_id
unfolding set_video_url set_has_real_robot
real_with-id url r = refl

real_with-team : (url : Text) (r : Robot) → (real_with url r).team ≡ r.team
unfolding set_video_url set_has_real_robot
real_with-team url r = refl

real_with-real_with :
    (url url' : Text) (r : Robot) → real_with url' (real_with url r) ≡ real_with url' r
unfolding set_video_url set_has_real_robot
real_with-real_with url url' r = refl

pub with_url-deref :
    (url : Text) (robot team : ℕ) (game : Game)
    → deref team (with_url url robot game) ≡ deref team game
unfolding deref
with_url-deref url robot team game = refl

told_same : (id url : Text) (r : Robot) (t : Team) → told id (real_with url r) t ≡ told id r t
told_same id url r t = rw (real_with-id url r) refl

pub registers :
    (channel : Channel) (id : Text) (message : Register) (w : World) (game : Game) (robot : ℕ)
    (r : Robot) (t : Team)
    → get_robot_without_real_robot message.temporary_robot_id w.game ≡ ok (game, some robot)
    → get_elem? game.all_robots robot ≡ some r
    → deref r.team game ≡ ok t
    → register channel id message w
      ≡ ok (
          reply_message channel
            (told id r t)
            (record w { game = with_url message.video_url robot game }))
unfolding register
registers channel id message w game robot r t given there team_there =
    rw given (rw there (rw team_there refl))

-- A real robot that registers twice under a temporary id, over one channel and with any urls, is
-- told the same id and the same team both times. It ends up real, with the url of the second time,
-- and otherwise as it was.
pub register_again :
    (channel : Channel) (id : Text) (message : Register) (w : World) (game : Game) (robot : ℕ)
    (r : Robot) (t : Team) (url : Text)
    → IsSorted w.game.robots
    → get_robot_without_real_robot message.temporary_robot_id w.game ≡ ok (game, some robot)
    → get_elem? game.all_robots robot ≡ some r
    → deref r.team game ≡ ok t
    → (first second : World) × (register channel id message w ≡ ok first)
      × (register channel id (record message { video_url = url }) first ≡ ok second)
      × (second
          ≡ reply_message channel (told id r t) (
              reply_message channel
                (told id r t)
                (record w { game = with_url url robot (with_url message.video_url robot game) })))
      × (get_elem? second.game.all_robots robot ≡ some (real_with url r))
register_again channel id message w game robot r t url sorted given there team_there =
    let game' = with_url message.video_url robot game in
    let w' = reply_message channel (told id r t) (record w { game = game' }) in
    let r' = real_with message.video_url r in
    let there' = with_url-there message.video_url robot game r there in
    let kept : w'.game ≡ game' =
      reply_message-game channel (told id r t) (record w { game = game' }) in
    let given' =
      registration_is_stable message.temporary_robot_id w.game game game' robot sorted given refl
        refl in
    (
      w',
      reply_message channel (told id r' t) (record w' { game = with_url url robot game' }),
      registers channel id message w game robot r t given there team_there,
      registers channel id (record message { video_url = url }) w' game' robot r' t
          (ap (λ g. get_robot_without_real_robot message.temporary_robot_id g) kept ∙ given') there'
          (ap (λ team. deref team game') (real_with-team message.video_url r)
            ∙ with_url-deref message.video_url robot r.team game
            ∙ team_there),
      ap (λ m. reply_message channel m (record w' { game = with_url url robot game' }))
            (told_same id message.video_url r t)
          ∙ ap (reply_message channel (told id r t))
              (reply_message-record channel (told id r t) w game' (with_url url robot game')),
      ap (λ (g : Game). get_elem? g.all_robots robot)
            (reply_message-game channel (told id r' t)
              (record w' { game = with_url url robot game' }))
          ∙ with_url-there url robot game' r' there'
          ∙ ap some (real_with-real_with message.video_url url r),
    )
