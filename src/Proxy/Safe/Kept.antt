-- ===== src/Proxy/Safe/Kept.antt =====
-- What the member functions of the agent proxy do to the game keeps it sound.
use server_game.Base.{
  ℕ, ◌≡◌, refl, sym, arith, ◌⊎◌, inl, inr, Bool, true, false, Option, none, some, Result, ok,
  bad_cast, dangling, or_fault, if◌then◌else◌, ◌>>=◌, >>=-ok, ok-injective, subst, Option-cases,
}
use server_game.Base.Key.{◌==◌}
use server_game.Base.Text.{Text, str, text_key}
use server_game.Base.StdMap.{find}
use server_game.Base.Pointers.{Named-modify}
use server_game.Game.Types.{Game, Robot, Player, Duration}
use server_game.Game.Team
use server_game.Game.Roster
use server_game.Game.Rules
use server_game.Game.Sound.{IsSound, team_name}
use server_game.Game.Sound.Operations.{Operation, perform, perform-IsSound, stopped, duration_set}
use server_game.Game.Sound.Added.{change_robot-IsSound, change_player-IsSound}
use server_game.Application.State.{
  Application, Host, access_server, pop_port, stop, stop_server, if_there,
}
use server_game.Proxy.Agent
use server_game.Proxy.Agent.{put_game}
use server_game.Proxy.Safe.Yields.{Gives}

-- The game of the server, if there is one, is sound.
abbrev pub SoundServer : Option Host → Type 0
SoundServer none = Unit
SoundServer (some host) = IsSound host.game

abbrev pub HasSoundGame : Application → Type 0
HasSoundGame app = SoundServer app.server

abbrev pub KeepsSound : (Game → Result Game) → Type 0
KeepsSound f = (g h : Game) → f g ≡ ok h → IsSound g → IsSound h

pub with_game-Gives :
    (f : Game → Result Game) (app : Application)
    → KeepsSound f
    → HasSoundGame app
    → Gives HasSoundGame (Agent.with_game f app)
unfolding Agent.with_game
with_game-Gives f app k v b e =
    let (host, e1, e2) = >>=-ok (access_server app) _ e in
    let (g, e3, e4) = >>=-ok (f host.game) _ e2 in
    subst HasSoundGame (ok-injective e4) (k host.game g e3 (sound_host app.server host e1 v))
  where
    sound_host :
        (s : Option Host) (host : Host)
        → or_fault dangling s ≡ ok host
        → SoundServer s
        → IsSound host.game
    sound_host none host e v = cc
    sound_host (some other) host e v = subst (λ h. IsSound h.game) (ok-injective e) v

stopped_server :
    (app : Application)
    → ((stop app).0.server ≡ app.server) ⊎ ((stop app).0.server ≡ if_there stop_server app.server)
unfolding stop
stopped_server app = ground arith

stop_server-Sound : (s : Option Host) → SoundServer s → SoundServer (if_there stop_server s)
unfolding stop_server perform
stop_server-Sound none v = v
stop_server-Sound (some host) v = perform-IsSound stopped host.game _ refl v

pub stop-HasSoundGame : (app : Application) → HasSoundGame app → HasSoundGame (stop app).0
stop-HasSoundGame app v = elim (stopped_server app) [
  | inl same ↦ subst SoundServer (sym same) v
  | inr other ↦ subst SoundServer (sym other) (stop_server-Sound app.server v)
]

pop_port-server : (app : Application) → (pop_port app).0.server ≡ app.server
unfolding pop_port
pop_port-server app = ground arith

pub pop_port-HasSoundGame : (app : Application) → HasSoundGame app → HasSoundGame (pop_port app).0
pop_port-HasSoundGame app v = subst SoundServer (sym (pop_port-server app)) v

pub robot-KeepsSound :
    (name : Text) (f : Robot → Robot)
    → ((r : Robot) → ((f r).name ≡ r.name) × ((f r).robot_id ≡ r.robot_id))
    → KeepsSound (Agent.change_robot_named name f)
robot-KeepsSound name f same g h e v =
    let (i, e1, e2) = >>=-ok (Roster.access_robot name g) _ e in
    subst IsSound (ok-injective e2) (change_robot-IsSound i f g same v)

pub player-KeepsSound :
    (name : Text) (f : Player → Player)
    → ((p : Player) → (f p).name ≡ p.name)
    → KeepsSound (Agent.change_player_named name f)
player-KeepsSound name f same g h e v =
    let (i, e1, e2) = >>=-ok (Roster.access_player name g) _ e in
    subst IsSound (ok-injective e2) (change_player-IsSound i f g same v)

score-IsSound :
    (score : ℕ) (name : Text) (g : Game) → IsSound g → IsSound (Agent.change_score score name g)
unfolding Agent.change_score Team.set_score
score-IsSound score name g v = elim (Option-cases (find name g.teams)) [
  | inl miss ↦ rw (Agent.change_score, miss) v
  | inr (t, hit) ↦
      rw (Agent.change_score, hit)
        (record {
          robots_sorted = v.robots_sorted;
          ids_sorted = v.ids_sorted;
          players_sorted = v.players_sorted;
          teams_sorted = v.teams_sorted;
          robots_named = v.robots_named;
          ids_named = v.ids_named;
          players_named = v.players_named;
          teams_named =
              Named-modify team_name g.teams g.all_teams t (Team.set_score score) (λ x _. refl)
                v.teams_named;
        })
]

abbrev pub Sounds : Result Game → Type 0
Sounds r = (h : Game) → r ≡ ok h → IsSound h

if-Sounds : (b : Bool) (r s : Result Game) → Sounds r → Sounds s → Sounds (if b then r else s)
if-Sounds true r s hr hs = hr
if-Sounds false r s hr hs = hs

pub kept-Sounds : (g : Game) → IsSound g → Sounds (ok g)
kept-Sounds g v h e = subst IsSound (ok-injective e) v

pub if-IsSound : (b : Bool) (g h : Game) → IsSound g → IsSound h → IsSound (if b then g else h)
if-IsSound true g h v w = v
if-IsSound false g h v w = w

pub score_set-KeepsSound :
    (lexical_u32 : Text → Option ℕ) (name property value : Text)
    → KeepsSound (Agent.score_set lexical_u32 name property value)
unfolding Agent.score_set
score_set-KeepsSound lexical_u32 name property value g h e v =
    if-Sounds (Team.same_team Team.neutral (Team.get_team name g)) (ok g) _ (kept-Sounds g v)
      (if-Sounds (property == str "score") _ (ok g) scored (kept-Sounds g v)) h e
  where
    scored :
        Sounds
          (or_fault bad_cast (lexical_u32 value) >>= λ score. ok (Agent.change_score score name g))
    scored k f =
        let (score, e1, e2) = >>=-ok (or_fault bad_cast (lexical_u32 value)) _ f in
        subst IsSound (ok-injective e2) (score-IsSound score name g v)

-- A call whose game operation is one of those that the invariant was proved of.
pub operation-KeepsSound : (op : Operation) → KeepsSound (perform op)
operation-KeepsSound op g h e v = perform-IsSound op g h e v

pub set_video_url-same :
    (b : Bool) (value : Text) (r : Robot)
    → ((if b then Roster.set_video_url value r else r).name ≡ r.name)
      × ((if b then Roster.set_video_url value r else r).robot_id ≡ r.robot_id)
unfolding Roster.set_video_url
set_video_url-same true value r = (refl, refl)
set_video_url-same false value r = (refl, refl)

pub set_address-same :
    (b : Bool) (value : Text) (p : Player)
    → (if b then Roster.set_address value p else p).name ≡ p.name
unfolding Roster.set_address
set_address-same true value p = refl
set_address-same false value p = refl

pub set_duration-IsSound : (d : Duration) (g : Game) → IsSound g → IsSound (Rules.set_duration d g)
unfolding perform
set_duration-IsSound d g v = perform-IsSound (duration_set d) g _ refl v

-- A property of the application that is kept where the game of its server is changed by what keeps
-- a sound game sound, where it is stopped, and where a port is popped.
pub record Held (P : Application → Type 0) : Type 0 where
  pub game_changed :
      (f : Game → Result Game) (app : Application)
      → KeepsSound f
      → P app
      → Gives P (Agent.with_game f app)
  pub stopped : (app : Application) → P app → P (stop app).0
  pub port_popped : (app : Application) → P app → P (pop_port app).0

pub HasSoundGame-Held : Held HasSoundGame
HasSoundGame-Held = record {
  game_changed = with_game-Gives;
  stopped = stop-HasSoundGame;
  port_popped = pop_port-HasSoundGame;
}
