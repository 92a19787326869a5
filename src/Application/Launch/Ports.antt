-- ===== src/Application/Launch/Ports.antt =====
-- How Application::initServer hands out the video ports.
use server_game.Base.{
  ℕ, suc, ◌+◌, ◌*◌, ◌≤◌, ◌<◌, ◌≡◌, refl, sym, ap, ◌∙◌, subst, inl, inr, Bool, true, some, List, [],
  ◌∷◌, ◌++◌, ok, dangling, or_fault, if◌then◌else◌, >>=-ok, ok-injective, length, Option-cases,
  Result-cases, Bool-cases, arith, All,
}
use server_game.Base.Key.{nat_key}
use server_game.Base.Count.{
  hit, count, count-append, Distinct, Distinct-of_count, count-le-one, All-of_count,
}
use server_game.Base.Int.{ℤ}
use server_game.Base.Text.{Text, text_key}
use server_game.Base.StdMap.{Map, find}
use server_game.Game.Types.{Game, Robot, Registry, Time}
use server_game.Game.Team
use server_game.Game.Item.{is_empty}
use server_game.Game.Roster
use server_game.Game.Roster.{make_robot, enter_robot, get_new_robot_id}
use server_game.Game.Rules
use server_game.Application.State.{Application, Host, pop_back, pop_port}
use server_game.Application.Options.{Parameters, RobotEntry}
use server_game.Application.Consistency.{check_parameters_consistency}
use server_game.Application.Consistency.Distinct.{check_ports-true}
use server_game.Application.Launch.{enter_teams, enter_robots, enter_items, new_game, init_server}

-- The two ports of each robot.
abbrev pub ports_of : List Robot → List ℕ
ports_of [] = []
ports_of (r ∷ rs) = r.video_retransmission_port ∷ r.server_command_port ∷ ports_of rs

ports_of-append : (rs ss : List Robot) → ports_of (rs ++ ss) ≡ ports_of rs ++ ports_of ss
ports_of-append [] ss = refl
ports_of-append (r ∷ rs) ss =
    ap (λ ps. r.video_retransmission_port ∷ r.server_command_port ∷ ps) (ports_of-append rs ss)

pop_back-count :
    (q : ℕ) (ps : List ℕ)
    → 0 < length ps
    → (rest : List ℕ) × (p : ℕ) × (pop_back ps ≡ some (rest, p))
      × (count q rest + hit q p ≡ count q ps)
      × (suc (length rest) ≡ length ps)
pop_back-count q [] h = elim h [ ]
pop_back-count q (p ∷ []) h = ([], p, refl, ground arith, refl)
pop_back-count q (p ∷ r ∷ rs) h =
    let (rest, last, e, c, l) = pop_back-count q (r ∷ rs) (omega arith) in
    (p ∷ rest, last, ground (arith, e), omega (arith, c), omega (arith, l))

pop_port-count :
    (q : ℕ) (app : Application)
    → 0 < length app.available_ports
    → (count q (pop_port app).0.available_ports + hit q (pop_port app).1
        ≡ count q app.available_ports)
      × (suc (length (pop_port app).0.available_ports) ≡ length app.available_ports)
unfolding pop_port
pop_port-count q app h =
    let (rest, p, e, c, l) = pop_back-count q app.available_ports h in rw (e, pop_port) (c, l)

add_robot-ports :
    (q : ℕ) (name team : Text) (video command : ℕ) (id : Text) (g : Game) (r : Game × Bool)
    → Roster.add_robot name team video command id g ≡ ok r
    → count q (ports_of r.0.all_robots)
      ≤ count q (ports_of g.all_robots) + (hit q video + hit q command)
unfolding Roster.add_robot enter_robot
add_robot-ports q name team video command id g r e = elim (Option-cases (find name g.robots)) [
  | inr (a, old) ↦ refused (ground (arith, old))
  | inl new ↦ elim (Result-cases (if is_empty id then get_new_robot_id g else ok id)) [
    | inr (x, fails) ↦ absurd (ground (arith, new, fails))
    | inl (id', given) ↦ elim (Option-cases (find team g.teams)) [
      | inl gone ↦ refused (ground (arith, new, given, gone))
      | inr (t, there) ↦ entered id' t (ground (arith, new, given, there))
    ]
  ]
]
  where
    bound : ℕ
    bound = count q (ports_of g.all_robots) + (hit q video + hit q command)

    refused : g ≡ r.0 → count q (ports_of r.0.all_robots) ≤ bound
    refused same = subst (λ h. count q (ports_of h.all_robots) ≤ bound) same (omega arith)

    entered :
        (id' : Text) (t : ℕ)
        → enter_robot name t video command id' g ≡ r.0
        → count q (ports_of r.0.all_robots) ≤ bound
    entered id' t same =
        subst (λ h. count q (ports_of h.all_robots) ≤ bound) same
          (rw (ports_of-append g.all_robots (make_robot name id' t video command ∷ []))
            (omega (arith, count-append q (ports_of g.all_robots) (video ∷ command ∷ []))))

module _ (q : ℕ) (video_first : Bool) where
  -- The ports of the robots and those that are left.
  abbrev total : Application × Game → ℕ
  total r = count q (ports_of r.1.all_robots) + count q r.0.available_ports

  swapped :
      (first second : ℕ)
      → hit q (if video_first then first else second)
          + hit q (if video_first then second else first)
        ≡ hit q first + hit q second
  swapped first second = elim (Bool-cases video_first) [
    | inl e ↦ rw e refl
    | inr e ↦ rw e (omega arith)
  ]

  enter_robots-total :
      (robots : Map Text RobotEntry) (app : Application) (g : Game) (r : Application × Game)
      → 2 * length robots ≤ length app.available_ports
      → enter_robots video_first robots app g ≡ ok r
      → total r ≤ total (app, g)
  unfolding enter_robots
  enter_robots-total [] app g r enough e =
      subst (λ x. total x ≤ total (app, g)) (ok-injective e) (omega arith)
  enter_robots-total ((id, robot) ∷ rest) app g r enough e =
      let (c1, l1) = pop_port-count q app (omega arith) in
      let app' = (pop_port app).0 in
      let first = (pop_port app).1 in
      let (c2, l2) = pop_port-count q app' (omega arith) in
      let app'' = (pop_port app').0 in
      let second = (pop_port app').1 in
      let (h, added, e') = >>=-ok (Roster.add_robot robot.name robot.team _ _ id g) _ e in
      let here = add_robot-ports q robot.name robot.team _ _ id g h added in
      let later = enter_robots-total rest app'' h.0 r (omega arith) e' in
      let same = swapped first second in omega (arith, here, later, same)

add_team-robots : (n : Text) (g : Game) → (Team.add_team n g).0.all_robots ≡ g.all_robots
unfolding Team.add_team
add_team-robots n g = ground arith

enter_teams-robots :
    (names : List Text) (g : Game) → (enter_teams names g).all_robots ≡ g.all_robots
unfolding enter_teams
enter_teams-robots [] g = refl
enter_teams-robots (name ∷ rest) g =
    enter_teams-robots rest (Team.add_team name g).0 ∙ add_team-robots name g

enough_ports :
    (p : Parameters)
    → check_parameters_consistency p ≡ ok true
    → 2 * length p.robots ≤ length p.video_ports
unfolding check_parameters_consistency
enough_ports p e =
    let (publisher, _, e1) = >>=-ok (or_fault dangling p.options.publisher_port) _ e in
    let (puller, _, e2) = >>=-ok (or_fault dangling p.options.puller_port) _ e1 in
    let (agent, _, e3) = >>=-ok (or_fault dangling p.options.agent_port) _ e2 in
    let (replier, _, e4) = >>=-ok (or_fault dangling p.options.replier_port) _ e3 in
    let (broadcast, _, e5) = >>=-ok (or_fault dangling p.options.broadcast_port) _ e4 in
    ((check_ports-true _ p).0 (ok-injective e5)).2

some-injective {ℓ} : {A : Type ℓ} {a b : A} → some a ≡ some b → a ≡ b
some-injective h = cc

-- The application with the server that was made.
made_fields :
    (app : Application) (host : Host) (app' : Application)
    → ok (record app { server = some host }) ≡ ok app'
    → (app'.available_ports ≡ app.available_ports)
      × ((made : Host) → app'.server ≡ some made → made.game.all_robots ≡ host.game.all_robots)
made_fields app host app' e =
    let same = ok-injective e in
    (
      sym (ap (λ (a : Application). a.available_ports) same),
      λ made there.
          ap (λ (h : Host). h.game.all_robots)
            (some-injective (sym there ∙ sym (ap (λ (a : Application). a.server) same))),
    )

module _ (video_first : Bool) (unset : Time) (items : Registry) where
  -- The parts of `initServer` that returns.
  init_server-ok :
      (p : Parameters) (app app' : Application)
      → init_server video_first unset items p app ≡ ok app'
      → (duration : ℤ) × (r : Application × Game) × (enter_robots video_first p.robots
            (record app { available_ports = p.video_ports })
            (enter_teams p.teams (new_game video_first unset items p duration))
          ≡ ok r)
        × (app'.available_ports ≡ r.0.available_ports)
        × ((host : Host) → app'.server ≡ some host → host.game.all_robots ≡ r.1.all_robots)
  unfolding init_server Rules.set_map_limits
  init_server-ok p app app' e =
      let (agent, _, e1) = >>=-ok (or_fault dangling p.options.agent_port) _ e in
      let (publisher, _, e2) = >>=-ok (or_fault dangling p.options.publisher_port) _ e1 in
      let (puller, _, e3) = >>=-ok (or_fault dangling p.options.puller_port) _ e2 in
      let (replier, _, e4) = >>=-ok (or_fault dangling p.options.replier_port) _ e3 in
      let (tick, _, e5) = >>=-ok (or_fault dangling p.options.tick_interval) _ e4 in
      let (duration, _, e6) = >>=-ok (or_fault dangling p.options.game_duration) _ e5 in
      let (r, entered, e7) = >>=-ok (enter_robots video_first p.robots _ _) _ e6 in
      let (items', _, e8) = >>=-ok (enter_items p.items p.rules r.1.items) _ e7 in
      let (left, given) = made_fields r.0 _ app' e8 in (duration, r, entered, left, given)

  -- Parameters that pass the check, whose video ports are distinct: once `initServer` has returned,
  -- no port is given to two robots, or twice to one, and none of those given is left over. Each of
  -- them is one of the video ports.
  pub init_server-Distinct :
      (p : Parameters) (app app' : Application) (host : Host)
      → check_parameters_consistency p ≡ ok true
      → Distinct p.video_ports
      → init_server video_first unset items p app ≡ ok app'
      → app'.server ≡ some host
      → Distinct (ports_of host.game.all_robots ++ app'.available_ports)
        × All (λ q. 0 < count q p.video_ports) (ports_of host.game.all_robots)
  init_server-Distinct p app app' host consistent apart e there =
      let (duration, r, entered, left, given) = init_server-ok p app app' e in
      let g = enter_teams p.teams (new_game video_first unset items p duration) in
      let none_yet : g.all_robots ≡ [] = enter_teams-robots p.teams _ in
      let bound : (q : ℕ)
          → count q (ports_of host.game.all_robots) + count q app'.available_ports
            ≤ count q p.video_ports =
        λ q.
          let robots = ap (λ rs. count q (ports_of rs)) (given host there) in
          let rest = ap (count q) left in
          let before = ap (λ rs. count q (ports_of rs)) none_yet in
          let kept =
            enter_robots-total q video_first p.robots
              (record app { available_ports = p.video_ports }) g r (enough_ports p consistent)
              entered in
          omega (arith, robots, rest, before, kept) in
      (
        Distinct-of_count _ (λ q. omega (
          arith,
          bound q,
          count-le-one p.video_ports apart q,
          count-append q (ports_of host.game.all_robots) app'.available_ports,
        )),
        All-of_count (ports_of host.game.all_robots) _ (λ q. omega (arith, bound q)),
      )
