-- ===== src/Application/Compare/Blind.antt =====
-- What the comparison of parameters looks at, and what it does not.
use server_game.Base.{
  refl, ◌≡◌, ◌↔◌, ap, Bool, true, false, none, some, [], ◌∷◌, length, arith, ◌&&◌, Option-cases,
  inl, inr,
}
use server_game.Base.Int.{int_key}
use server_game.Base.Key.{Key, ◌==◌, ==_iff, nat_key}
use server_game.Base.Text.{Text, text_key}
use server_game.Base.StdMap.{Map, find}
use server_game.Base.StdMap.Order.{IsSorted}
use server_game.Base.StdMap.Same.{Decides, Included, Included-eq, Included-refl}
use server_game.Application.Options.{Parameters}
use server_game.Application.Compare.{
  same_bool, same_option, same_list, same_coordinates, same_colour, same_landmark, same_robot,
  same_item, same_entries, same_map, same_parameters,
}

==-Decides {ℓ} : {K : Type ℓ} ⦃k : Key K⦄ → Decides {A = K} ◌==◌
==-Decides a b = ==_iff a b

same_bool-Decides : Decides same_bool
same_bool-Decides true b = ground arith
same_bool-Decides false b = ground arith

module _ {ℓ} {A : Type ℓ} (eq : A → A → Bool) (d : Decides eq) where
  same_option-Decides : Decides (same_option eq)
  same_option-Decides none none = ground arith
  same_option-Decides none (some b) = ground arith
  same_option-Decides (some a) none = ground arith
  same_option-Decides (some a) (some b) = ground (arith, d a b)

  same_list-Decides : Decides (same_list eq)
  same_list-Decides [] [] = ground arith
  same_list-Decides [] (y ∷ ys) = ground arith
  same_list-Decides (x ∷ xs) [] = ground arith
  same_list-Decides (x ∷ xs) (y ∷ ys) = ground (arith, d x y, same_list-Decides xs ys)

  entries-Included : (m n : Map Text A) → (same_entries eq m n ≡ true) ↔ Included m n
  unfolding same_entries
  entries-Included [] n = ground arith
  entries-Included ((key, v) ∷ m) n = elim (Option-cases (find key n)) [
    | inl e ↦ ground (arith, e)
    | inr (w, e) ↦ ground (arith, e, d v w, entries-Included m n)
  ]

  same_map-Decides :
      (m n : Map Text A) → IsSorted m → IsSorted n → (same_map eq m n ≡ true) ↔ (m ≡ n)
  unfolding same_map
  same_map-Decides m n s t = (
    λ e. Included-eq m n s t (ground (arith, e)) ((entries-Included m n).0 (ground (arith, e))),
    λ e. both (ap length e) ((entries-Included m n).1 (rw e (Included-refl n t))),
  )
    where
      both :
          length m ≡ length n
          → same_entries eq m n ≡ true
          → ((length m == length n) && same_entries eq m n) ≡ true
      both l e = ground (arith, l, e)

same_landmark-Decides : Decides same_landmark
unfolding same_landmark same_coordinates same_colour
same_landmark-Decides a b = ground arith

same_robot-Decides : Decides same_robot
unfolding same_robot
same_robot-Decides a b = ground (arith, ==_iff a.name b.name, ==_iff a.team b.team)

same_item-Decides : Decides same_item
unfolding same_item
same_item-Decides a b = ground (
  arith,
  ==_iff a.name b.name,
  ==_iff a.type b.type,
  same_list-Decides ◌==◌ ==-Decides a.rfids b.rfids,
  ==_iff a.colour b.colour,
)

-- Two parameters agree in all that operator== looks at.
pub record Agree (a b : Parameters) : Type 0 where
  pub puller_port : a.options.puller_port ≡ b.options.puller_port
  pub publisher_port : a.options.publisher_port ≡ b.options.publisher_port
  pub agent_port : a.options.agent_port ≡ b.options.agent_port
  pub video_ports : a.video_ports ≡ b.video_ports
  pub tick_interval : a.options.tick_interval ≡ b.options.tick_interval
  pub rc_file_path : a.options.rc_file_path ≡ b.options.rc_file_path
  pub game_file_path : a.options.game_file_path ≡ b.options.game_file_path
  pub dry_run : a.options.dry_run ≡ b.options.dry_run
  pub broadcast : a.options.broadcast ≡ b.options.broadcast
  pub robots : a.robots ≡ b.robots
  pub items : a.items ≡ b.items
  pub teams : a.teams ≡ b.teams
  pub map_limits : a.map_limits ≡ b.map_limits
  pub broadcast_port : a.options.broadcast_port ≡ b.options.broadcast_port

and_iff {ℓ κ} :
    {A : Type ℓ} {B : Type κ} (x y : Bool)
    → (x ≡ true) ↔ A
    → (y ≡ true) ↔ B
    → ((x && y) ≡ true) ↔ (A × B)
and_iff true y f g = (λ e. (f.0 refl, g.0 e), λ p. g.1 p.1)
and_iff false y f g = (λ e. cc, λ p. f.1 p.0)

-- Where the maps of the robots and of the items are in order, operator== on Parameters holds
-- exactly where the two agree in the ports of the puller, the publisher, the agent and the
-- broadcast, in the video ports, the tick interval, the paths, the two flags, the robots, the
-- items, the teams and the limits of the map. The port of the replier, the duration and the rules
-- of the game make no difference.
pub same_parameters_iff :
    (a b : Parameters)
    → IsSorted a.robots
    → IsSorted b.robots
    → IsSorted a.items
    → IsSorted b.items
    → (same_parameters a b ≡ true) ↔ Agree a b
unfolding same_parameters
same_parameters_iff a b ra rb ia ib =
    let o = a.options in
    let p = b.options in
    let all = and_iff _ _ (same_option-Decides ◌==◌ ==-Decides o.puller_port p.puller_port) (
      and_iff _ _ (same_option-Decides ◌==◌ ==-Decides o.publisher_port p.publisher_port) (
        and_iff _ _ (same_option-Decides ◌==◌ ==-Decides o.agent_port p.agent_port) (
          and_iff _ _ (same_list-Decides ◌==◌ ==-Decides a.video_ports b.video_ports) (
            and_iff _ _ (same_option-Decides ◌==◌ ==-Decides o.tick_interval p.tick_interval) (
              and_iff _ _ (same_option-Decides ◌==◌ ==-Decides o.rc_file_path p.rc_file_path) (
                and_iff _ _ (same_option-Decides ◌==◌ ==-Decides o.game_file_path p.game_file_path)
                  (and_iff _ _ (same_option-Decides same_bool same_bool-Decides o.dry_run p.dry_run)
                    (and_iff _ _
                      (same_option-Decides same_bool same_bool-Decides o.broadcast p.broadcast)
                      (and_iff _ _
                        (same_map-Decides same_robot same_robot-Decides a.robots b.robots ra rb)
                        (and_iff _ _
                          (same_map-Decides same_item same_item-Decides a.items b.items ia ib)
                          (and_iff _ _ (same_list-Decides ◌==◌ ==-Decides a.teams b.teams) (
                            and_iff _ _
                              (same_list-Decides same_landmark same_landmark-Decides a.map_limits
                                b.map_limits)
                              (same_option-Decides ◌==◌ ==-Decides o.broadcast_port
                                p.broadcast_port))))))))))))) in
    (
      λ e.
          let (
            c1,
            (c2, (c3, (c4, (c5, (c6, (c7, (c8, (c9, (c10, (c11, (c12, (c13, c14)))))))))))),
          ) =
            all.0 e in
          record {
            puller_port = c1;
            publisher_port = c2;
            agent_port = c3;
            video_ports = c4;
            tick_interval = c5;
            rc_file_path = c6;
            game_file_path = c7;
            dry_run = c8;
            broadcast = c9;
            robots = c10;
            items = c11;
            teams = c12;
            map_limits = c13;
            broadcast_port = c14;
          },
      λ h. all.1 (
        h.puller_port,
        (
          h.publisher_port,
          (
            h.agent_port,
            (
              h.video_ports,
              (
                h.tick_interval,
                (
                  h.rc_file_path,
                  (
                    h.game_file_path,
                    (
                      h.dry_run,
                      (
                        h.broadcast,
                        (h.robots, (h.items, (h.teams, (h.map_limits, h.broadcast_port)))),
                      ),
                    ),
                  ),
                ),
              ),
            ),
          ),
        ),
      ),
    )
