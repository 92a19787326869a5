-- ===== src/Callbacks/Kept/Apart.antt =====
-- No two real robots are given the same robot.
use server_game.Base.{
  ℕ, ◌≡◌, refl, sym, ap, ◌∙◌, subst, true, Option, none, some, ok, get_elem?, modify,
  get_elem?-modify_self, get_elem?-modify_ne, arith, inl, inr, Option-cases, Bool-cases,
}
use server_game.Base.Key.{◌==◌, ==_iff}
use server_game.Base.Text.{Text, text_key}
use server_game.Base.StdMap.{find, put, find-put}
use native.Mathlib.Decide.{ℕ_discrete}
use server_game.Game.Types.{Game, Robot, Player}
use server_game.Game.Roster.{
  Entry, entries, first, change_robot, change_player, set_player, set_video_url, set_has_real_robot,
  add_player, get_robot_without_real_robot,
}
use server_game.Game.Roster.Available.{first_cases, first_member, first_robot, unreal}
use server_game.Game.Sound.{IsSound}
use server_game.Game.Sound.Unchanged.{SameNames}
use server_game.Callbacks.Kept.{Kept, settled}
use server_game.Callbacks.Kept.Sound.{IsSound-Kept}

-- The robot of that name is a real one.
abbrev IsReal : Game → Text → Type 0
IsReal g n =
    (p : ℕ) × (r : Robot) × (find n g.robots ≡ some p)
    × (get_elem? g.all_robots p ≡ some r)
    × (r.has_real_robot ≡ true)

-- No two temporary ids are registered under one robot, and each that is registered has a real one.
pub record IsApart (g : Game) : Type 0 where
  pub sound : IsSound g
  pub apart :
      (t u n : Text)
      → find t g.registered_robots ≡ some n
      → find u g.registered_robots ≡ some n
      → t ≡ u
  pub real : (t n : Text) → find t g.registered_robots ≡ some n → IsReal g n

carry :
    (f g : Game)
    → g.registered_robots ≡ f.registered_robots
    → ((n : Text) → IsReal f n → IsReal g n)
    → IsSound g
    → IsApart f
    → IsApart g
carry f g same still v a = record {
  sound = v;
  apart = λ t u n e h. a.apart t u n (ap (find t) (sym same) ∙ e) (ap (find u) (sym same) ∙ h);
  real = λ t n e. still n (a.real t n (ap (find t) (sym same) ∙ e));
}

-- A change that leaves a real robot a real robot.
change_robot-IsReal :
    (i : ℕ) (h : Robot → Robot) (g : Game) (n : Text)
    → ((r : Robot) → r.has_real_robot ≡ true → (h r).has_real_robot ≡ true)
    → IsReal g n
    → IsReal (change_robot i h g) n
change_robot-IsReal i h g n keeps (p, r, named, there, real) = elim (ℕ_discrete i p) [
  | yes here ↦ (
    p,
    h r,
    named,
    subst (λ j. get_elem? (modify g.all_robots j h) p ≡ some (h r)) (sym here)
        (get_elem?-modify_self g.all_robots p h r there),
    keeps r real,
  )
  | no other ↦ (p, r, named, get_elem?-modify_ne g.all_robots i p h other ∙ there, real)
]

linked : (i player : ℕ) (g : Game) → IsApart g → IsApart (change_robot i (set_player player) g)
unfolding set_player
linked i player g a =
    carry g _ refl (λ n. change_robot-IsReal i (set_player player) g n (λ r e. e))
      (IsSound-Kept.robot_linked i player g a.sound) a

carry_fields :
    (f g : Game)
    → g.registered_robots ≡ f.registered_robots
    → g.robots ≡ f.robots
    → g.all_robots ≡ f.all_robots
    → IsSound g
    → IsApart f
    → IsApart g
carry_fields f g registered robots all_robots =
    carry f g registered (λ n (p, r, named, there, real).
      (p, r, ap (find n) robots ∙ named, ap (λ rs. get_elem? rs p) all_robots ∙ there, real))

same-IsApart : (f g : Game) → SameNames f g → IsApart f → IsApart g
same-IsApart f g s a =
    carry_fields f g s.registered s.robots s.all_robots (IsSound-Kept.same f g s a.sound) a

changed :
    (i : ℕ) (f : Player → Player) (g : Game)
    → ((p : Player) → (f p).name ≡ p.name)
    → IsApart g
    → IsApart (change_player i f g)
changed i f g same a = carry g _ refl (λ n r. r) (IsSound-Kept.player_changed i f g same a.sound) a

add_player_fields :
    (name : Text) (g : Game)
    → ((add_player name g).0.registered_robots ≡ g.registered_robots)
      × ((add_player name g).0.robots ≡ g.robots)
      × ((add_player name g).0.all_robots ≡ g.all_robots)
unfolding add_player
add_player_fields name g = ground arith

added : (name : Text) (g : Game) → IsApart g → IsApart (add_player name g).0
added name g a =
    let (registered, robots, all_robots) = add_player_fields name g in
    carry_fields g _ registered robots all_robots (IsSound-Kept.player_added name g a.sound) a

module _ (temporary_id url : Text) (g : Game) (a : IsApart g) where
  told-IsReal :
      (robot : ℕ) (h : Game) (n : Text) → IsReal h n → IsReal (settled url (h, some robot)) n
  unfolding set_video_url set_has_real_robot
  told-IsReal robot h n r =
      change_robot-IsReal robot (set_video_url url) (change_robot robot (set_has_real_robot true) h)
        n (λ x e. e) (change_robot-IsReal robot (set_has_real_robot true) h n (λ x e. refl) r)

  module _ (e : Entry) (found : first unreal (entries g.robots g.all_robots) ≡ some e) where
    named : find e.key g.robots ≡ some e.pointer
    named = first_member unreal g.robots g.all_robots e a.sound.robots_sorted found

    abbrev after : Game
    after = record g { registered_robots = put temporary_id e.key g.registered_robots }

    -- The robot that was free was no registered one.
    free : (t : Text) → find t g.registered_robots ≡ some e.key → ⊥
    free t known = clash (a.real t e.key known)
      where
        clash : IsReal g e.key → ⊥
        clash (p, r, here, there, real) =
            let (there', unreal_one) = first_robot unreal g.robots g.all_robots e found in
            ground (arith, named, here, there, there', real, unreal_one)

    apart_after :
        (t u n : Text)
        → find t after.registered_robots ≡ some n
        → find u after.registered_robots ≡ some n
        → t ≡ u
    apart_after t u n x y =
        let x' = find-put temporary_id t e.key g.registered_robots in
        let y' = find-put temporary_id u e.key g.registered_robots in
        elim (Bool-cases (t == temporary_id)) [
          | inl t_new ↦ elim (Bool-cases (u == temporary_id)) [
            | inl u_new ↦ (==_iff t temporary_id).0 t_new ∙ sym ((==_iff u temporary_id).0 u_new)
            | inr u_old ↦ absurd (free u (ground (arith, x, y, x', y', t_new, u_old)))
          ]
          | inr t_old ↦ elim (Bool-cases (u == temporary_id)) [
            | inl u_new ↦ absurd (free t (ground (arith, x, y, x', y', t_old, u_new)))
            | inr u_old ↦
                a.apart t u n (ground (arith, x, x', t_old)) (ground (arith, y, y', u_old))
          ]
        ]

    taken : IsReal (settled url (after, some e.pointer)) e.key
    unfolding set_video_url set_has_real_robot
    taken =
        let there = (first_robot unreal g.robots g.all_robots e found).0 in
        let once =
          get_elem?-modify_self g.all_robots e.pointer (set_has_real_robot true) e.robot there in
        (
          e.pointer,
          set_video_url url (set_has_real_robot true e.robot),
          named,
          get_elem?-modify_self (modify g.all_robots e.pointer (set_has_real_robot true)) e.pointer
              (set_video_url url) _ once,
          refl,
        )

    after-IsReal :
        (t n : Text)
        → find t after.registered_robots ≡ some n
        → IsReal (settled url (after, some e.pointer)) n
    after-IsReal t n x =
        let x' = find-put temporary_id t e.key g.registered_robots in
        elim (Bool-cases (t == temporary_id)) [
          | inl new ↦
              subst (IsReal (settled url (after, some e.pointer))) (ground (arith, x, x', new))
                taken
          | inr old ↦ told-IsReal e.pointer after n (a.real t n (ground (arith, x, x', old)))
        ]

registered :
    (temporary_id url : Text) (g : Game) (r : Game × Option ℕ)
    → get_robot_without_real_robot temporary_id g ≡ ok r
    → IsApart g
    → IsApart (settled url r)
unfolding get_robot_without_real_robot
registered temporary_id url g r e a = elim (Option-cases (find temporary_id g.registered_robots)) [
  | inr (name, known) ↦ elim (Option-cases (find name g.robots)) [
    | inl gone ↦ absurd (ground (arith, known, gone))
    | inr (p, there) ↦ known_again p (ground (arith, known, there))
  ]
  | inl new ↦ elim (first_cases unreal (entries g.robots g.all_robots)) [
    | inl (nobody, _) ↦ nobody_left (ground (arith, new, nobody))
    | inr (x, found, _) ↦ new_one x found (ground (arith, new, found))
  ]
]
  where
    sound : IsSound (settled url r)
    sound = IsSound-Kept.registered temporary_id url g r e a.sound

    nobody_left : (g, none) ≡ r → IsApart (settled url r)
    nobody_left same = subst (λ s. IsApart (settled url s)) same a

    known_again : (p : ℕ) → (g, some p) ≡ r → IsApart (settled url r)
    known_again p same =
        subst (λ s. IsSound (settled url s) → IsApart (settled url s)) same
          (λ v. carry g _ refl (λ n. told-IsReal temporary_id url g a p g n) v a) sound

    new_one :
        (x : Entry)
        → (found : first unreal (entries g.robots g.all_robots) ≡ some x)
        → (after temporary_id url g a x found, some x.pointer) ≡ r
        → IsApart (settled url r)
    new_one x found same =
        subst (λ s. IsSound (settled url s) → IsApart (settled url s)) same
          (λ v. record {
            sound = v;
            apart = apart_after temporary_id url g a x found;
            real = after-IsReal temporary_id url g a x found;
          })
          sound

pub IsApart-Kept : Kept IsApart
IsApart-Kept = record {
  same = same-IsApart;
  robot_linked = linked;
  player_changed = changed;
  player_added = added;
  registered = registered;
}
