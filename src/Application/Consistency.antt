-- ===== src/Application/Consistency.antt =====
-- CheckParametersConsistency in src/orwell/Application.cpp, and ReadParameters, which ends with it.
pub mod Distinct
use server_game.Base.{
  ℕ, ◌*◌, Bool, true, false, Option, none, some, List, [], ◌∷◌, length, Result, ok, dangling,
  runtime_error, or_fault, compare, Ordering, ltb, if◌then◌else◌, ◌&&◌, ◌>>=◌, not, any,
}
use server_game.Base.Int.{int_key}
use server_game.Base.Key.{◌==◌, nat_key}
use server_game.Base.Text.{Text}
use server_game.Game.Item.{is_empty, no_colour}
use server_game.Application.Options.{
  Options, Parameters, ItemEntry, Variables, parse_command_line, with_defaults, default_rc_file,
}
use server_game.Application.Config.{Tree, parse_config_file}
use server_game.Application.GameConfig.{parse_game_config}

-- `std::multimap::insert`, with the keys alone: behind those that are equal.
unfoldable pub insert_port : ℕ → List ℕ → List ℕ
insert_port p [] = p ∷ []
insert_port p (q ∷ qs) = elim (compare p q) [
  | Ordering.lt ↦ p ∷ q ∷ qs
  | Ordering.eq ↦ q ∷ insert_port p qs
  | Ordering.gt ↦ q ∷ insert_port p qs
]

-- `std::adjacent_find`: whether two neighbours are equal.
unfoldable pub has_neighbours : List ℕ → Bool
has_neighbours [] = false
has_neighbours (p ∷ []) = false
has_neighbours (p ∷ q ∷ qs) = elim (p == q) [ true ↦ true | false ↦ has_neighbours (q ∷ qs) ]

abbrev pub badly_configured : Text × ItemEntry → Bool
badly_configured e = not (e.1.colour == no_colour) && not (is_empty e.1.rfids)

-- The checks in their order; each port is known by then.
unfoldable pub check_ports : List ℕ → Parameters → Bool
unfolding insert_port has_neighbours
check_ports ports p =
    if has_neighbours ports
    then false
    else if any (λ q. q == 0) ports
    then false
    else if ltb (length p.video_ports) (2 * length p.robots)
    then false
    else not (any badly_configured p.items)

-- CheckParametersConsistency reads the five ports through their options.
unfoldable pub check_parameters_consistency : Parameters → Result Bool
unfolding insert_port
check_parameters_consistency p = do
  publisher ← or_fault dangling p.options.publisher_port
  puller ← or_fault dangling p.options.puller_port
  agent ← or_fault dangling p.options.agent_port
  replier ← or_fault dangling p.options.replier_port
  broadcast ← or_fault dangling p.options.broadcast_port
  ok (
      check_ports
        (insert_port broadcast
          (insert_port replier (insert_port agent (insert_port puller (insert_port publisher [])))))
        p)

-- What the environment gives to ReadParameters: the variables of the command line, the files by
-- their paths, and the library's split.
pub record Sources : Type 0 where
  pub variables : Option Variables
  pub ini_file : Text → Option Tree
  pub split : Text → List Text

module _ (src : Sources) where
  -- The game file, if there is one with a path that is not empty; nothing catches what is thrown.
  unfoldable pub read_game_file : Parameters → Result Parameters
  read_game_file p = elim p.options.game_file_path [
    | none ↦ ok p
    | some path ↦
        if is_empty path
        then ok p
        else (or_fault runtime_error (src.ini_file path) >>= λ t. parse_game_config t src.split p)
  ]

  abbrev pub rc_file : Options → Option Tree
  rc_file o = elim o.rc_file_path [ none ↦ none | some path ↦ src.ini_file path ]

  -- ReadParameters
  unfoldable pub read_parameters : Parameters → Result (Parameters × Bool)
  unfolding read_game_file
  read_parameters p0 =
      let (p1, parsed) = parse_command_line src.variables p0 in
      let p2 : Parameters = record p1 { options = default_rc_file p1.options } in
      if not parsed
      then ok (p1, false)
      else (parse_config_file (rc_file p2.options) p2 >>= λ r.
          if not r.1 then ok (r.0, false) else (do
            p3 ← read_game_file r.0
            let p4 : Parameters = record p3 { options = with_defaults p3.options }
            consistent ← check_parameters_consistency p4
            ok (p4, consistent)))
