-- ===== src/Application/Config.antt =====
-- The technical and the game configuration in src/orwell/Application.cpp, with Ruleset::parseConfig
-- and the ParseConfig of Landmark, Coordinates and RGBColour. What boost::property_tree finds under
-- a path is a record of functions; `get` throws where `get_optional` finds nothing.
pub mod VideoPorts
pub mod Tokens
use server_game.Base.{
  ℕ, zero, suc, ◌+◌, ◌%◌, ◌^◌, Bool, true, false, Option, none, some, List, [], ◌∷◌, ◌++◌, Result,
  ok, err, endless, runtime_error, or_fault, leb, ltb, if◌then◌else◌, ◌||◌, ◌>>=◌,
}
use server_game.Base.Int.{ℤ, pos}
use server_game.Base.Key.{◌==◌, nat_key}
use server_game.Base.Text.{Text, str, text_key}
use server_game.Proxy.Stream.{open_text, extract_number, extract_char}
use server_game.Application.Options.{Options, Parameters, or_else, map_option}

-- The values at a path, by the type that they are read as.
pub record Tree : Type 0 where
  pub text_at : Text → Option Text
  pub u8_at : Text → Option ℕ
  pub u16_at : Text → Option ℕ
  pub u32_at : Text → Option ℕ
  pub u64_at : Text → Option ℕ
  pub i32_at : Text → Option ℤ

-- `get`
abbrev pub get {ℓ} : {A : Type ℓ} → Option A → Result A
get o = or_fault runtime_error o

abbrev pub is_separator : ℕ → Bool
is_separator c = c == b'|' || c == b' '

-- A token that is not empty, behind the others.
abbrev pub flushed : Text → List Text → List Text
flushed [] tokens = tokens
flushed (c ∷ cs) tokens = tokens ++ (c ∷ cs) ∷ []

-- The loop over the bytes, with the token so far.
unfoldable pub tokens_from : Text → Text → List Text → List Text
tokens_from [] token tokens = flushed token tokens
tokens_from (c ∷ cs) token tokens = elim (is_separator c) [
  | true ↦ tokens_from cs [] (flushed token tokens)
  | false ↦ tokens_from cs (token ++ c ∷ []) tokens
]

-- Application::Tokenize
unfoldable pub tokenize : Text → List Text
unfolding tokens_from
tokenize s = tokens_from s [] []

-- The loop over the range of the video ports, an uint16_t; each port goes in front.
unfoldable pub video_range : ℕ → ℕ → ℕ → List ℕ → Result (List ℕ)
video_range zero i last ports = err endless
video_range (suc fuel) i last ports =
    let rest = video_range fuel ((i + 1) % 2 ^ 16) last (i ∷ ports) in
    if leb i last then rest else ok ports

-- There are 2 ^ 16 values that the index can take.
unfoldable pub video_ports : ℕ → ℕ → List ℕ → Result (List ℕ)
unfolding video_range
video_ports first last ports = video_range (suc (2 ^ 16)) first last ports

-- The first number, a separator and the last one, if it is there and not zero.
unfoldable pub range_of : Text → ℕ × ℕ
range_of s =
    let (first, s1) = extract_number 16 0 (open_text s) in
    let (separator, s2) = extract_char 0 s1 in
    let (last, s3) = extract_number 16 0 s2 in (first, if last == 0 then first else last)

-- The video ports of the file; without them, or with a bad range, the parameters are refused.
unfoldable pub read_video_ports : Tree → List ℕ → Result (Option (List ℕ))
unfolding range_of video_ports
read_video_ports t [] = elim (t.text_at (str "server.video-ports")) [
  | none ↦ ok none
  | some s ↦
      if ltb (range_of s).1 (range_of s).0
      then ok none
      else (video_ports (range_of s).0 (range_of s).1 [] >>= λ ports. ok (some ports))
]
read_video_ports t (p ∷ ps) = ok (some (p ∷ ps))

abbrev pub with_file : Tree → Options → Options
with_file t o = record o {
  publisher_port = or_else o.publisher_port (t.u16_at (str "server.publisher-port"));
  puller_port = or_else o.puller_port (t.u16_at (str "server.puller-port"));
  agent_port = or_else o.agent_port (t.u16_at (str "server.agent-port"));
  replier_port = or_else o.replier_port (t.u16_at (str "server.replier-port"));
  tick_interval = or_else o.tick_interval (map_option pos (t.u16_at (str "server.tic-interval")));
}

abbrev pub with_broadcast_port : Tree → Options → Options
with_broadcast_port t o = record o {
  broadcast_port = or_else o.broadcast_port (t.u16_at (str "server.broadcast-port"));
}

-- ParseParametersFromConfigFile; there is no tree where the file could not be read.
unfoldable pub parse_config_file : Option Tree → Parameters → Result (Parameters × Bool)
unfolding read_video_ports
parse_config_file none p = ok (p, false)
parse_config_file (some t) p =
    let q : Parameters = record p { options = with_file t p.options } in
    read_video_ports t p.video_ports >>= λ found. elim found [
      | none ↦ ok (q, false)
      | some ports ↦
          ok (record q { video_ports = ports; options = with_broadcast_port t q.options }, true)
    ]
