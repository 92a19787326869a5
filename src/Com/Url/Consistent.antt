-- ===== src/Com/Url/Consistent.antt =====
-- The text of a url always agrees with its parts.
use server_game.Base.{ℕ, ◌≡◌, refl, List, [], ◌∷◌, ◌++◌}
use server_game.Base.Text.{Text, str}
use server_game.Com.Url.{Url, make, set_protocol, set_host, set_port}

pub data Setter : Type 0 where
  protocol_set host_set : Text → Setter
  port_set : ℕ → Setter

-- The part that a setter leaves: an empty protocol or host is refused.
abbrev pub or_old : Text → Text → Text
or_old [] old = old
or_old (c ∷ cs) old = c ∷ cs

module _ (lexical_cast : ℕ → Text) where
  pub apply : Setter → Url → Url
  apply (protocol_set p) = set_protocol lexical_cast p
  apply (host_set h) = set_host lexical_cast h
  apply (port_set n) = set_port lexical_cast n

  pub apply_all : List Setter → Url → Url
  apply_all [] u = u
  apply_all (s ∷ ss) u = apply_all ss (apply s u)

  -- What the setters make of the three parts.
  abbrev pub parts : List Setter → Text × Text × ℕ → Text × Text × ℕ
  parts [] t = t
  parts (protocol_set p ∷ ss) t = parts ss (or_old p t.0, t.1, t.2)
  parts (host_set h ∷ ss) t = parts ss (t.0, or_old h t.1, t.2)
  parts (port_set n ∷ ss) t = parts ss (t.0, t.1, n)

  abbrev pub joined : Text × Text × ℕ → Text
  joined t = t.0 ++ (str "://" ++ (t.1 ++ (str ":" ++ lexical_cast t.2)))

  abbrev IsConsistent : Url → Text × Text × ℕ → Type 0
  IsConsistent u t = (u.protocol ≡ t.0) × (u.host ≡ t.1) × (u.port ≡ t.2) × (u.url ≡ joined t)

  apply_all-IsConsistent :
      (ss : List Setter) (u : Url) (t : Text × Text × ℕ)
      → IsConsistent u t
      → IsConsistent (apply_all ss u) (parts ss t)
  unfolding apply_all apply set_protocol set_host set_port
  apply_all-IsConsistent [] u t c = c
  apply_all-IsConsistent (protocol_set [] ∷ ss) u t c = apply_all-IsConsistent ss u t c
  apply_all-IsConsistent (protocol_set (x ∷ xs) ∷ ss) u t c =
      apply_all-IsConsistent ss _ (x ∷ xs, t.1, t.2) (refl, c.1, c.2, cc)
  apply_all-IsConsistent (host_set [] ∷ ss) u t c = apply_all-IsConsistent ss u t c
  apply_all-IsConsistent (host_set (x ∷ xs) ∷ ss) u t c =
      apply_all-IsConsistent ss _ (t.0, x ∷ xs, t.2) (c.0, refl, c.2, cc)
  apply_all-IsConsistent (port_set n ∷ ss) u t c =
      apply_all-IsConsistent ss _ (t.0, t.1, n) (c.0, c.1, refl, cc)

  -- Whatever setters are called on a new url, its protocol, host and port are the last ones that
  -- were set (an empty protocol or host is ignored), and its text is made of just these.
  pub apply_all_consistent :
      (ss : List Setter) (protocol host : Text) (port : ℕ)
      → let u = apply_all ss (make lexical_cast protocol host port) in
        let t = parts ss (protocol, host, port) in
        (u.protocol ≡ t.0) × (u.host ≡ t.1) × (u.port ≡ t.2) × (u.url ≡ joined t)
  unfolding make
  apply_all_consistent ss protocol host port =
      apply_all-IsConsistent ss _ (protocol, host, port) (refl, refl, refl, refl)
