-- ===== src/Com/Url.antt =====
-- src/orwell/com/Url.cpp. `boost::lexical_cast` of a port to a string is a parameter.
pub mod Consistent
use server_game.Base.{ℕ, Bool, true, false, List, [], ◌∷◌, ◌++◌, if◌then◌else◌}
use server_game.Base.Text.{Text, str}

pub record Url : Type 0 where
  pub protocol : Text
  pub host : Text
  pub port : ℕ
  pub url : Text

module _ (lexical_cast : ℕ → Text) where
  unfoldable pub reset_url : Url → Url
  reset_url u = record u {
    url = u.protocol ++ (str "://" ++ (u.host ++ (str ":" ++ lexical_cast u.port)));
  }

  unfoldable pub make : Text → Text → ℕ → Url
  unfolding reset_url
  make protocol host port =
      reset_url (record { protocol = protocol; host = host; port = port; url = [] })

  unfoldable pub set_protocol : Text → Url → Url
  unfolding reset_url
  set_protocol [] u = u
  set_protocol (c ∷ cs) u = reset_url (record u { protocol = c ∷ cs })

  unfoldable pub set_host : Text → Url → Url
  unfolding reset_url
  set_host [] u = u
  set_host (c ∷ cs) u = reset_url (record u { host = c ∷ cs })

  unfoldable pub set_port : ℕ → Url → Url
  unfolding reset_url
  set_port port u = reset_url (record u { port = port })
