-- ===== src/Broadcast.antt =====
-- src/orwell/BroadcastServer.cpp: the answer to a discovery message. The socket calls around it
-- are the operating system's.
pub mod Decode
pub mod Receiver
use server_game.Base.{ℕ, ◌%◌, ◌^◌, Bool, true, false, List, [], ◌∷◌, ◌++◌, if◌then◌else◌, length}
use server_game.Base.Int.{ℤ, pos, leb_ℤ}
use server_game.Base.Key.{◌==◌, nat_key}
use server_game.Base.Text.{Text}

pub record Urls : Type 0 where
  pub puller_url : Text
  pub publisher_url : Text
  pub replier_url : Text
  pub agent_url : Text

-- A `char const *` ends at its first zero byte.
unfoldable pub c_str : Text → Text
c_str [] = []
c_str (c ∷ cs) = let rest = c ∷ c_str cs in if c == 0 then [] else rest

-- The byte that names a url, the size of the url as a uint8_t, and its text.
unfoldable pub field : ℕ → Text → Text
unfolding c_str
field tag url = tag ∷ (length url % 2 ^ 8) ∷ c_str url

abbrev pub from_version : ℤ → ℤ → Text → Text
from_version least version text = if leb_ℤ least version then text else []

-- What runBroadcastReceiver sends for a version.
unfoldable pub answer : Urls → ℤ → Text
unfolding field
answer urls version =
    from_version (pos 0) version (field 0xA0 urls.puller_url ++ field 0xA1 urls.publisher_url)
    ++ (from_version (pos 1) version (field 0xA2 urls.replier_url)
        ++ (from_version (pos 2) version (field 0xA3 urls.agent_url) ++ (0 ∷ [])))
