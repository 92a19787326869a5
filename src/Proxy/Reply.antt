-- ===== src/Proxy/Reply.antt =====
-- src/orwell/proxy/Reply.cpp, OutputMode.hpp and the values of the json library that are built.
use server_game.Base.{ℕ, Bool, true, false, List, [], ◌∷◌, ◌++◌}
use server_game.Base.Int.{ℤ}
use server_game.Base.Text.{Text}

pub data OutputMode : Type 0 where
  text json : OutputMode

pub data Status : Type 0 where
  empty success failure : Status

pub record Reply : Type 0 where
  pub status : Status
  pub reply : Text

-- Reply::Reply
abbrev pub no_reply : Reply
no_reply = record { status = empty; reply = [] }

-- A text does not mend a failure.
abbrev pub filled : Status → Status
filled empty = success
filled success = success
filled failure = failure

unfoldable pub assign : Text → Reply → Reply
assign s r = record { status = filled r.status; reply = s }

unfoldable pub append : Text → Reply → Reply
append s r = record { status = filled r.status; reply = r.reply ++ s }

unfoldable pub fail_with : Text → Reply → Reply
fail_with s r = record { status = failure; reply = s }

unfoldable pub fail : Reply → Reply
fail r = record r { status = failure }

-- operator bool
abbrev pub succeeded : Reply → Bool
succeeded r = elim r.status [ success ↦ true | _ ↦ false ]

mutual
  pub data Json : Type 0 where
    null : Json
    flag : Bool → Json
    number : ℕ → Json
    signed : ℤ → Json
    string : Text → Json
    array : Jsons → Json
    object : Fields → Json

  pub data Jsons : Type 0 where
    nil : Jsons
    cons : Json → Jsons → Jsons

  pub data Fields : Type 0 where
    end : Fields
    field : Text → Json → Fields → Fields

abbrev pub json_array : List Json → Jsons
json_array [] = nil
json_array (j ∷ js) = cons j (json_array js)

-- `json[key] = value` on a new json.
abbrev pub keyed : Text → Json → Json
keyed key value = object (field key value end)
