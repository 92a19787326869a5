-- ===== src/Base/Decimal.antt =====
-- `std::to_string` on numbers: the decimal digits, with no leading zero.
use Prim.Native.Nat.{ℕ, zero, suc, ◌+◌, ◌-◌, ◌*◌, ◌/◌, ◌%◌, ◌<◌}
use mathlib.Core.Path.{◌≡◌, refl, ap, sym, ◌∙◌}
use mathlib.Core.List.{[], ◌∷◌, ◌++◌}
use native.Mathlib.Omega.{arith}
use server_game.Base.Tests.{ltb, if◌then◌else◌}
use server_game.Base.Int.{ℤ, pos, negsuc}
use server_game.Base.Text.{Text, str}

-- A number has fewer digits than its successor says, so that `digits (suc n) n` is all of them.
unfoldable pub digits : ℕ → ℕ → Text
digits zero n = []
digits (suc fuel) n =
    let more = digits fuel (n / 10) ++ (b'0' + n % 10) ∷ [] in
    if ltb n 10 then (b'0' + n) ∷ [] else more

unfoldable pub to_string : ℕ → Text
unfolding digits
to_string n = digits (suc n) n

abbrev pub signed_text : ℤ → Text
signed_text (pos n) = to_string n
signed_text (negsuc n) = b'-' ∷ to_string (suc n)

unfoldable pub value : Text → ℕ → ℕ
value [] acc = acc
value (c ∷ s) acc = value s (acc * 10 + (c - b'0'))

value-append : (s : Text) (c acc : ℕ) → value (s ++ c ∷ []) acc ≡ value s acc * 10 + (c - b'0')
unfolding value
value-append [] c acc = refl
value-append (d ∷ s) c acc = value-append s c (acc * 10 + (d - b'0'))

pub value-digits : (fuel n : ℕ) → n < fuel → value (digits fuel n) 0 ≡ n
unfolding digits value
value-digits zero n h = elim h [ ]
value-digits (suc fuel) n h =
    ground
      (arith, value-digits fuel (n / 10), value-append (digits fuel (n / 10)) (b'0' + n % 10) 0)

-- Two numbers with the same text are one number.
pub to_string-injective : (m n : ℕ) → to_string m ≡ to_string n → m ≡ n
unfolding to_string
to_string-injective m n e =
    sym (value-digits (suc m) m (omega arith))
    ∙ ap (λ s. value s 0) e
    ∙ value-digits (suc n) n (omega arith)

max_u16_text : to_string 65535 ≡ str "65535"
unfolding to_string
max_u16_text = refl
