-- ===== src/Text/Base64.antt =====
-- `base64.urlsafe_b64encode` and `base64.urlsafe_b64decode`, which reads the two standard letters
-- as well, skips a character that is no digit, and stops at the padding that ends a group.
pub mod Digits
pub mod RoundTrip
use Prim.Native.Char.{Char, code}
use webhook_delivery_service.Base.{
  ℕ, zero, suc, ◌+◌, ◌-◌, ◌*◌, ◌/◌, ◌%◌, ◌<◌, ◌≡◌, refl, ap, ◌∙◌, String, Bool, true, false, ◌&&◌,
  Option, none, some, List, [], ◌∷◌, All, leb, ◌==◌, if◌then◌else◌, arith, &&_left, &&_right, not,
  sym, subst, Bool-cases, inl, inr, ==→eq,
}
use mathlib.Core.Option.{map as map_option}
use webhook_delivery_service.Models.Json.{codes}
use webhook_delivery_service.Text.Utf8.{IsAscii, is_ascii, is_ascii-All}

-- The alphabet, and a default that no digit reaches.
abbrev nth : String → ℕ → Char
nth String.[] n = "="
nth (String.◌∷◌ c s) zero = c
nth (String.◌∷◌ c s) (suc n) = nth s n

unfoldable digit : ℕ → Char
digit n = nth "ABCDEFGHIJKLMNOPQRSTUVWXYZabcdefghijklmnopqrstuvwxyz0123456789-_" n

unfoldable pub b64encode : List ℕ → String
unfolding digit
b64encode [] = String.[]
b64encode (a ∷ []) =
    String.◌∷◌ (digit (a / 4))
      (String.◌∷◌ (digit (a % 4 * 16)) (String.◌∷◌ "=" (String.◌∷◌ "=" String.[])))
b64encode (a ∷ b ∷ []) = String.◌∷◌ (digit (a / 4)) (
    String.◌∷◌ (digit (a % 4 * 16 + b / 16))
      (String.◌∷◌ (digit (b % 16 * 4)) (String.◌∷◌ "=" String.[])))
b64encode (a ∷ b ∷ c ∷ rest) = String.◌∷◌ (digit (a / 4)) (
    String.◌∷◌ (digit (a % 4 * 16 + b / 16))
      (String.◌∷◌ (digit (b % 16 * 4 + c / 64)) (String.◌∷◌ (digit (c % 64)) (b64encode rest))))

-- The value of a digit, in either alphabet.
unfoldable value : ℕ → Option ℕ
value c =
    if leb b'A' c && leb c b'Z'
    then some (c - 65)
    else if leb b'a' c && leb c b'z'
    then some (c - 71)
    else if leb b'0' c && leb c b'9'
    then some (c + 4)
    else if c == b'+'
    then some 62
    else if c == b'-'
    then some 62
    else if c == b'/'
    then some 63
    else if c == b'_'
    then some 63
    else none

-- A group that is being read: how many digits, the bits that wait, and how many `=` in a row.
pub record Group : Type 0 where
  quad_pos : ℕ
  leftchar : ℕ
  pads : ℕ

abbrev group_start : Group
group_start = record { quad_pos = 0; leftchar = 0; pads = 0 }

-- What one character does: the end of the data, another state, or a byte and another state.
pub data Step : Type 0 where
  stop : Step
  move : Group → Step
  emit : ℕ → Group → Step

abbrev take_pad : Group → Step
take_pad g =
    if leb 2 g.quad_pos
    then if leb 4 (g.quad_pos + (g.pads + 1))
      then stop
      else move (record { quad_pos = g.quad_pos; leftchar = g.leftchar; pads = g.pads + 1 })
    else move g

abbrev take_digit : ℕ → ℕ → ℕ → Step
take_digit zero leftchar v = move (record { quad_pos = 1; leftchar = v; pads = 0 })
take_digit (suc zero) leftchar v =
    emit (leftchar * 4 + v / 16) (record { quad_pos = 2; leftchar = v % 16; pads = 0 })
take_digit (suc (suc zero)) leftchar v =
    emit (leftchar * 16 + v / 4) (record { quad_pos = 3; leftchar = v % 4; pads = 0 })
take_digit (suc (suc (suc n))) leftchar v =
    emit (leftchar * 64 + v) (record { quad_pos = 0; leftchar = 0; pads = 0 })

abbrev take_other : Group → Option ℕ → Step
take_other g none = move g
take_other g (some v) = take_digit g.quad_pos g.leftchar v

unfoldable step : Group → ℕ → Step
unfolding value
step g c = if c == b'=' then take_pad g else take_other g (value c)

abbrev resume : (Group → Option (List ℕ)) → Step → Option (List ℕ)
resume rest stop = some []
resume rest (move g) = rest g
resume rest (emit b g) = map_option (λ bs. b ∷ bs) (rest g)

-- `none`: `binascii.Error`, for a group that breaks off.
unfoldable read : List ℕ → Group → Option (List ℕ)
unfolding step
read [] g = if g.quad_pos == 0 then some [] else none
read (c ∷ cs) g = resume (read cs) (step g c)

unfoldable pub b64decode : List ℕ → Option (List ℕ)
unfolding read
b64decode cs = read cs group_start

-- A text without its last character.
unfoldable pub drop_last : String → String
drop_last String.[] = String.[]
drop_last (String.◌∷◌ c String.[]) = String.[]
drop_last (String.◌∷◌ c (String.◌∷◌ d s)) = String.◌∷◌ c (drop_last (String.◌∷◌ d s))
