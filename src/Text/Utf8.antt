-- ===== src/Text/Utf8.antt =====
-- `bytes.decode()`, the strict UTF-8 decoder: overlong forms, surrogates and numbers above 0x10FFFF
-- are errors. The encoder is `utf8_encode`, beside the payload's JSON.
use webhook_delivery_service.Base.{
  ℕ, zero, suc, ◌+◌, ◌-◌, ◌*◌, ◌<◌, ◌≡◌, refl, Bool, String, true, ◌&&◌, Option, none, some, List,
  [], ◌∷◌, All, ltb, leb, ◌==◌, if◌then◌else◌, arith,
}
use Prim.Native.Char.{code}
use mathlib.Core.Option.{map as map_option}
use webhook_delivery_service.Models.Json.{codes, utf8_encode, utf8_char}

-- Between two characters, or inside one: how many bytes follow the next one, the bits so far, and
-- the range of the next byte.
pub data State : Type 0 where
  between : State
  inside : ℕ → ℕ → ℕ → ℕ → State

pub data Step : Type 0 where
  fail : Step
  move : State → Step
  emit : ℕ → State → Step

abbrev lead : ℕ → Step
lead b =
    if ltb b 0x80
    then emit b between
    else if ltb b 0xC2
    then fail
    else if ltb b 0xE0
    then move (inside 0 (b - 0xC0) 0x80 0xBF)
    else if b == 0xE0
    then move (inside 1 0 0xA0 0xBF)
    else if b == 0xED
    then move (inside 1 0xD 0x80 0x9F)
    else if ltb b 0xF0
    then move (inside 1 (b - 0xE0) 0x80 0xBF)
    else if b == 0xF0
    then move (inside 2 0 0x90 0xBF)
    else if ltb b 0xF4
    then move (inside 2 (b - 0xF0) 0x80 0xBF)
    else if b == 0xF4
    then move (inside 2 4 0x80 0x8F)
    else fail

abbrev inner : ℕ → ℕ → Step
inner zero bits = emit bits between
inner (suc n) bits = move (inside n bits 0x80 0xBF)

abbrev step : State → ℕ → Step
step between b = lead b
step (inside n bits low high) b =
    if leb low b && leb b high then inner n (bits * 0x40 + (b - 0x80)) else fail

abbrev resume : (State → Option (List ℕ)) → Step → Option (List ℕ)
resume rest fail = none
resume rest (move st) = rest st
resume rest (emit c st) = map_option (λ cs. c ∷ cs) (rest st)

abbrev at_end : State → Option (List ℕ)
at_end between = some []
at_end (inside n bits low high) = none

unfoldable read : List ℕ → State → Option (List ℕ)
read [] st = at_end st
read (b ∷ bs) st = resume (read bs) (step st b)

unfoldable pub utf8_decode : List ℕ → Option (List ℕ)
unfolding read
utf8_decode bs = read bs between

abbrev pub IsAscii : ℕ → Type 0
IsAscii c = c < 0x80

abbrev pub is_ascii : String → Bool
is_ascii String.[] = true
is_ascii (String.◌∷◌ c s) = ltb (code c) 0x80 && is_ascii s

pub is_ascii-All : (s : String) → is_ascii s ≡ true → All IsAscii (codes s)
is_ascii-All String.[] h = tt
is_ascii-All (String.◌∷◌ c s) h = (ground arith, is_ascii-All s (ground arith))

pub utf8_encode-ascii : (cs : List ℕ) → All IsAscii cs → utf8_encode cs ≡ cs
unfolding utf8_encode utf8_char
utf8_encode-ascii [] h = refl
utf8_encode-ascii (c ∷ cs) h = rw (utf8_encode-ascii cs h.1) (ground (arith, h.0))

pub utf8_decode-ascii : (cs : List ℕ) → All IsAscii cs → utf8_decode cs ≡ some cs
unfolding utf8_decode
utf8_decode-ascii [] h = refl
utf8_decode-ascii (c ∷ cs) h = ground (arith, h.0, utf8_decode-ascii cs h.1)

utf8_decode_runs :
    (utf8_decode (0x65 ∷ 0xC3 ∷ 0xA9 ∷ 0xF0 ∷ 0x9F ∷ 0x98 ∷ 0x80 ∷ [])
      ≡ some (0x65 ∷ 0xE9 ∷ 0x1F600 ∷ []))
    × (utf8_decode (0xC0 ∷ 0x80 ∷ []) ≡ none)
    × (utf8_decode (0xED ∷ 0xA0 ∷ 0x80 ∷ []) ≡ none)
unfolding utf8_decode
utf8_decode_runs = (refl, refl, refl)
