-- ===== src/Text/Base64/RoundTrip.antt =====
-- Bytes are read back from their text, and not from a text that lost its last character.
use Prim.Native.Char.{Char, code}
use webhook_delivery_service.Base.{
  ℕ, ◌+◌, ◌*◌, ◌/◌, ◌%◌, ◌<◌, ◌≡◌, refl, ap, ◌∙◌, String, none, some, List, [], ◌∷◌, All, arith,
}
use mathlib.Core.Option.{map as map_option}
use webhook_delivery_service.Models.Json.{codes}
use webhook_delivery_service.Text.Base64.{
  digit, b64encode, Group, group_start, read, drop_last, b64decode,
}
use webhook_delivery_service.Text.Base64.Digits.{step-digit}

abbrev after : ℕ → ℕ → Group
after quad_pos leftchar = record { quad_pos = quad_pos; leftchar = leftchar; pads = 0 }

-- The first two digits of a group give a byte, and so do the third and the fourth.
read_two :
    (v w : ℕ) (cs : List ℕ)
    → v < 64
    → w < 64
    → read (code (digit v) ∷ code (digit w) ∷ cs) group_start
      ≡ map_option (λ bs. (v * 4 + w / 16) ∷ bs) (read cs (after 2 (w % 16)))
unfolding read
read_two v w cs hv hw = rw (step-digit group_start v hv, step-digit (after 1 v) w hw)

read_third :
    (left v : ℕ) (cs : List ℕ)
    → v < 64
    → read (code (digit v) ∷ cs) (after 2 left)
      ≡ map_option (λ bs. (left * 16 + v / 4) ∷ bs) (read cs (after 3 (v % 4)))
unfolding read
read_third left v cs h = rw (step-digit (after 2 left) v h)

read_fourth :
    (left v : ℕ) (cs : List ℕ)
    → v < 64
    → read (code (digit v) ∷ cs) (after 3 left)
      ≡ map_option (λ bs. (left * 64 + v) ∷ bs) (read cs group_start)
unfolding read
read_fourth left v cs h = rw (step-digit (after 3 left) v h)

read_three :
    (u v w : ℕ) (cs : List ℕ)
    → u < 64
    → v < 64
    → w < 64
    → read (code (digit u) ∷ code (digit v) ∷ code (digit w) ∷ cs) group_start
      ≡ map_option
          (λ bs. (u * 4 + v / 16) ∷ bs)
          (map_option (λ bs. (v % 16 * 16 + w / 4) ∷ bs) (read cs (after 3 (w % 4))))
read_three u v w cs hu hv hw =
    read_two u v (code (digit w) ∷ cs) hu hv
    ∙ ap (map_option (λ bs. (u * 4 + v / 16) ∷ bs)) (read_third (v % 16) w cs hw)

two_bytes :
    {a b x y : ℕ} (bytes : List ℕ)
    → x ≡ a
    → y ≡ b
    → ◌≡◌ {A = List ℕ} (x ∷ y ∷ bytes) (a ∷ b ∷ bytes)
two_bytes bytes h k = cc

pub b64decode-b64encode :
    (bytes : List ℕ) → All (λ b. b < 256) bytes → b64decode (codes (b64encode bytes)) ≡ some bytes
unfolding b64decode b64encode read
b64decode-b64encode [] h = refl
b64decode-b64encode (a ∷ []) h =
    read_two (a / 4) (a % 4 * 16) (code "=" ∷ code "=" ∷ []) (omega (arith, h.0)) (omega arith)
    ∙ ap (λ x. some (x ∷ [])) (omega arith)
b64decode-b64encode (a ∷ b ∷ []) h =
    read_three (a / 4) (a % 4 * 16 + b / 16) (b % 16 * 4) (code "=" ∷ []) (omega (arith, h.0))
      (omega (arith, h.1.0)) (omega arith)
    ∙ ap some (two_bytes [] (omega arith) (omega arith))
b64decode-b64encode (a ∷ b ∷ c ∷ rest) h =
    let third = b % 16 * 4 + c / 64 in
    let later =
      read_fourth (third % 4) (c % 64) (codes (b64encode rest)) (omega arith)
      ∙ ap (map_option (λ bs. (third % 4 * 64 + c % 64) ∷ bs)) (b64decode-b64encode rest h.1.1.1) in
    read_three (a / 4) (a % 4 * 16 + b / 16) third (code (digit (c % 64)) ∷ codes (b64encode rest))
      (omega (arith, h.0)) (omega (arith, h.1.0)) (omega (arith, h.1.1.0))
    ∙ ap
        (λ out.
          map_option (λ bs. (a / 4 * 4 + (a % 4 * 16 + b / 16) / 16) ∷ bs)
            (map_option (λ bs. ((a % 4 * 16 + b / 16) % 16 * 16 + third / 4) ∷ bs) out))
        later
    ∙ ap some (
        two_bytes ((third % 4 * 64 + c % 64) ∷ rest) (omega (arith, h.1.0)) (omega (arith, h.1.1.0))
        ∙ ap (λ x. a ∷ b ∷ x ∷ rest) (omega (arith, h.1.1.0)))

drop_last-group :
    (c : Char) (a : ℕ) (bytes : List ℕ)
    → drop_last (String.◌∷◌ c (b64encode (a ∷ bytes)))
      ≡ String.◌∷◌ c (drop_last (b64encode (a ∷ bytes)))
unfolding drop_last b64encode
drop_last-group c a [] = refl
drop_last-group c a (b ∷ []) = refl
drop_last-group c a (b ∷ d ∷ bytes) = refl

-- Bytes that lost the last character of their text are refused: a group breaks off.
pub b64decode-drop_last :
    (a : ℕ) (bytes : List ℕ)
    → All (λ b. b < 256) (a ∷ bytes)
    → b64decode (codes (drop_last (b64encode (a ∷ bytes)))) ≡ none
unfolding b64decode b64encode drop_last
b64decode-drop_last a [] h =
    read_two (a / 4) (a % 4 * 16) (code "=" ∷ []) (omega (arith, h.0)) (omega arith)
b64decode-drop_last a (b ∷ []) h =
    read_three (a / 4) (a % 4 * 16 + b / 16) (b % 16 * 4) [] (omega (arith, h.0))
      (omega (arith, h.1.0)) (omega arith)
b64decode-drop_last a (b ∷ c ∷ []) h =
    read_three (a / 4) (a % 4 * 16 + b / 16) (b % 16 * 4 + c / 64) [] (omega (arith, h.0))
      (omega (arith, h.1.0)) (omega (arith, h.1.1.0))
b64decode-drop_last a (b ∷ c ∷ d ∷ rest) h =
    let third = b % 16 * 4 + c / 64 in
    let tail = drop_last (b64encode (d ∷ rest)) in
    let later =
      read_fourth (third % 4) (c % 64) (codes tail) (omega arith)
      ∙ ap (map_option (λ bs. (third % 4 * 64 + c % 64) ∷ bs))
          (b64decode-drop_last d rest h.1.1.1) in
    ap
      (λ s. b64decode (
        codes (
          String.◌∷◌ (digit (a / 4))
            (String.◌∷◌ (digit (a % 4 * 16 + b / 16)) (String.◌∷◌ (digit third) s)))))
      (drop_last-group (digit (c % 64)) d rest)
    ∙ read_three (a / 4) (a % 4 * 16 + b / 16) third (code (digit (c % 64)) ∷ codes tail)
        (omega (arith, h.0)) (omega (arith, h.1.0)) (omega (arith, h.1.1.0))
    ∙ ap
        (λ out.
          map_option (λ bs. (a / 4 * 4 + (a % 4 * 16 + b / 16) / 16) ∷ bs)
            (map_option (λ bs. ((a % 4 * 16 + b / 16) % 16 * 16 + third / 4) ∷ bs) out))
        later
