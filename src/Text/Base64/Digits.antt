-- ===== src/Text/Base64/Digits.antt =====
-- The digits: each is read as what it stands for, and is ASCII.
use Prim.Native.Char.{code}
use webhook_delivery_service.Base.{
  ℕ, zero, suc, ◌+◌, ◌*◌, ◌/◌, ◌%◌, ◌<◌, ◌≡◌, refl, ap, String, Bool, true, false, ◌&&◌, Option,
  none, some, List, [], ◌∷◌, All, ◌==◌, if◌then◌else◌, arith, &&_left, &&_right, not, sym, subst,
  Bool-cases, inl, inr, ==→eq,
}
use webhook_delivery_service.Models.Json.{codes}
use webhook_delivery_service.Text.Utf8.{IsAscii, is_ascii, is_ascii-All}
use webhook_delivery_service.Text.Base64.{
  nth, digit, value, b64encode, Group, take_pad, take_digit, take_other, step,
}

-- A character that is no padding and has the value `n`.
abbrev has_value : ℕ → Option ℕ → Bool
has_value n none = false
has_value n (some v) = v == n

abbrev reads_as : ℕ → ℕ → Option ℕ → Bool
reads_as n c v = not (c == b'=') && has_value n v

all_read : ℕ → Bool
unfolding digit value
all_read zero = true
all_read (suc n) = reads_as n (code (digit n)) (value (code (digit n))) && all_read n

all_64_read : all_read 64 ≡ true
unfolding all_read
all_64_read = refl

all_read-reads_as :
    (k n : ℕ)
    → all_read k ≡ true
    → n < k
    → reads_as n (code (digit n)) (value (code (digit n))) ≡ true
unfolding all_read
all_read-reads_as zero n h lt = absurd (omega arith)
all_read-reads_as (suc k) n h lt = elim (Bool-cases (n == k)) [
  | inl same ↦
      subst (λ j. reads_as j (code (digit j)) (value (code (digit j))) ≡ true)
        (sym (==→eq n k same)) (&&_left _ _ h)
  | inr other ↦ all_read-reads_as k n (&&_right _ _ h) (ground arith)
]

step-reads_as :
    (g : Group) (n c : ℕ) (v : Option ℕ)
    → reads_as n c v ≡ true
    → (if c == b'=' then take_pad g else take_other g v) ≡ take_digit g.quad_pos g.leftchar n
step-reads_as g n c none h = absurd (ground arith)
step-reads_as g n c (some v) h = elim (Bool-cases (c == b'=')) [
  | inl pad ↦ absurd (ground arith)
  | inr other ↦ rw other (ap (take_digit g.quad_pos g.leftchar) (==→eq v n (ground arith)))
]

-- One of the 64 digits is read as what it stands for.
pub step-digit :
    (g : Group) (n : ℕ) → n < 64 → step g (code (digit n)) ≡ take_digit g.quad_pos g.leftchar n
unfolding step
step-digit g n h = step-reads_as g n _ _ (all_read-reads_as 64 n all_64_read h)

-- The text of bytes is ASCII.
nth-IsAscii : (s : String) (n : ℕ) → is_ascii s ≡ true → IsAscii (code (nth s n))
nth-IsAscii String.[] n h = omega arith
nth-IsAscii (String.◌∷◌ c s) zero h = ground arith
nth-IsAscii (String.◌∷◌ c s) (suc n) h = nth-IsAscii s n (ground arith)

digit-IsAscii : (n : ℕ) → IsAscii (code (digit n))
unfolding digit
digit-IsAscii n =
    nth-IsAscii "ABCDEFGHIJKLMNOPQRSTUVWXYZabcdefghijklmnopqrstuvwxyz0123456789-_" n refl

pub b64encode-IsAscii : (bytes : List ℕ) → All IsAscii (codes (b64encode bytes))
unfolding b64encode
b64encode-IsAscii [] = tt
b64encode-IsAscii (a ∷ []) =
    (digit-IsAscii (a / 4), (digit-IsAscii (a % 4 * 16), is_ascii-All "==" refl))
b64encode-IsAscii (a ∷ b ∷ []) = (
  digit-IsAscii (a / 4),
  (digit-IsAscii (a % 4 * 16 + b / 16), (digit-IsAscii (b % 16 * 4), is_ascii-All "=" refl)),
)
b64encode-IsAscii (a ∷ b ∷ c ∷ rest) = (
  digit-IsAscii (a / 4),
  (
    digit-IsAscii (a % 4 * 16 + b / 16),
    (digit-IsAscii (b % 16 * 4 + c / 64), (digit-IsAscii (c % 64), b64encode-IsAscii rest)),
  ),
)
