-- ===== src/Models/Json.antt =====
-- The JSON values of a payload (`dict[str, Any]`), and `json.dumps` with the separators and the
-- `ensure_ascii=False` that app/schemas/event.py and app/services/delivery.py call it with, followed
-- by `.encode("utf-8")`. A number is the text that Python's `repr` gives it.
use Prim.Native.Char.{code}
use webhook_delivery_service.Base.{
  ℕ, ◌+◌, ◌/◌, ◌%◌, String, Bool, true, false, List, [], ◌∷◌, ◌++◌, ltb, ◌==◌, if◌then◌else◌, ◌≡◌,
  refl,
}

mutual
  pub data Json : Type 0 where
    null : Json
    boolean : Bool → Json
    number : String → Json
    text : String → Json
    array : Items → Json
    object : Fields → Json

  pub data Items : Type 0 where
    end_items : Items
    item : Json → Items → Items

  pub data Fields : Type 0 where
    end_fields : Fields
    field : String → Json → Fields → Fields

abbrev pub codes : String → List ℕ
codes String.[] = []
codes (String.◌∷◌ c s) = code c ∷ codes s

-- A hexadecimal digit, in lower case.
unfoldable pub hex_digit : ℕ → ℕ
hex_digit n = if ltb n 10 then b'0' + n else 87 + n

-- The escapes of `json.encoder.ESCAPE` (ensure_ascii is off).
unfoldable pub escape : ℕ → List ℕ
unfolding hex_digit
escape c =
    if c == b'"'
    then b'\\' ∷ b'"' ∷ []
    else if c == b'\\'
    then b'\\' ∷ b'\\' ∷ []
    else if c == 10
    then b'\\' ∷ b'n' ∷ []
    else if c == 13
    then b'\\' ∷ b'r' ∷ []
    else if c == 9
    then b'\\' ∷ b't' ∷ []
    else if c == 12
    then b'\\' ∷ b'f' ∷ []
    else if c == 8
    then b'\\' ∷ b'b' ∷ []
    else if ltb c 32
    then b'\\' ∷ b'u' ∷ b'0' ∷ b'0' ∷ hex_digit (c / 16) ∷ hex_digit (c % 16) ∷ []
    else c ∷ []

escape_all : List ℕ → List ℕ
escape_all [] = []
escape_all (c ∷ cs) = escape c ++ escape_all cs

quoted : String → List ℕ
unfolding escape escape_all
quoted s = b'"' ∷ (escape_all (codes s) ++ b'"' ∷ [])

mutual
  unfolding quoted

  dumps_value : Json → List ℕ
  dumps_value null = codes "null"
  dumps_value (boolean true) = codes "true"
  dumps_value (boolean false) = codes "false"
  dumps_value (number t) = codes t
  dumps_value (text s) = quoted s
  dumps_value (array xs) = b'[' ∷ dumps_items true xs
  dumps_value (object fs) = b'{' ∷ dumps_fields true fs

  -- The flag says that no separator is due yet.
  dumps_items : Bool → Items → List ℕ
  dumps_items first end_items = b']' ∷ []
  dumps_items first (item x xs) =
      (if first then [] else b',' ∷ []) ++ (dumps_value x ++ dumps_items false xs)

  dumps_fields : Bool → Fields → List ℕ
  dumps_fields first end_fields = b'}' ∷ []
  dumps_fields first (field k v fs) =
      (if first then [] else b',' ∷ [])
      ++ (quoted k ++ (b':' ∷ (dumps_value v ++ dumps_fields false fs)))

-- `json.dumps(payload, separators=(",", ":"), ensure_ascii=False)`, as code points.
unfoldable pub dumps : Fields → List ℕ
unfolding dumps_value
dumps fs = dumps_value (object fs)

-- The UTF-8 bytes of a code point.
unfoldable pub utf8_char : ℕ → List ℕ
utf8_char c =
    if ltb c 0x80
    then c ∷ []
    else if ltb c 0x800
    then (0xC0 + c / 0x40) ∷ (0x80 + c % 0x40) ∷ []
    else if ltb c 0x10000
    then (0xE0 + c / 0x1000) ∷ (0x80 + c / 0x40 % 0x40) ∷ (0x80 + c % 0x40) ∷ []
    else (0xF0 + c / 0x40000)
      ∷ (0x80 + c / 0x1000 % 0x40)
      ∷ (0x80 + c / 0x40 % 0x40)
      ∷ (0x80 + c % 0x40)
      ∷ []

unfoldable pub utf8_encode : List ℕ → List ℕ
unfolding utf8_char
utf8_encode [] = []
utf8_encode (c ∷ cs) = utf8_char c ++ utf8_encode cs

-- The bytes that are measured on ingestion and signed and posted on delivery.
unfoldable pub payload_bytes : Fields → List ℕ
unfolding dumps utf8_encode
payload_bytes payload = utf8_encode (dumps payload)

payload_bytes_order :
    payload_bytes
      (field "order_id" (text "ord_é") (field "n" (array (item null end_items)) end_fields))
    ≡ codes "{\"order_id\":\"ord_" ++ (0xC3 ∷ 0xA9 ∷ codes "\",\"n\":[null]}")
unfolding payload_bytes
payload_bytes_order = refl
