-- ===== src/Delivery/Cursor.antt =====
-- `_encode_delivery_cursor` and `_decode_delivery_cursor` of app/services/delivery.py: the key of a
-- row as a JSON object, in UTF-8, in base64. The texts of a datetime and of a UUID, and
-- `json.loads`, are Python's: a `Reader` holds them with what its documentation says of them.
pub mod RoundTrip
use webhook_delivery_service.Base.{
  ℕ, ◌+◌, ◌-◌, ◌/◌, ◌%◌, ◌≤◌, ◌≡◌, ◌≢◌, String, str_eq, Option, none, some, List, [], ◌∷◌, ◌++◌,
  All, ltb, leb, if◌then◌else◌,
}
use webhook_delivery_service.Models.{Uuid, Datetime}
use webhook_delivery_service.Models.Json.{codes, escape, hex_digit, utf8_encode}
use webhook_delivery_service.Errors.{
  Exn, Result, ok, raised, ◌>>=◌, app_error, data_error, type_error, bad_request_error,
}
use webhook_delivery_service.Text.Base64.{b64encode, b64decode}
use webhook_delivery_service.Text.Utf8.{utf8_decode}

-- `json.dumps` of a text, with `ensure_ascii`: what is not printable ASCII is a `\u` escape, a
-- surrogate pair above 0xFFFF.
hex_escape : ℕ → List ℕ
unfolding hex_digit
hex_escape c =
    b'\\'
    ∷ b'u'
    ∷ hex_digit (c / 0x1000)
    ∷ hex_digit (c / 0x100 % 16)
    ∷ hex_digit (c / 16 % 16)
    ∷ hex_digit (c % 16)
    ∷ []

unfoldable escape_ascii : ℕ → List ℕ
unfolding hex_escape escape
escape_ascii c =
    if ltb c 0x7F
    then escape c
    else if ltb c 0x10000
    then hex_escape c
    else hex_escape (0xD800 + (c - 0x10000) / 0x400) ++ hex_escape (0xDC00 + (c - 0x10000) % 0x400)

unfoldable escape_text : List ℕ → List ℕ
unfolding escape_ascii
escape_text [] = []
escape_text (c ∷ cs) = escape_ascii c ++ escape_text cs

-- The dictionary that is dumped, with its two keys in this order.
pub record CursorPayload : Type 0 where
  pub created_at : List ℕ
  pub id : List ℕ

unfoldable pub dumps_payload : CursorPayload → List ℕ
unfolding escape_text
dumps_payload p =
    codes "{\"created_at\": \""
    ++ (escape_text p.created_at ++ (codes "\", \"id\": \"" ++ (escape_text p.id ++ codes "\"}")))

-- What `json.loads` gives, as far as the code tells values apart.
pub data Value : Type 0 where
  text : List ℕ → Value
  no_text : Value

pub data Loaded : Type 0 where
  dictionary : List (String × Value) → Loaded
  no_dictionary : Loaded

-- `datetime.fromisoformat` reads an offset as well.
pub data Moment : Type 0 where
  naive : Datetime → Moment
  aware : Moment

-- A character that JSON writes as it is.
abbrev pub IsPlain : ℕ → Type 0
IsPlain c = (32 ≤ c) × (c ≤ 126) × (c ≢ 34) × (c ≢ 92)

-- `none` is a ValueError.
pub record Reader : Type 0 where
  pub isoformat : Datetime → List ℕ
  pub fromisoformat : List ℕ → Option Moment
  pub uuid_text : Uuid → List ℕ
  pub uuid_of : List ℕ → Option Uuid
  pub loads : List ℕ → Option Loaded
  pub isoformat-IsPlain : (at : Datetime) → All IsPlain (isoformat at)
  pub uuid_text-IsPlain : (id : Uuid) → All IsPlain (uuid_text id)
  pub fromisoformat-isoformat : (at : Datetime) → fromisoformat (isoformat at) ≡ some (naive at)
  pub uuid_of-uuid_text : (id : Uuid) → uuid_of (uuid_text id) ≡ some id
  pub loads-dumps_payload :
      (p : CursorPayload)
      → All IsPlain p.created_at
      → All IsPlain p.id
      → loads (dumps_payload p)
        ≡ some (dictionary (("created_at", text p.created_at) ∷ ("id", text p.id) ∷ []))

abbrev pub invalid_cursor : Exn
invalid_cursor = app_error (bad_request_error "Invalid delivery cursor." "INVALID_CURSOR")

-- What the `except` clause makes of a KeyError or a ValueError. Nothing catches a TypeError or an
-- AttributeError, and both are `type_error`.
abbrev pub caught {ℓ} : {A : Type ℓ} → Option A → Result A
caught none = raised invalid_cursor
caught (some a) = ok a

unfoldable pub member : String → List (String × Value) → Option Value
member key [] = none
member key ((k, v) ∷ fields) = if str_eq k key then some v else member key fields

-- `payload[key]`, used as a text.
abbrev text_at : Value → Result (List ℕ)
text_at (text s) = ok s
text_at no_text = raised type_error

unfoldable pub get_text : String → Loaded → Result (List ℕ)
unfolding member
get_text key no_dictionary = raised type_error
get_text key (dictionary fields) = caught (member key fields) >>= text_at

-- The key of the query: an aware datetime is refused by the driver, before a row is read.
abbrev pub cursor_key : Moment → Uuid → Result (Datetime × Uuid)
cursor_key (naive at) id = ok (at, id)
cursor_key aware id = raised data_error

module _ (r : Reader) where
  unfoldable pub encode_cursor : Datetime → Uuid → String
  unfolding dumps_payload
  encode_cursor at id =
      b64encode
        (utf8_encode (dumps_payload (record { created_at = r.isoformat at; id = r.uuid_text id })))

  unfoldable pub decode_cursor : String → Result (Datetime × Uuid)
  unfolding get_text
  decode_cursor cursor = do
    bytes ← caught (b64decode (utf8_encode (codes cursor)))
    decoded ← caught (utf8_decode bytes)
    payload ← caught (r.loads decoded)
    created_at_text ← get_text "created_at" payload
    created_at ← caught (r.fromisoformat created_at_text)
    id_text ← get_text "id" payload
    delivery_id ← caught (r.uuid_of id_text)
    cursor_key created_at delivery_id
