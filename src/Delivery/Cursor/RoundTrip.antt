-- ===== src/Delivery/Cursor/RoundTrip.antt =====
-- A cursor is read back as the key that it was made of.
use webhook_delivery_service.Base.{
  String, none, ℕ, ◌<◌, ◌≡◌, refl, List, [], ◌∷◌, All, All-append, All-mono, arith,
}
use webhook_delivery_service.Models.{Uuid, Datetime}
use webhook_delivery_service.Models.Json.{codes, escape}
use webhook_delivery_service.Errors.{ok, raised}
use webhook_delivery_service.Text.Base64.{b64encode, b64decode, drop_last}
use webhook_delivery_service.Text.Base64.Digits.{b64encode-IsAscii}
use webhook_delivery_service.Text.Base64.RoundTrip.{b64decode-b64encode, b64decode-drop_last}
use webhook_delivery_service.Text.Utf8.{IsAscii, is_ascii-All, utf8_encode-ascii, utf8_decode-ascii}
use webhook_delivery_service.Delivery.Log.{Codec}
use webhook_delivery_service.Delivery.Cursor.{
  CursorPayload, invalid_cursor, dumps_payload, escape_text, escape_ascii, IsPlain, Reader,
  encode_cursor, decode_cursor,
}

-- JSON writes a plain text as it is.
pub escape_text-plain : (s : List ℕ) → All IsPlain s → escape_text s ≡ s
unfolding escape_text escape_ascii escape
escape_text-plain [] h = refl
escape_text-plain (c ∷ s) h =
    let (low, high, quote, slash) = h.0 in
    ground (arith, low, high, quote, slash, escape_text-plain s h.1)

escape_text-IsAscii : (s : List ℕ) → All IsPlain s → All IsAscii (escape_text s)
escape_text-IsAscii s h = rw (escape_text-plain s h) (
    All-mono IsPlain IsAscii
      (λ c plain. let (low, high, quote, slash) = plain in omega (arith, high)) s h)

-- For plain texts, the object is ASCII.
dumps_payload-IsAscii :
    (p : CursorPayload)
    → All IsPlain p.created_at
    → All IsPlain p.id
    → All IsAscii (dumps_payload p)
unfolding dumps_payload
dumps_payload-IsAscii p h k =
    All-append IsAscii (codes "{\"created_at\": \"") _ (is_ascii-All "{\"created_at\": \"" refl) (
      All-append IsAscii (escape_text p.created_at) _ (escape_text-IsAscii p.created_at h) (
        All-append IsAscii (codes "\", \"id\": \"") _ (is_ascii-All "\", \"id\": \"" refl) (
          All-append IsAscii (escape_text p.id) _ (escape_text-IsAscii p.id k)
            (is_ascii-All "\"}" refl))))

drop_last-IsAscii : (s : String) → All IsAscii (codes s) → All IsAscii (codes (drop_last s))
unfolding drop_last
drop_last-IsAscii String.[] h = tt
drop_last-IsAscii (String.◌∷◌ c String.[]) h = tt
drop_last-IsAscii (String.◌∷◌ c (String.◌∷◌ d s)) h = (h.0, drop_last-IsAscii (String.◌∷◌ d s) h.1)

module _ (r : Reader) (at : Datetime) (id : Uuid) where
  abbrev payload : CursorPayload
  payload = record { created_at = r.isoformat at; id = r.uuid_text id }

  payload-IsAscii : All IsAscii (dumps_payload payload)
  payload-IsAscii = dumps_payload-IsAscii payload (r.isoformat-IsPlain at) (r.uuid_text-IsPlain id)

  payload_bytes : All (λ b. b < 256) (dumps_payload payload)
  payload_bytes = All-mono IsAscii (λ b. b < 256) (λ b h. omega arith) _ payload-IsAscii

  -- A cursor is read back as the key that it was made of.
  pub decode_cursor-encode_cursor : decode_cursor r (encode_cursor r at id) ≡ ok (at, id)
  unfolding encode_cursor decode_cursor
  decode_cursor-encode_cursor = rw (utf8_encode-ascii (dumps_payload payload) payload-IsAscii) (
      rw (
        utf8_encode-ascii _ (b64encode-IsAscii (dumps_payload payload)),
        b64decode-b64encode (dumps_payload payload) payload_bytes,
        utf8_decode-ascii (dumps_payload payload) payload-IsAscii,
        r.loads-dumps_payload payload (r.isoformat-IsPlain at) (r.uuid_text-IsPlain id),
        r.fromisoformat-isoformat at,
        r.uuid_of-uuid_text id,
      ))

  cut-broken : b64decode (codes (drop_last (b64encode (dumps_payload payload)))) ≡ none
  unfolding dumps_payload
  cut-broken = b64decode-drop_last _ _ payload_bytes

  -- A cursor that lost its last character is refused with a 400.
  pub cut_cursor_is_refused :
      decode_cursor r (drop_last (encode_cursor r at id)) ≡ raised invalid_cursor
  unfolding encode_cursor decode_cursor
  cut_cursor_is_refused = rw (utf8_encode-ascii (dumps_payload payload) payload-IsAscii) (
      rw (
        utf8_encode-ascii _ (
            drop_last-IsAscii (b64encode (dumps_payload payload))
              (b64encode-IsAscii (dumps_payload payload))),
        cut-broken,
      ))

module _ (r : Reader) where
  abbrev pub delivery_cursor : Codec
  delivery_cursor = record {
    encode = encode_cursor r;
    decode = decode_cursor r;
    decode-encode = decode_cursor-encode_cursor r;
  }
