-- ===== src/Tests/Cursors.antt =====
-- Cursors with a small reader: a datetime is a text of as many `0` as its number, a UUID likewise
-- with `a`, and `json.loads` reads the one form of object that is written, and `[]`.
use webhook_delivery_service.Base.{
  ℕ, zero, suc, ◌≡◌, refl, ap, Option, none, some, List, [], ◌∷◌, ◌++◌, ◌==◌, ◌&&◌, All,
  if◌then◌else◌, length, arith,
}
use webhook_delivery_service.Models.Json.{codes, utf8_encode}
use webhook_delivery_service.Errors.{ok, raised}
use webhook_delivery_service.Text.Base64.{b64encode, b64decode, drop_last}
use webhook_delivery_service.Text.Utf8.{utf8_decode}
use webhook_delivery_service.Delivery.Log.{Codec}
use webhook_delivery_service.Delivery.Cursor.{
  CursorPayload, dumps_payload, text, dictionary, no_dictionary, Loaded, naive, IsPlain, Reader,
  encode_cursor, decode_cursor, invalid_cursor,
}
use webhook_delivery_service.Api.Cursors.{IsMisshapen, no_object}
use webhook_delivery_service.Delivery.Cursor.RoundTrip.{
  escape_text-plain, decode_cursor-encode_cursor, cut_cursor_is_refused, delivery_cursor,
}

unfoldable pub unary : ℕ → ℕ → List ℕ
unary c zero = []
unary c (suc n) = c ∷ unary c n

pub length-unary : (c n : ℕ) → length (unary c n) ≡ n
unfolding unary
length-unary c zero = refl
length-unary c (suc n) = ap (λ m. suc m) (length-unary c n)

pub unary-IsPlain : (c n : ℕ) → IsPlain c → All IsPlain (unary c n)
unfolding unary
unary-IsPlain c zero h = tt
unary-IsPlain c (suc n) h = (h, unary-IsPlain c n h)

-- What follows a given text.
abbrev strip : List ℕ → List ℕ → Option (List ℕ)
strip [] s = some s
strip (c ∷ cs) [] = none
strip (c ∷ cs) (d ∷ s) = if c == d then strip cs s else none

-- What stands before the next quote, and what begins there.
abbrev until_quote : List ℕ → List ℕ × List ℕ
until_quote [] = ([], [])
until_quote (c ∷ s) =
    let rest = until_quote s in if c == 34 then ([], c ∷ s) else (c ∷ rest.0, rest.1)

abbrev finish : List ℕ → List ℕ → Option Loaded
finish at id = some (dictionary (("created_at", text at) ∷ ("id", text id) ∷ []))

abbrev after_second : List ℕ → List ℕ × List ℕ → Option Loaded
after_second at (id, rest) = elim (strip (codes "\"}") rest) [ none ↦ none | some _ ↦ finish at id ]

abbrev after_first : List ℕ × List ℕ → Option Loaded
after_first (at, rest) = elim (strip (codes "\", \"id\": \"") rest) [
  | none ↦ none
  | some s ↦ after_second at (until_quote s)
]

-- `[]`, the one other JSON that it reads.
abbrev empty_list : List ℕ → Option Loaded
empty_list [] = none
empty_list (c ∷ []) = none
empty_list (c ∷ d ∷ []) = if (c == 0x5B && d == 0x5D) then some no_dictionary else none
empty_list (c ∷ d ∷ e ∷ s) = none

abbrev load : List ℕ → Option Loaded
load s = elim (strip (codes "{\"created_at\": \"") s) [
  | none ↦ empty_list s
  | some rest ↦ after_first (until_quote rest)
]

until_quote-plain :
    (s rest : List ℕ) → All IsPlain s → until_quote (s ++ 34 ∷ rest) ≡ (s, 34 ∷ rest)
until_quote-plain [] rest h = refl
until_quote-plain (c ∷ s) rest h =
    let (low, high, quote, slash) = h.0 in ground (arith, quote, until_quote-plain s rest h.1)

pub load-dumps_payload :
    (p : CursorPayload)
    → All IsPlain p.created_at
    → All IsPlain p.id
    → load (dumps_payload p) ≡ finish p.created_at p.id
unfolding dumps_payload
load-dumps_payload p h k = rw (
  escape_text-plain p.created_at h,
  escape_text-plain p.id k,
  until_quote-plain p.created_at (codes ", \"id\": \"" ++ (p.id ++ codes "\"}")) h,
  until_quote-plain p.id (codes "}") k,
)

abbrev pub small_reader : Reader
unfolding unary
small_reader = record {
  isoformat = unary b'0';
  fromisoformat = λ s. some (naive (length s));
  uuid_text = unary b'a';
  uuid_of = λ s. some (length s);
  loads = load;
  isoformat-IsPlain =
      λ at. unary-IsPlain b'0' at (omega arith, omega arith, omega arith, omega arith);
  uuid_text-IsPlain =
      λ id. unary-IsPlain b'a' id (omega arith, omega arith, omega arith, omega arith);
  fromisoformat-isoformat = λ at. ap (λ n. some (naive n)) (length-unary b'0' at);
  uuid_of-uuid_text = λ id. ap some (length-unary b'a' id);
  loads-dumps_payload = load-dumps_payload;
}

pub small_reader-IsMisshapen : IsMisshapen small_reader (0x5B ∷ 0x5D ∷ [])
unfolding small_reader
small_reader-IsMisshapen = no_object refl

decode_cursor-encode_cursor_example :
    decode_cursor small_reader (encode_cursor small_reader 3 7) ≡ ok (3, 7)
decode_cursor-encode_cursor_example = decode_cursor-encode_cursor small_reader 3 7

cursors :
    (encode_cursor small_reader 1 2 ≡ "eyJjcmVhdGVkX2F0IjogIjAiLCAiaWQiOiAiYWEifQ==")
    × (decode_cursor small_reader "eyJjcmVhdGVkX2F0IjogIjAiLCAiaWQiOiAiYWEifQ==" ≡ ok (1, 2))
    × (decode_cursor small_reader "not-a-cursor" ≡ raised invalid_cursor)
    × (decode_cursor small_reader "eyJ" ≡ raised invalid_cursor)
unfolding encode_cursor decode_cursor b64encode b64decode utf8_encode utf8_decode small_reader
cursors = (refl, refl, refl, refl)

-- The client's cursors, as the routes take them.
abbrev pub cursor_codec : Codec
unfolding small_reader
cursor_codec = delivery_cursor small_reader

cut_cursor_is_refused_example :
    decode_cursor small_reader (drop_last (encode_cursor small_reader 3 7)) ≡ raised invalid_cursor
cut_cursor_is_refused_example = cut_cursor_is_refused small_reader 3 7
