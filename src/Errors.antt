-- ===== src/Errors.antt =====
-- app/core/exceptions.py, and the handlers of app/main.py that turn an error into a response.
use webhook_delivery_service.Base.{ℕ, String, ◌≡◌, refl, ap}

pub record AppError : Type 0 where
  pub message : String
  pub code : String
  pub status_code : ℕ

abbrev pub authentication_error : String → String → AppError
authentication_error message code = record { message = message; code = code; status_code = 401 }

abbrev pub bad_request_error : String → String → AppError
bad_request_error message code = record { message = message; code = code; status_code = 400 }

abbrev pub conflict_error : String → String → AppError
conflict_error message code = record { message = message; code = code; status_code = 409 }

abbrev pub not_found_error : String → String → AppError
not_found_error message code = record { message = message; code = code; status_code = 404 }

-- What a call can raise: an AppError, or an exception that no handler of the code names.
pub data Exn : Type 0 where
  app_error : AppError → Exn
  runtime_error : String → Exn
  data_error : Exn
  integrity_error : Exn
  type_error : Exn

pub data Result {ℓ} (Value : Type ℓ) : Type ℓ where
  raised : Exn → Result Value
  ok : Value → Result Value

-- What follows a call that may have raised.
infixl 5 ◌>>=◌
abbrev pub ◌>>=◌ {ℓ κ} :
    {Value : Type ℓ} {Next : Type κ} → Result Value → (Value → Result Next) → Result Next
raised exn >>= next = raised exn
ok value >>= next = next value

-- The JSON body `{"error": …, "code": …}` with its status.
pub record ErrorResponse : Type 0 where
  pub status_code : ℕ
  pub error : String
  pub code : String

-- `handle_app_error`; Starlette answers an exception with no handler with a plain 500.
unfoldable pub handle_error : Exn → ErrorResponse
handle_error (app_error e) = record {
  status_code = e.status_code;
  error = e.message;
  code = e.code;
}
handle_error _ = record { status_code = 500; error = "Internal Server Error"; code = "" }

-- `handle_http_exception`: what Starlette raises, as for a path that no route has.
unfoldable pub handle_http_exception : ℕ → String → ErrorResponse
handle_http_exception status_code detail = record {
  status_code = status_code;
  error = detail;
  code = "HTTP_ERROR";
}

-- A chain that succeeds has a first call that succeeds.
pub >>=-eq-ok {ℓ κ} :
    {Value : Type ℓ} {Next : Type κ} (call : Result Value) (next : Value → Result Next) {out : Next}
    → (call >>= next) ≡ ok out
    → (value : Value) × (call ≡ ok value) × (next value ≡ ok out)
>>=-eq-ok (raised exn) next h = cc
>>=-eq-ok (ok value) next h = (value, refl, h)

-- The value of a result, or `default`.
abbrev value_of {ℓ} : {A : Type ℓ} → A → Result A → A
value_of default (ok a) = a
value_of default (raised exn) = default

pub ok_injective {ℓ} : {A : Type ℓ} {a b : A} → ok a ≡ ok b → a ≡ b
ok_injective {A = A} {a = a} e = ap (value_of a) e
