-- ===== src/Httpx.antt =====
-- internal/server/httpx: the error that a handler writes, its constructors, and the bearer token.
-- A message that the code formats is kept as its parts.
use mdfly.Common.{
  Str, codes, cut_prefix, trim, is_space, ℤ, ℕ, String, ◌≡◌, refl, ◌⊎◌, inl, inr, Option, none,
  some, [],
}
use mdfly.Api.{code_gone}

pub data Msg : Type 0 where
  text : String → Msg
  -- "bundle exceeds %s limit (%d, max %d)"
  limit_msg : String → ℤ → ℤ → Msg
  -- "blob %s not found or size mismatch"
  blob_msg : Str → Msg

pub data Details : Type 0 where
  no_details empty_details : Details
  limit_details : String → ℤ → ℤ → Details

pub record HttpError : Type 0 where
  pub status : ℕ
  pub code : String
  pub msg : Msg
  pub details : Details

-- What a service method returns: a value, or the error that the handler writes.
pub data Result {ℓ} (A : Type ℓ) : Type ℓ where
  ok : A → Result A
  err : HttpError → Result A

infixl 5 ◌>>=◌ ◌>>◌
abbrev pub ◌>>=◌ {ℓ κ} : {A : Type ℓ} {B : Type κ} → Result A → (A → Result B) → Result B
ok a >>= f = f a
err e >>= f = err e

-- A check returns an error or nothing: `if herr := check(); herr != nil { return herr }`.
abbrev pub ◌>>◌ {ℓ} : {A : Type ℓ} → Option HttpError → Result A → Result A
none >> k = k
some e >> k = err e

abbrev plain : ℕ → String → Msg → HttpError
plain s c m = record { status = s; code = c; msg = m; details = no_details }

abbrev pub bad_request : String → HttpError
bad_request m = plain 400 "bad_request" (text m)

abbrev pub not_found : String → HttpError
not_found m = plain 404 "not_found" (text m)

abbrev pub gone : String → HttpError
gone m = plain 410 code_gone (text m)

abbrev pub unauthorized : String → String → HttpError
unauthorized c m = plain 401 c (text m)

abbrev pub forbidden : String → String → HttpError
forbidden c m = plain 403 c (text m)

abbrev pub conflict : String → String → HttpError
conflict c m = plain 409 c (text m)

abbrev pub internal : String → HttpError
internal m = plain 500 "internal_error" (text m)

abbrev pub unprocessable : String → String → HttpError
unprocessable c m = record { status = 422; code = c; msg = text m; details = empty_details }

abbrev pub bundle_too_large : String → ℤ → ℤ → HttpError
bundle_too_large name max_size actual = record {
  status = 413;
  code = "bundle_too_big";
  msg = limit_msg name actual max_size;
  details = limit_details name max_size actual;
}

-- `BearerToken`
unfoldable pub bearer_token : Str → Str
unfolding cut_prefix trim
bearer_token header = elim (cut_prefix header (codes "Bearer ")) [
  | none ↦ []
  | some rest ↦ trim is_space rest
]

bearer_token_header : bearer_token (codes "Bearer  abc ") ≡ codes "abc"
unfolding bearer_token
bearer_token_header = refl

pub Result-cases :
    {A : Type 0} (x : Result A) → ((e : HttpError) × (x ≡ err e)) ⊎ ((a : A) × (x ≡ ok a))
Result-cases (err e) = inl (e, refl)
Result-cases (ok a) = inr (a, refl)

pub check_cases : (x : Option HttpError) → ((e : HttpError) × (x ≡ some e)) ⊎ (x ≡ none)
check_cases (some e) = inl (e, refl)
check_cases none = inr refl
