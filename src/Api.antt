-- ===== src/Api.antt =====
-- The HTTP client of frontend/src/services/api.ts. `fetch` is a parameter: it takes the request to
-- what the promise settles with.
pub mod Endpoints
pub mod Laws
use build_a_computer.Base.{
  ℕ, Bool, true, false, ◌&&◌, ◌||◌, Option, none, some, List, [], ◌∷◌, ◌++◌, if◌then◌else◌, leb,
  ◌==◌, or_else, ◌⊎◌, inl, inr,
}
use build_a_computer.Base.Strings.{JsString, codes, str_eq}
use build_a_computer.Base.Json.{Json, null, str, obj, end, Fields, property, is_falsy}
use build_a_computer.Base.Number.{JsNumber}
use build_a_computer.Access.Cookie.{get_cookie}

pub data HttpMethod : Type 0 where
  get post put patch delete head : HttpMethod

abbrev pub method_name : HttpMethod → JsString
method_name get = codes "GET"
method_name post = codes "POST"
method_name put = codes "PUT"
method_name patch = codes "PATCH"
method_name delete = codes "DELETE"
method_name head = codes "HEAD"

abbrev pub Headers : Type 0
Headers = List (JsString × JsString)

pub record ApiOptions (P : Type 0) : Type 0 where
  pub method : HttpMethod
  pub headers : Headers
  pub payload : Option P

-- `HttpError`, whose message is a value of the response, and any other `Error`.
pub data ApiError (N : Type 0) : Type 0 where
  http_error : (status : ℕ) → (message : Json N) → ApiError N
  other_error : (message : JsString) → ApiError N

pub data ApiResult (N T : Type 0) : Type 0 where
  ok : T → ApiResult N T
  failed : ApiError N → ApiResult N T

pub record Request : Type 0 where
  pub url : JsString
  pub method : HttpMethod
  pub headers : Headers
  pub body : Option JsString

-- What `response.json()` settles with.
pub data Body (N : Type 0) : Type 0 where
  parsed : Json N → Body N
  unreadable : (message : JsString) → Body N

-- What `fetch` settles with: a reason that is an `Error`, another reason, or a response.
pub data Answer (N : Type 0) : Type 0 where
  rejected : ApiError N → Answer N
  rejected_other : Answer N
  response : (status : ℕ) → Body N → Answer N

-- `headers[key] = value`.
unfoldable pub assign : JsString → JsString → Headers → Headers
unfolding str_eq
assign k v [] = (k, v) ∷ []
assign k v ((j, w) ∷ hs) = if str_eq j k then (k, v) ∷ hs else (j, w) ∷ assign k v hs

-- `{ ...hs, ...more }`.
unfoldable pub spread : Headers → Headers → Headers
unfolding assign
spread hs [] = hs
spread hs ((k, v) ∷ more) = spread (assign k v hs) more

-- `process.env.NEXT_PUBLIC_HOST`; `none` or "" where it is not set.
unfoldable pub base_url : Option JsString → JsString
base_url none = codes "http://localhost:3000/api/v1/"
base_url (some []) = codes "http://localhost:3000/api/v1/"
base_url (some (c ∷ s)) = (c ∷ s) ++ codes "api/v1/"

-- `if (token) headers['Authorization'] = …`.
unfoldable pub authorize : Option JsString → Headers → Headers
unfolding assign
authorize none hs = hs
authorize (some []) hs = hs
authorize (some (c ∷ s)) hs = assign (codes "Authorization") (codes "Bearer " ++ (c ∷ s)) hs

-- `response.ok`.
abbrev pub is_ok : ℕ → Bool
is_ok status = leb 200 status && leb status 299

-- `response.json()` inside its own `try`.
abbrev pub data_of : {N : Type 0} → Body N → Json N
data_of (parsed v) = v
data_of (unreadable _) = null

-- `error?.message`, for the value of `error`; `none` is `undefined`.
unfoldable pub message_of : {N : Type 0} → Option (Json N) → Option (Json N)
message_of (some (obj fs)) = property (codes "message") fs
message_of _ = none

-- `errorData?.error?.message`.
unfoldable pub error_message : {N : Type 0} → Json N → Option (Json N)
unfolding message_of
error_message (obj fs) = message_of (property (codes "error") fs)
error_message _ = none

module _ {N : Type 0} ⦃d : JsNumber N⦄ (is_zero : N → Bool) where
  abbrev pub default_message : ℕ → Json N
  default_message status = str (codes "Unexpected HTTP error " ++ d.to_string (d.of_ℕ status))

  unfoldable pub describe : ℕ → Body N → Json N
  describe status body = elim (error_message (data_of body)) [
    | none ↦ default_message status
    | some m ↦ if is_falsy is_zero m then default_message status else m
  ]

  -- The `try` block behind `fetch`.
  unfoldable pub conclude : Answer N → ApiResult N (Json N)
  conclude (rejected e) = failed e
  conclude rejected_other = failed (other_error (codes "Unknown Error"))
  conclude (response status body) =
      if is_ok status
      then if status == 204
        then ok (obj end)
        else elim body [ parsed v ↦ ok v | unreadable m ↦ failed (other_error m) ]
      else failed (http_error status (describe status body))

-- The part before `fetch`: a request, or the refusal of a body for GET and HEAD. `stringify` is
-- `JSON.stringify`, `cookies` is `document.cookie`.
module _ {P : Type 0} (stringify : P → JsString) (host : Option JsString) (cookies : JsString) where
  abbrev pub request_for : JsString → ApiOptions P → Option JsString → Request
  request_for endpoint options body = record {
    url = base_url host ++ endpoint;
    method = options.method;
    headers =
        authorize (get_cookie (codes "access_token") cookies)
          (spread ((codes "Content-Type", codes "application/json") ∷ []) options.headers);
    body = body;
  }

  abbrev refusal : HttpMethod → JsString
  refusal m = codes "The method " ++ (method_name m ++ codes " should not have a body!")

  unfoldable pub with_payload :
      {N : Type 0} → JsString → ApiOptions P → HttpMethod → Option P → Request ⊎ ApiError N
  with_payload endpoint options m none = inl (request_for endpoint options none)
  with_payload endpoint options get (some p) = inr (other_error (refusal get))
  with_payload endpoint options head (some p) = inr (other_error (refusal head))
  with_payload endpoint options m (some p) = inl (request_for endpoint options (some (stringify p)))

  -- `none` stands for no `payload`, which is an object where it is given.
  unfoldable pub prepare : {N : Type 0} → JsString → ApiOptions P → Request ⊎ ApiError N
  unfolding with_payload
  prepare endpoint options = with_payload endpoint options options.method options.payload

  -- `S` is the state of the world that `fetch` acts on.
  unfoldable pub api :
      {N S : Type 0} ⦃d : JsNumber N⦄
      → (N → Bool)
      → (Request → S → Answer N × S)
      → JsString
      → ApiOptions P
      → S
      → ApiResult N (Json N) × S
  api is_zero fetch endpoint options s = elim (prepare endpoint options) [
    | inl request ↦ let (answer, t) = fetch request s in (conclude is_zero answer, t)
    | inr e ↦ (failed e, s)
  ]
