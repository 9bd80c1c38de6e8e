-- ===== src/Api/Laws.antt =====
-- What a caller of `api` can rely on.
use mathlib.Core.Option
use mathlib.Core.Path.{subst}
use build_a_computer.Base.{
  ◌≤◌, ◌≡◌, refl, sym, ap, ◌∙◌, ◌≢◌, ◌↔◌, ◌⊎◌, inl, inr, Bool, Option, none, some, [], ◌∷◌, ◌++◌,
  arith, if◌then◌else◌, or_else,
}
use build_a_computer.Base.Strings.{JsString, codes, str_eq, str_eq_iff, lookup}
use build_a_computer.Base.Json.{Json, obj, end}
use build_a_computer.Base.Number.{JsNumber}
use build_a_computer.Access.Cookie.{get_cookie}
use build_a_computer.Api.{
  HttpMethod, get, head, post, put, patch, delete, Headers, ApiOptions, ApiError, ok, Request,
  parsed, unreadable, Answer, rejected, rejected_other, response, assign, spread, authorize,
  conclude, prepare, with_payload, request_for, api,
}

-- The answer carries the data: a status of success, with a body that is JSON or status 204 with none.
abbrev pub Delivers : {N : Type 0} → Answer N → Json N → Type 0
Delivers (rejected _) v = ⊥
Delivers rejected_other v = ⊥
Delivers (response status body) v =
    (200 ≤ status)
    × (status ≤ 299)
    × (((status ≡ 204) × (v ≡ obj end)) ⊎ ((status ≢ 204) × (body ≡ parsed v)))

module _ {N : Type 0} ⦃d : JsNumber N⦄ (is_zero : N → Bool) where
  conclude_ok_iff : (a : Answer N) (v : Json N) → (conclude is_zero a ≡ ok v) ↔ Delivers a v
  unfolding conclude
  conclude_ok_iff (rejected e) v = (λ h. cc, λ h. absurd h)
  conclude_ok_iff rejected_other v = (λ h. cc, λ h. absurd h)
  conclude_ok_iff (response status (parsed u)) v = (λ h. ground arith, λ h. ground arith)
  conclude_ok_iff (response status (unreadable m)) v = (λ h. ground arith, λ h. ground arith)

lookup-assign :
    (k j v : JsString) (hs : Headers)
    → lookup j (assign k v hs) ≡ (if str_eq j k then some v else lookup j hs)
unfolding lookup assign
lookup-assign k j v [] = refl
lookup-assign k j v ((i, w) ∷ hs) =
    ground (
      arith,
      str_eq_iff k j,
      str_eq_iff i k,
      str_eq_iff j k,
      str_eq_iff j i,
      lookup-assign k j v hs,
    )

-- The last value under a key.
abbrev pub last_value : JsString → Headers → Option JsString
last_value k [] = none
last_value k ((j, v) ∷ hs) = elim (last_value k hs) [
  | none ↦ if str_eq k j then some v else none
  | some w ↦ some w
]

unfoldable pub first_some : Option JsString → Option JsString → Option JsString
first_some none b = b
first_some (some a) b = some a

lookup-spread :
    (k : JsString) (hs more : Headers)
    → lookup k (spread hs more) ≡ first_some (last_value k more) (lookup k hs)
unfolding spread first_some
lookup-spread k hs [] = refl
lookup-spread k hs ((j, v) ∷ more) =
    ground (arith, lookup-spread k (assign j v hs) more, lookup-assign j k v hs)

-- The token that is sent: a cookie that is there and not empty.
abbrev pub bearer : Option JsString → Option JsString
bearer none = none
bearer (some []) = none
bearer (some (c ∷ s)) = some (codes "Bearer " ++ (c ∷ s))

lookup-authorize :
    (k : JsString) (token : Option JsString) (hs : Headers)
    → lookup k (authorize token hs) ≡ (
        if str_eq k (codes "Authorization")
        then first_some (bearer token) (lookup k hs)
        else lookup k hs)
unfolding authorize first_some
lookup-authorize k none hs = ground arith
lookup-authorize k (some []) hs = ground arith
lookup-authorize k (some (c ∷ s)) hs =
    lookup-assign (codes "Authorization") k (codes "Bearer " ++ (c ∷ s)) hs

first_some-none : (a : Option JsString) → first_some a none ≡ a
unfolding first_some
first_some-none none = refl
first_some-none (some a) = refl

first_some-some : (a : Option JsString) (b : JsString) → first_some a (some b) ≡ some (or_else a b)
unfolding first_some
first_some-some none b = refl
first_some-some (some a) b = refl

abbrev json_type : Headers
json_type = (codes "Content-Type", codes "application/json") ∷ []

headers_auth :
    (token : Option JsString) (more : Headers)
    → lookup (codes "Authorization") (authorize token (spread json_type more))
      ≡ first_some (bearer token) (last_value (codes "Authorization") more)
unfolding str_eq lookup
headers_auth token more =
    lookup-authorize (codes "Authorization") token (spread json_type more)
    ∙ ap (first_some (bearer token)) (
        lookup-spread (codes "Authorization") json_type more
        ∙ first_some-none (last_value (codes "Authorization") more))

headers_type :
    (token : Option JsString) (more : Headers)
    → lookup (codes "Content-Type") (authorize token (spread json_type more))
      ≡ some (or_else (last_value (codes "Content-Type") more) (codes "application/json"))
unfolding str_eq lookup
headers_type token more =
    lookup-authorize (codes "Content-Type") token (spread json_type more)
    ∙ lookup-spread (codes "Content-Type") json_type more
    ∙ first_some-some (last_value (codes "Content-Type") more) (codes "application/json")

inl-injective : {A B : Type 0} {x y : A} → ◌≡◌ {A = A ⊎ B} (inl x) (inl y) → x ≡ y
inl-injective e = cc e

module _ {P : Type 0} (stringify : P → JsString) (host : Option JsString) (cookies : JsString) where
  module _ {N : Type 0} where
    -- A body for GET or HEAD is the only thing that is refused.
    pub prepare_sends_iff :
        (endpoint : JsString) (options : ApiOptions P)
        → ((req : Request) × (prepare stringify host cookies {N = N} endpoint options ≡ inl req))
          ↔ ((options.payload ≡ none) ⊎ ((options.method ≢ get) × (options.method ≢ head)))
    unfolding prepare
    prepare_sends_iff endpoint options = cases options.method options.payload
      where
        cases :
            (m : HttpMethod) (p : Option P)
            → ((req : Request) × (with_payload stringify host cookies {N = N} endpoint options m p
                  ≡ inl req))
              ↔ ((p ≡ none) ⊎ ((m ≢ get) × (m ≢ head)))
        cases m none =
            (λ _. inl refl, λ _. (request_for stringify host cookies endpoint options none, refl))
        cases get (some p) = (λ h. cc h.1, λ h. ground arith)
        cases head (some p) = (λ h. cc h.1, λ h. ground arith)
        cases m (some p) = (
          λ _. inr (cc, cc),
          λ _. (request_for stringify host cookies endpoint options (some (stringify p)), refl),
        )

    with_payload-eq :
        (endpoint : JsString) (options : ApiOptions P) (m : HttpMethod) (p : Option P)
        (req : Request)
        → with_payload stringify host cookies {N = N} endpoint options m p ≡ inl req
        → req ≡ request_for stringify host cookies endpoint options (Option.map stringify p)
    unfolding with_payload
    with_payload-eq endpoint options m none req e = sym (inl-injective e)
    with_payload-eq endpoint options get (some p) req e = cc e
    with_payload-eq endpoint options head (some p) req e = cc e
    with_payload-eq endpoint options post (some p) req e = sym (inl-injective e)
    with_payload-eq endpoint options put (some p) req e = sym (inl-injective e)
    with_payload-eq endpoint options patch (some p) req e = sym (inl-injective e)
    with_payload-eq endpoint options delete (some p) req e = sym (inl-injective e)

    -- Where a request is prepared, its method is the caller's and its body the caller's payload, a
    -- token in the cookies is sent as the bearer and hides the caller's own header, and the caller
    -- may replace the content type.
    pub prepare_lem :
        (endpoint : JsString) (options : ApiOptions P) (req : Request)
        → prepare stringify host cookies {N = N} endpoint options ≡ inl req
        → (req.method ≡ options.method)
          × (req.body ≡ Option.map stringify options.payload)
          × (lookup (codes "Authorization") req.headers
              ≡ first_some
                  (bearer (get_cookie (codes "access_token") cookies))
                  (last_value (codes "Authorization") options.headers))
          × (lookup (codes "Content-Type") req.headers
              ≡ some (
                  or_else
                    (last_value (codes "Content-Type") options.headers)
                    (codes "application/json")))
    unfolding prepare
    prepare_lem endpoint options req e =
        let same = with_payload-eq endpoint options options.method options.payload req e in
        (
          ap (λ (r : Request). r.method) same,
          ap (λ (r : Request). r.body) same,
          ap (λ (r : Request). lookup (codes "Authorization") r.headers) same
              ∙ headers_auth (get_cookie (codes "access_token") cookies) options.headers,
          ap (λ (r : Request). lookup (codes "Content-Type") r.headers) same
              ∙ headers_type (get_cookie (codes "access_token") cookies) options.headers,
        )

    module _ {S : Type 0} ⦃d : JsNumber N⦄ (is_zero : N → Bool)
        (fetch : Request → S → Answer N × S) where
      -- `api` succeeds with a value exactly when it sent a request and the answer delivers the value.
      pub api_ok_iff :
          (endpoint : JsString) (options : ApiOptions P) (s : S) (v : Json N)
          → ((api stringify host cookies is_zero fetch endpoint options s).0 ≡ ok v) ↔ (
              (req : Request) × (prepare stringify host cookies {N = N} endpoint options ≡ inl req)
              × Delivers (fetch req s).0 v)
      unfolding api
      api_ok_iff endpoint options s v =
          cases (prepare stringify host cookies {N = N} endpoint options) refl
        where
          cases :
              (r : Request ⊎ ApiError N)
              → prepare stringify host cookies {N = N} endpoint options ≡ r
              → ((api stringify host cookies is_zero fetch endpoint options s).0 ≡ ok v) ↔ (
                  (req : Request) × (prepare stringify host cookies {N = N} endpoint options
                    ≡ inl req)
                  × Delivers (fetch req s).0 v)
          cases (inl req) e =
              rw (e, api)
                (
                  λ h. (req, refl, (conclude_ok_iff is_zero (fetch req s).0 v).0 h),
                  λ h.
                      (conclude_ok_iff is_zero (fetch req s).0 v).1
                        (subst (λ r. Delivers (fetch r s).0 v) (sym (inl-injective h.1)) h.2),
                )
          cases (inr err) e = rw (e, api) (λ h. cc h, λ h. cc h.1)
