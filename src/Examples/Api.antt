-- ===== src/Examples/Api.antt =====
-- A request with a body, and one that is refused.
use build_a_computer.Base.{ℕ, suc, ◌≡◌, refl, ◌↔◌, inl, none, some, List, [], ◌∷◌}
use build_a_computer.Base.Strings.{JsString, codes}
use build_a_computer.Base.Json.{str}
use build_a_computer.Access.Cookie.{get_cookie}
use build_a_computer.Api.{
  get, post, ApiOptions, ok, Request, Answer, response, parsed, prepare, api, base_url, authorize,
  spread,
}
use build_a_computer.Api.Laws.{Delivers, api_ok_iff}
use build_a_computer.Examples.Numbers.{naturals, is_zero}

abbrev pub text : JsString → JsString
text s = s

abbrev pub saved : ApiOptions JsString
saved = record { method = post; headers = []; payload = some (codes "{}") }

abbrev read_with_body : ApiOptions JsString
read_with_body = record { method = get; headers = []; payload = some (codes "{}") }

-- A server that counts its requests.
abbrev server : Request → ℕ → Answer ℕ × ℕ
server r n = (response 200 (parsed (str (codes "done"))), suc n)

abbrev cookies : JsString
cookies = codes "access_token=t1"

abbrev headers : List (JsString × JsString)
headers =
    (codes "Content-Type", codes "application/json")
    ∷ (codes "Authorization", codes "Bearer t1")
    ∷ []

abbrev sent : Request
sent = record {
  url = codes "http://localhost:3000/api/v1/games";
  method = post;
  headers = headers;
  body = some (codes "{}");
}

sent_lem : prepare text none cookies {N = ℕ} (codes "games") saved ≡ inl sent
unfolding prepare get_cookie base_url authorize spread
sent_lem = refl

api_ok_iff_example :
    ((api text none cookies is_zero server (codes "games") saved 0).0 ≡ ok (str (codes "done"))) ↔ (
      (req : Request) × (prepare text none cookies {N = ℕ} (codes "games") saved ≡ inl req)
      × Delivers (server req 0).0 (str (codes "done")))
api_ok_iff_example =
    api_ok_iff text none cookies is_zero server (codes "games") saved 0 (str (codes "done"))
