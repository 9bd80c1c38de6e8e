-- ===== src/Forms.antt =====
-- The validation schemas of the forms, as the test that `safeParse` of zod accepts the values:
-- features/authentication/schemas, features/users/schemas, features/games/schemas and
-- features/benchmark/schemas of frontend/src. `is_email` is zod's test of an email.
pub mod Laws
use build_a_computer.Base.{
  ℕ, Bool, true, false, not, ◌&&◌, ◌||◌, Option, none, some, List, [], ◌∷◌, leb, ltb, length, any,
}
use build_a_computer.Base.Strings.{JsString, codes, str_eq}
use build_a_computer.Base.Number.{JsNumber}

-- `/[A-Z]/` and `/[^a-zA-Z0-9]/`, at a code unit.
abbrev pub is_upper : ℕ → Bool
is_upper c = leb 65 c && leb c 90

abbrev pub is_special : ℕ → Bool
is_special c = not ((leb 97 c && leb c 122) || (leb 65 c && leb c 90) || (leb 48 c && leb c 57))

abbrev pub min : ℕ → JsString → Bool
min n s = leb n (length s)

abbrev pub max : ℕ → JsString → Bool
max n s = leb (length s) n

unfoldable pub password_schema : JsString → Bool
password_schema s = min 8 s && (any is_upper s && any is_special s)

unfoldable pub otp_schema : JsString → Bool
otp_schema s = min 4 s

pub record NewPasswordFormValues : Type 0 where
  pub new_password : JsString
  pub confirm_password : JsString

unfoldable pub new_password_schema : NewPasswordFormValues → Bool
unfolding password_schema str_eq
new_password_schema v = password_schema v.new_password && str_eq v.new_password v.confirm_password

pub record LoginFormValues : Type 0 where
  pub username : JsString
  pub email : JsString
  pub password : JsString

pub record CreateFormValues : Type 0 where
  pub username : JsString
  pub email : JsString
  pub password : JsString
  pub role : JsString

pub record UpdateFormValues : Type 0 where
  pub username : JsString
  pub email : JsString
  pub role : JsString
  pub status : JsString

pub record GameFormValues : Type 0 where
  pub name : JsString
  pub necessary_disk : JsString

module _ (is_email : JsString → Bool) where
  unfoldable pub login_schema : LoginFormValues → Bool
  unfolding password_schema
  login_schema v = min 1 v.username && (is_email v.email && password_schema v.password)

-- `Object.values(UserRole)` and `Object.values(UserStatus)` are parameters of the two schemas.
module _ (is_email : JsString → Bool) (roles statuses : List JsString) where
  unfoldable pub create_user_schema : CreateFormValues → Bool
  unfolding password_schema str_eq
  create_user_schema v =
      (min 1 v.username && max 255 v.username)
      && (is_email v.email && (password_schema v.password && any (str_eq v.role) roles))

  unfoldable pub update_user_schema : UpdateFormValues → Bool
  unfolding str_eq
  update_user_schema v =
      (min 1 v.username && max 255 v.username)
      && (is_email v.email && (any (str_eq v.role) roles && any (str_eq v.status) statuses))

pub record CreateBenchmarkFormValues : Type 0 where
  pub title : JsString
  pub gpu_id : JsString
  pub cpu_id : JsString
  pub ram_id : JsString
  pub game_id : JsString
  pub resolution : JsString
  pub graphics_quality : JsString
  pub avg_fps : JsString
  pub min_fps : JsString
  pub max_fps : JsString
  pub score : Option JsString

module _ {N : Type 0} (d : JsNumber N) where
  unfoldable pub game_schema : GameFormValues → Bool
  game_schema v =
      (min 1 v.name && max 1024 v.name)
      && (min 1 v.necessary_disk
          && (d.is_integer (d.of_string v.necessary_disk)
              && d.lt (d.of_ℕ 0) (d.of_string v.necessary_disk)))

  unfoldable pub positive_fps_string : JsString → Bool
  positive_fps_string v =
      min 1 v && (not (d.is_nan (d.of_string v)) && d.lt (d.of_ℕ 0) (d.of_string v))

  unfoldable pub score_schema : Option JsString → Bool
  score_schema none = true
  score_schema (some []) = true
  score_schema (some (c ∷ s)) =
      not (d.is_nan (d.of_string (c ∷ s))) && d.le (d.of_ℕ 0) (d.of_string (c ∷ s))

  unfoldable pub create_benchmark_schema : CreateBenchmarkFormValues → Bool
  create_benchmark_schema v =
      (min 1 v.title && max 255 v.title)
      && ((min 1 v.gpu_id && (min 1 v.cpu_id && (min 1 v.ram_id && min 1 v.game_id)))
          && ((min 1 v.resolution && min 1 v.graphics_quality)
              && ((positive_fps_string v.avg_fps
                    && (positive_fps_string v.min_fps && positive_fps_string v.max_fps))
                  && (score_schema v.score
                      && (d.le (d.of_string v.min_fps) (d.of_string v.avg_fps)
                          && d.le (d.of_string v.avg_fps) (d.of_string v.max_fps))))))
