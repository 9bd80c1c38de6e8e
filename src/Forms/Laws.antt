-- ===== src/Forms/Laws.antt =====
-- What an accepted form holds.
use build_a_computer.Base.{ℕ, ◌≤◌, ◌≡◌, ◌↔◌, Bool, true, ◌&&◌, arith, length, any_iff, In, leb→le}
use build_a_computer.Base.Strings.{str_eq_iff}
use build_a_computer.Forms.{
  is_upper, is_special, password_schema, NewPasswordFormValues, new_password_schema,
}

and_iff : (a b : Bool) → ((a && b) ≡ true) ↔ ((a ≡ true) × (b ≡ true))
and_iff a b = ground arith

-- A new password is accepted exactly when it has eight code units, one of them an upper-case letter
-- and one neither a letter nor a digit, and is typed twice alike.
pub new_password_schema_iff :
    (v : NewPasswordFormValues)
    → (new_password_schema v ≡ true) ↔ (
        (8 ≤ length v.new_password)
        × ((c : ℕ) × In c v.new_password × (is_upper c ≡ true))
        × ((c : ℕ) × In c v.new_password × (is_special c ≡ true))
        × (v.new_password ≡ v.confirm_password))
unfolding new_password_schema password_schema
new_password_schema_iff v = (
  λ h.
      let (p, same) = (and_iff _ _).0 h in
      let (long, q) = (and_iff _ _).0 p in
      let (upper, special) = (and_iff _ _).0 q in
      (
        leb→le 8 (length v.new_password) long,
        (any_iff is_upper v.new_password).0 upper,
        (any_iff is_special v.new_password).0 special,
        (str_eq_iff v.new_password v.confirm_password).0 same,
      ),
  λ (long, upper, special, same). (and_iff _ _).1 (
    (and_iff _ _).1 (
      ground arith,
      (and_iff _ _).1 (
        (any_iff is_upper v.new_password).1 upper,
        (any_iff is_special v.new_password).1 special,
      ),
    ),
    (str_eq_iff v.new_password v.confirm_password).1 same,
  ),
)
