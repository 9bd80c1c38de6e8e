-- ===== src/Access/Laws.antt =====
-- `matchesRoute` of types/routes.ts, on paths as lists of segments.
use build_a_computer.Base.{
  ◌≡◌, sym, ap, ◌∙◌, ◌≢◌, ◌↔◌, inl, inr, true, false, ◌||◌, List, [], ◌∷◌, ◌++◌, arith, Bool-cases,
  length, drop,
}
use build_a_computer.Base.Strings.{
  JsString, codes, str_eq, str_eq_iff, starts_with, starts_with-append, append-drop_of_starts_with,
  split, join, split-append, join-append, join-split, split_cons,
}
use build_a_computer.Access.{matches_route}
use mathlib.Core.List.{append-nil, append_assoc}

-- The parts of a path between slashes.
abbrev pub segments : JsString → List JsString
segments = split (codes "/")

abbrev pub IsUnder : JsString → JsString → Type 0
IsUnder href pathname = (rest : List JsString) × (segments pathname ≡ segments href ++ rest)

segments-below : (href t : JsString) → IsUnder href ((href ++ codes "/") ++ t)
segments-below href t =
    (segments t, ap segments (append_assoc href (codes "/") t) ∙ split-append 47 href t)

not-slash : (href : JsString) → href ≢ codes "/" → str_eq href (codes "/") ≡ false
not-slash href n = elim (Bool-cases (str_eq href (codes "/"))) [
  | inl same ↦ absurd (n ((str_eq_iff href (codes "/")).0 same))
  | inr other ↦ other
]

eq_of_segments : (href p : JsString) → segments p ≡ segments href ++ [] → p ≡ href
eq_of_segments href p e =
    sym (join-split 47 [] p)
    ∙ ap (join (codes "/")) (e ∙ append-nil (segments href))
    ∙ join-split 47 [] href

starts_with_of_segments :
    (href p y : JsString) (ys : List JsString)
    → segments p ≡ segments href ++ (y ∷ ys)
    → starts_with (href ++ codes "/") p ≡ true
starts_with_of_segments href p y ys e =
    let (r, q, cut) = split_cons (codes "/") href in
    let tail : JsString = join (codes "/") (y ∷ ys) in
    let joined : p ≡ href ++ (codes "/" ++ tail) =
      sym (join-split 47 [] p)
      ∙ ap (join (codes "/")) (e ∙ ap (λ u. u ++ (y ∷ ys)) cut)
      ∙ join-append (codes "/") r y q ys
      ∙ ap (λ u. u ++ (codes "/" ++ tail))
          (ap (join (codes "/")) (sym cut) ∙ join-split 47 [] href) in
    rw (joined ∙ sym (append_assoc href (codes "/") tail))
      (starts_with-append (href ++ codes "/") tail)

matches_of_segments :
    (pathname href : JsString) (rest : List JsString)
    → segments pathname ≡ segments href ++ rest
    → (str_eq pathname href || starts_with (href ++ codes "/") pathname) ≡ true
matches_of_segments p h [] e = rw (eq_of_segments h p e) (ground (arith, str_eq_iff h h))
matches_of_segments p h (y ∷ ys) e = ground (arith, starts_with_of_segments h p y ys e)

segments_of_matches :
    (pathname href : JsString)
    → (str_eq pathname href || starts_with (href ++ codes "/") pathname) ≡ true
    → IsUnder href pathname
segments_of_matches p h m = elim (Bool-cases (str_eq p h)) [
  | inl same ↦ ([], ap segments ((str_eq_iff p h).0 same) ∙ sym (append-nil (segments h)))
  | inr other ↦
      let below = segments-below h (drop (length (h ++ codes "/")) p) in
      let back = append-drop_of_starts_with (h ++ codes "/") p (rw other at m) in
      (below.0, ap segments (sym back) ∙ below.1)
]

-- For every route but "/", a path matches exactly when its segments begin with the route's.
pub matches_route_iff :
    (pathname href : JsString)
    → href ≢ codes "/"
    → (matches_route pathname href ≡ true) ↔ IsUnder href pathname
unfolding matches_route
matches_route_iff p h n =
    rw (not-slash h n) (segments_of_matches p h, λ u. matches_of_segments p h u.0 u.1)
