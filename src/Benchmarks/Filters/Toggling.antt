-- ===== src/Benchmarks/Filters/Toggling.antt =====
-- What `toggle` of filter-panel.tsx changes.
use mathlib.Core.Path.{subst}
use build_a_computer.Base.{
  ◌≡◌, refl, sym, ◌≢◌, ◌↔◌, ◌⊎◌, inl, inr, true, false, not, List, [], ◌∷◌, ◌++◌, arith, Bool-cases,
  any, In, In-append, In-filter_iff, filter,
}
use build_a_computer.Base.Strings.{JsString, str_eq, str_eq_iff}
use build_a_computer.Benchmarks.Filters.{Filters, Facet, wanted, with_wanted, toggle_value, toggle}
use build_a_computer.Benchmarks.Filters.Laws.{any-str_eq}

not-str_eq_iff : (w v : JsString) → (not (str_eq w v) ≡ true) ↔ (w ≢ v)
not-str_eq_iff w v = elim (Bool-cases (str_eq w v)) [
  | inl e ↦ rw e (λ h _. cc h, λ n. absurd (n ((str_eq_iff w v).0 e)))
  | inr e ↦ rw e (λ _ p. cc (e, (str_eq_iff w v).1 p), λ _. refl)
]

keep_iff :
    (v w : JsString) (ws : List JsString)
    → In w (filter (λ u. not (str_eq u v)) ws) ↔ (In w ws × (w ≢ v))
keep_iff v w ws = (
  λ h.
      let (i, e) = (In-filter_iff (λ u. not (str_eq u v)) w ws).0 h in
      (i, (not-str_eq_iff w v).0 e),
  λ h. (In-filter_iff (λ u. not (str_eq u v)) w ws).1 (h.0, (not-str_eq_iff w v).1 h.1),
)

module _ (v w : JsString) (ws : List JsString) where
  abbrev dropped : List JsString
  dropped = filter (λ u. not (str_eq u v)) ws

  here : any (str_eq v) ws ≡ true → w ≡ v → In w ws
  here h e = subst (λ u. In u ws) (sym e) ((any-str_eq v ws).0 h)

  drop_self : any (str_eq v) ws ≡ true → w ≡ v → In w dropped ↔ (¬ In w ws)
  drop_self h e = (λ i _. ((keep_iff v w ws).0 i).1 e, λ n. absurd (n (here h e)))

  add_self : any (str_eq v) ws ≡ false → w ≡ v → In w (ws ++ v ∷ []) ↔ (¬ In w ws)
  add_self h e = (
    λ _ i. cc (h, (any-str_eq v ws).1 (subst (λ u. In u ws) e i)),
    λ _. (In-append w ws (v ∷ [])).1 (inr (inl e)),
  )

  add_other : w ≢ v → In w (ws ++ v ∷ []) ↔ In w ws
  add_other n =
      (λ h. last ((In-append w ws (v ∷ [])).0 h), λ i. (In-append w ws (v ∷ [])).1 (inl i))
    where
      last : (In w ws ⊎ In w (v ∷ [])) → In w ws
      last (inl i) = i
      last (inr (inl e)) = absurd (n e)
      last (inr (inr b)) = absurd b

  -- `toggle` turns the membership of its value round and leaves every other value.
  pub toggle_value_iff :
      ((w ≡ v) → (In w (toggle_value str_eq str_eq v ws) ↔ (¬ In w ws)))
      × ((w ≢ v) → (In w (toggle_value str_eq str_eq v ws) ↔ In w ws))
  unfolding toggle_value
  toggle_value_iff = elim (Bool-cases (any (str_eq v) ws)) [
    | inl h ↦
        rw h (drop_self h, λ n. (λ i. ((keep_iff v w ws).0 i).0, λ i. (keep_iff v w ws).1 (i, n)))
    | inr h ↦ rw h (add_self h, add_other)
  ]

wanted-with_wanted :
    {N : Type 0} (f : Filters N) (k : Facet) (xs : List JsString)
    → wanted (with_wanted f k xs) k ≡ xs
wanted-with_wanted f Facet.gpu_vendors xs = refl
wanted-with_wanted f Facet.gpu_series xs = refl
wanted-with_wanted f Facet.gpu_memory_gen xs = refl
wanted-with_wanted f Facet.cpu_vendors xs = refl
wanted-with_wanted f Facet.cpu_family xs = refl
wanted-with_wanted f Facet.cpu_socket xs = refl
wanted-with_wanted f Facet.ram_ddr xs = refl
wanted-with_wanted f Facet.ram_brand xs = refl
wanted-with_wanted f Facet.games xs = refl
wanted-with_wanted f Facet.graphics_qualities xs = refl

wanted-with_wanted_ne :
    {N : Type 0} (f : Filters N) (k j : Facet) (xs : List JsString)
    → k ≢ j
    → wanted (with_wanted f k xs) j ≡ wanted f j
wanted-with_wanted_ne f k j xs n = ground arith

pub wanted-toggle :
    {N : Type 0} (f : Filters N) (k : Facet) (v : JsString)
    → wanted (toggle k v f) k ≡ toggle_value str_eq str_eq v (wanted f k)
unfolding toggle
wanted-toggle f k v = wanted-with_wanted f k (toggle_value str_eq str_eq v (wanted f k))

pub wanted-toggle_ne :
    {N : Type 0} (f : Filters N) (k j : Facet) (v : JsString)
    → k ≢ j
    → wanted (toggle k v f) j ≡ wanted f j
unfolding toggle
wanted-toggle_ne f k j v n =
    wanted-with_wanted_ne f k j (toggle_value str_eq str_eq v (wanted f k)) n

with_wanted_rest :
    {N : Type 0} (f : Filters N) (k : Facet) (xs : List JsString)
    → ((with_wanted f k xs).resolutions ≡ f.resolutions)
      × ((with_wanted f k xs).min_avg_fps ≡ f.min_avg_fps)
with_wanted_rest f k xs = ground arith

pub toggle_rest :
    {N : Type 0} (f : Filters N) (k : Facet) (v : JsString)
    → ((toggle k v f).resolutions ≡ f.resolutions) × ((toggle k v f).min_avg_fps ≡ f.min_avg_fps)
unfolding toggle
toggle_rest f k v = with_wanted_rest f k (toggle_value str_eq str_eq v (wanted f k))

pub toggle_parts :
    {N : Type 0} (f : Filters N) (k : Facet) (v : JsString)
    → (In v (wanted (toggle k v f) k) ↔ (¬ In v (wanted f k)))
      × ((w : JsString) → w ≢ v → In w (wanted (toggle k v f) k) ↔ In w (wanted f k))
      × ((j : Facet) → k ≢ j → wanted (toggle k v f) j ≡ wanted f j)
      × ((toggle k v f).resolutions ≡ f.resolutions)
      × ((toggle k v f).min_avg_fps ≡ f.min_avg_fps)
toggle_parts f k v = (
  rw (wanted-toggle f k v) ((toggle_value_iff v v (wanted f k)).0 refl),
  λ w n. rw (wanted-toggle f k v) ((toggle_value_iff v w (wanted f k)).1 n),
  λ j n. wanted-toggle_ne f k j v n,
  (toggle_rest f k v).0,
  (toggle_rest f k v).1,
)

-- `toggle` asks for its value where it was not asked for and gives it up where it was; no other
-- value of the facet, no other facet, no resolution and not the frame rate changes.
pub toggle_lem :
    {N : Type 0} (f : Filters N) (k j : Facet) (v w : JsString)
    → w ≢ v
    → k ≢ j
    → (In v (wanted (toggle k v f) k) ↔ (¬ In v (wanted f k)))
      × (In w (wanted (toggle k v f) k) ↔ In w (wanted f k))
      × (wanted (toggle k v f) j ≡ wanted f j)
      × ((toggle k v f).resolutions ≡ f.resolutions)
      × ((toggle k v f).min_avg_fps ≡ f.min_avg_fps)
toggle_lem f k j v w n m =
    let (own, others, facets, rs, fps) = toggle_parts f k v in
    (own, others w n, facets j m, rs, fps)

pub Facet-discrete : Discrete Facet
Facet-discrete = hlevel
