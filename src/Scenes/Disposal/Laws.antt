-- ===== src/Scenes/Disposal/Laws.antt =====
-- What a scene's disposal disposes of.
use build_a_computer.Base.{◌≡◌, ◌⊎◌, inl, inr, ◌↔◌, List, [], ◌∷◌, ◌++◌, map, In, In-append, arith}
use build_a_computer.Scenes.Disposal.Distinct.{
  IsDistinct, insert-IsDistinct, In-insert, In-map, In-map_same, absent, map-IsDistinct,
  append-IsDistinct,
}
use build_a_computer.Scenes.Disposal.Resources.{
  put_all, scene_resources, resources, traverse_lem, In-scene_resources,
}
use build_a_computer.Scenes.Disposal.{
  Object, Resource, geometry, material, texture, Sets, put, dispose_scene,
}

-- The resource is in its set.
abbrev Holds : Resource → Sets → Type 0
Holds (geometry x) s = In x s.geometries
Holds (material x) s = In x s.materials
Holds (texture x) s = In x s.textures

put-Holds : (x r : Resource) (s : Sets) → Holds x (put r s) ↔ ((x ≡ r) ⊎ Holds x s)
unfolding put
put-Holds (geometry x) (geometry r) s = grind (arith, In-insert x r s.geometries)
put-Holds (geometry x) (material r) s = ground arith
put-Holds (geometry x) (texture r) s = ground arith
put-Holds (material x) (geometry r) s = ground arith
put-Holds (material x) (material r) s = grind (arith, In-insert x r s.materials)
put-Holds (material x) (texture r) s = ground arith
put-Holds (texture x) (geometry r) s = ground arith
put-Holds (texture x) (material r) s = ground arith
put-Holds (texture x) (texture r) s = grind (arith, In-insert x r s.textures)

put_all-Holds :
    (x : Resource) (rs : List Resource) (s : Sets) → Holds x (put_all rs s) ↔ (In x rs ⊎ Holds x s)
put_all-Holds x [] s = (λ h. inr h, λ h. elim h [ inl none ↦ absurd none | inr i ↦ i ])
put_all-Holds x (r ∷ rs) s = ground (arith, put_all-Holds x rs (put r s), put-Holds x r s)

record AreDistinct (s : Sets) : Type 0 where
  geometries : IsDistinct s.geometries
  materials : IsDistinct s.materials
  textures : IsDistinct s.textures

put-AreDistinct : (r : Resource) (s : Sets) → AreDistinct s → AreDistinct (put r s)
unfolding put
put-AreDistinct (geometry x) s d = record {
  geometries = insert-IsDistinct x s.geometries d.geometries;
  materials = d.materials;
  textures = d.textures;
}
put-AreDistinct (material x) s d = record {
  geometries = d.geometries;
  materials = insert-IsDistinct x s.materials d.materials;
  textures = d.textures;
}
put-AreDistinct (texture x) s d = record {
  geometries = d.geometries;
  materials = d.materials;
  textures = insert-IsDistinct x s.textures d.textures;
}

put_all-AreDistinct : (rs : List Resource) (s : Sets) → AreDistinct s → AreDistinct (put_all rs s)
put_all-AreDistinct [] s d = d
put_all-AreDistinct (r ∷ rs) s d = put_all-AreDistinct rs (put r s) (put-AreDistinct r s d)

-- The calls for three sets.
abbrev disposals : Sets → List Resource
disposals s = map geometry s.geometries ++ (map material s.materials ++ map texture s.textures)

disposals-IsDistinct : (s : Sets) → AreDistinct s → IsDistinct (disposals s)
disposals-IsDistinct s d =
    append-IsDistinct (map geometry s.geometries)
      (map material s.materials ++ map texture s.textures)
      (map-IsDistinct geometry (λ m n e. cc e) s.geometries d.geometries)
      (append-IsDistinct (map material s.materials) (map texture s.textures)
        (map-IsDistinct material (λ m n e. cc e) s.materials d.materials)
        (map-IsDistinct texture (λ m n e. cc e) s.textures d.textures) materials_apart)
      geometries_apart
  where
    materials_apart :
        (x : Resource) → In x (map material s.materials) → ¬ In x (map texture s.textures)
    materials_apart x i j =
        let (m, a, e) = (In-map material x s.materials).0 i in
        let (n, b, e') = (In-map texture x s.textures).0 j in cc (e, e')

    geometries_apart :
        (x : Resource)
        → In x (map geometry s.geometries)
        → ¬ In x (map material s.materials ++ map texture s.textures)
    geometries_apart x i j =
        let (m, a, e) = (In-map geometry x s.geometries).0 i in
        elim ((In-append x (map material s.materials) (map texture s.textures)).0 j) [
          | inl k ↦ let (n, b, e') = (In-map material x s.materials).0 k in absurd (cc (e, e'))
          | inr k ↦ let (n, b, e') = (In-map texture x s.textures).0 k in absurd (cc (e, e'))
        ]

In-disposals : (x : Resource) (s : Sets) → In x (disposals s) ↔ Holds x s
In-disposals (geometry x) s = ground (
  arith,
  In-append (geometry x) (map geometry s.geometries)
      (map material s.materials ++ map texture s.textures),
  In-append (geometry x) (map material s.materials) (map texture s.textures),
  In-map_same geometry (λ m n e. cc e) x s.geometries,
  absent material (geometry x) s.materials (λ n e. cc e),
  absent texture (geometry x) s.textures (λ n e. cc e),
)
In-disposals (material x) s = ground (
  arith,
  In-append (material x) (map geometry s.geometries)
      (map material s.materials ++ map texture s.textures),
  In-append (material x) (map material s.materials) (map texture s.textures),
  In-map_same material (λ m n e. cc e) x s.materials,
  absent geometry (material x) s.geometries (λ n e. cc e),
  absent texture (material x) s.textures (λ n e. cc e),
)
In-disposals (texture x) s = ground (
  arith,
  In-append (texture x) (map geometry s.geometries)
      (map material s.materials ++ map texture s.textures),
  In-append (texture x) (map material s.materials) (map texture s.textures),
  In-map_same texture (λ m n e. cc e) x s.textures,
  absent geometry (texture x) s.geometries (λ n e. cc e),
  absent material (texture x) s.materials (λ n e. cc e),
)

abbrev empty : Sets
empty = record { geometries = []; materials = []; textures = [] }

empty-Holds : (x : Resource) → ¬ Holds x empty
empty-Holds (geometry x) i = i
empty-Holds (material x) i = i
empty-Holds (texture x) i = i

In-disposed :
    (x : Resource) (os : List Object)
    → In x (disposals (put_all (scene_resources os) empty))
      ↔ ((o : Object) × In o os × In x (resources o))
In-disposed x os =
    let rs = scene_resources os in
    (
      λ i. elim ((put_all-Holds x rs empty).0 ((In-disposals x (put_all rs empty)).0 i)) [
        | inl j ↦ (In-scene_resources x os).0 j
        | inr j ↦ absurd (empty-Holds x j)
      ],
      λ h.
          (In-disposals x (put_all rs empty)).1
            ((put_all-Holds x rs empty).1 (inl ((In-scene_resources x os).1 h))),
    )

-- No resource is disposed of twice, however many objects share it, and a resource is disposed of exactly
-- when it is the geometry of a mesh or of a line that was visited, one of its materials, or a texture among
-- the values of one of these.
pub dispose_scene_lem :
    (os : List Object)
    → IsDistinct (dispose_scene os)
      × ((x : Resource) → In x (dispose_scene os) ↔ ((o : Object) × In o os × In x (resources o)))
unfolding dispose_scene
dispose_scene_lem os =
    let e = traverse_lem os empty in
    (
      rw e (
          disposals-IsDistinct (put_all (scene_resources os) empty) (
            put_all-AreDistinct (scene_resources os) empty
              (record { geometries = tt; materials = tt; textures = tt }))),
      λ x. rw e (In-disposed x os),
    )
