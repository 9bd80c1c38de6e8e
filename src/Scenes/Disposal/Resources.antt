-- ===== src/Scenes/Disposal/Resources.antt =====
-- The resources of the objects of a scene, and the order in which they are put into the sets.
use build_a_computer.Base.{
  ◌≡◌, refl, sym, ap, ◌∙◌, inl, inr, ◌↔◌, List, [], ◌∷◌, ◌++◌, In, In-append,
}
use build_a_computer.Scenes.Disposal.{
  Value, texture_value, other_value, Material, Object, mesh, line, other_object, Resource, geometry,
  material, texture, Sets, put, put_values, put_materials, listed, visit, traverse,
}

-- The resources of a material, and of an object.
abbrev pub value_textures : List Value → List Resource
value_textures [] = []
value_textures (texture_value t ∷ vs) = texture t ∷ value_textures vs
value_textures (other_value ∷ vs) = value_textures vs

abbrev pub material_resources : List Material → List Resource
material_resources [] = []
material_resources (m ∷ ms) = (material m.id ∷ value_textures m.values) ++ material_resources ms

abbrev pub resources : Object → List Resource
resources (mesh g ms) = geometry g ∷ material_resources (listed ms)
resources (line g ms) = geometry g ∷ material_resources (listed ms)
resources other_object = []

abbrev pub scene_resources : List Object → List Resource
scene_resources [] = []
scene_resources (o ∷ os) = resources o ++ scene_resources os

abbrev pub put_all : List Resource → Sets → Sets
put_all [] s = s
put_all (r ∷ rs) s = put_all rs (put r s)

pub put_all-append :
    (xs ys : List Resource) (s : Sets) → put_all (xs ++ ys) s ≡ put_all ys (put_all xs s)
put_all-append [] ys s = refl
put_all-append (x ∷ xs) ys s = put_all-append xs ys (put x s)

pub put_values_lem : (vs : List Value) (s : Sets) → put_values vs s ≡ put_all (value_textures vs) s
unfolding put_values
put_values_lem [] s = refl
put_values_lem (texture_value t ∷ vs) s = put_values_lem vs (put (texture t) s)
put_values_lem (other_value ∷ vs) s = put_values_lem vs s

pub put_materials_lem :
    (ms : List Material) (s : Sets) → put_materials ms s ≡ put_all (material_resources ms) s
unfolding put_materials
put_materials_lem [] s = refl
put_materials_lem (m ∷ ms) s =
    put_materials_lem ms (put_values m.values (put (material m.id) s))
    ∙ ap (put_all (material_resources ms)) (put_values_lem m.values (put (material m.id) s))
    ∙ sym (put_all-append (value_textures m.values) (material_resources ms) (put (material m.id) s))

pub visit_lem : (o : Object) (s : Sets) → visit o s ≡ put_all (resources o) s
unfolding visit
visit_lem (mesh g ms) s = put_materials_lem (listed ms) (put (geometry g) s)
visit_lem (line g ms) s = put_materials_lem (listed ms) (put (geometry g) s)
visit_lem other_object s = refl

pub traverse_lem : (os : List Object) (s : Sets) → traverse os s ≡ put_all (scene_resources os) s
unfolding traverse
traverse_lem [] s = refl
traverse_lem (o ∷ os) s =
    traverse_lem os (visit o s)
    ∙ ap (put_all (scene_resources os)) (visit_lem o s)
    ∙ sym (put_all-append (resources o) (scene_resources os) s)

pub In-scene_resources :
    (x : Resource) (os : List Object)
    → In x (scene_resources os) ↔ ((o : Object) × In o os × In x (resources o))
In-scene_resources x [] = (λ i. absurd i, λ h. h.1)
In-scene_resources x (o ∷ os) = (
  λ i. elim ((In-append x (resources o) (scene_resources os)).0 i) [
    | inl j ↦ (o, inl refl, j)
    | inr j ↦ let (p, k, l) = (In-scene_resources x os).0 j in (p, inr k, l)
  ],
  λ h. (In-append x (resources o) (scene_resources os)).1 (elim h.1 [
    | inl e ↦ inl (rw (← e) h.2)
    | inr k ↦ inr ((In-scene_resources x os).1 (h.0, k, h.2))
  ]),
)
