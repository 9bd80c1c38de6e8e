-- ===== src/Scenes/Disposal.antt =====
-- `disposeScene` of frontend/src/features/home/utils/three.ts, on the objects that `scene.traverse` visits.
-- A geometry, a material and a texture are known by their identity.
pub mod Distinct
pub mod Resources
pub mod Laws
use build_a_computer.Base.{ℕ, Bool, List, [], ◌∷◌, ◌++◌, if◌then◌else◌, any, map, ◌==◌}

-- What `Object.values` gives of a material: its textures, and other values.
pub data Value : Type 0 where
  texture_value : ℕ → Value
  other_value : Value

pub record Material : Type 0 where
  pub id : ℕ
  pub values : List Value

-- `object.material`: one, or an array.
pub data Materials : Type 0 where
  one : Material → Materials
  many : List Material → Materials

-- A mesh or a line, or an object of another kind.
pub data Object : Type 0 where
  mesh line : (geometry : ℕ) → Materials → Object
  other_object : Object

pub data Resource : Type 0 where
  geometry material texture : ℕ → Resource

pub record Sets : Type 0 where
  pub geometries : List ℕ
  pub materials : List ℕ
  pub textures : List ℕ

-- `Set.prototype.add`, of a set in the order of insertion.
unfoldable pub insert : ℕ → List ℕ → List ℕ
insert x xs = if any (λ y. y == x) xs then xs else xs ++ (x ∷ [])

-- `geometries.add`, `materials.add` and `textures.add`.
unfoldable pub put : Resource → Sets → Sets
put (geometry x) s = record s { geometries = insert x s.geometries }
put (material x) s = record s { materials = insert x s.materials }
put (texture x) s = record s { textures = insert x s.textures }

unfoldable pub put_values : List Value → Sets → Sets
put_values [] s = s
put_values (texture_value t ∷ vs) s = put_values vs (put (texture t) s)
put_values (other_value ∷ vs) s = put_values vs s

unfoldable pub put_materials : List Material → Sets → Sets
put_materials [] s = s
put_materials (m ∷ ms) s = put_materials ms (put_values m.values (put (material m.id) s))

-- `Array.isArray(material) ? material : [material]`.
abbrev pub listed : Materials → List Material
listed (one m) = m ∷ []
listed (many ms) = ms

-- The callback of `traverse`.
unfoldable pub visit : Object → Sets → Sets
visit (mesh g ms) s = put_materials (listed ms) (put (geometry g) s)
visit (line g ms) s = put_materials (listed ms) (put (geometry g) s)
visit other_object s = s

unfoldable pub traverse : List Object → Sets → Sets
traverse [] s = s
traverse (o ∷ os) s = traverse os (visit o s)

-- The calls of `dispose`, in order.
unfoldable pub dispose_scene : List Object → List Resource
dispose_scene objects =
    let s = traverse objects (record { geometries = []; materials = []; textures = [] }) in
    map geometry s.geometries ++ (map material s.materials ++ map texture s.textures)
