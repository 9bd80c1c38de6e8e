-- ===== src/Catalogue/Laws.antt =====
-- The references of the sample benchmarks.
use build_a_computer.Base.{
  ℕ, ◌≡◌, ◌≤◌, refl, Bool, true, false, ◌&&◌, Option, none, some, List, [], ◌∷◌, any, every, leb,
  In, arith, ◌==◌, ◌↔◌, not, ◌≢◌, inl, inr, if◌then◌else◌,
}
use build_a_computer.Base.Strings.{JsString, codes, str_eq, str_eq_iff, lookup}
use build_a_computer.BuildPc.{graphics_qualities, resolutions}
use build_a_computer.Catalogue.{Cpu, Gpu, RamMemory, Game, Benchmark}
use build_a_computer.Catalogue.Processors.{cpus}
use build_a_computer.Catalogue.Parts.{gpus, rams, games}
use build_a_computer.Catalogue.Samples.{benchmarks}

-- The map has a record under the id, and it is the record's own.
pub record IsEntry {A : Type 0} (id_of : A → JsString) (entries : List (JsString × A))
    (id : JsString) : Type 0 where
  pub value : A
  pub found : lookup id entries ≡ some value
  pub own : id_of value ≡ id

pub record IsSound (b : Benchmark) : Type 0 where
  pub cpu : IsEntry (λ c. c.id) cpus b.cpu_id
  pub gpu : IsEntry (λ g. g.id) gpus b.gpu_id
  pub ram : IsEntry (λ r. r.id) rams b.ram_id
  pub game : IsEntry (λ g. g.id) games b.game_id
  pub quality : In b.graphics_quality graphics_qualities
  pub resolution : In b.resolution resolutions
  -- The average lies between the extremes in all but one.
  pub ordered : ((b.min_fps ≤ b.avg_fps) × (b.avg_fps ≤ b.max_fps)) ↔ (b.id ≢ codes "b-9")

is_own : {A : Type 0} → (A → JsString) → JsString → Option A → Bool
is_own id_of id none = false
is_own id_of id (some a) = str_eq (id_of a) id

entry :
    {A : Type 0} (id_of : A → JsString) (entries : List (JsString × A)) (id : JsString)
    (o : Option A)
    → lookup id entries ≡ o
    → is_own id_of id o ≡ true
    → IsEntry id_of entries id
unfolding is_own
entry id_of entries id none e h = cc h
entry id_of entries id (some a) e h = record {
  value = a;
  found = e;
  own = (str_eq_iff (id_of a) id).0 h;
}

within_names : (s : JsString) (xs : List JsString) → any (str_eq s) xs ≡ true → In s xs
within_names s [] h = cc h
within_names s (x ∷ xs) h = ground (arith, str_eq_iff s x, within_names s xs)

within : (n : ℕ) (xs : List ℕ) → any (λ m. n == m) xs ≡ true → In n xs
within n [] h = cc h
within n (x ∷ xs) h = ground (arith, within n xs)

-- The tests of `IsSound`.
is_ordered : Benchmark → Bool
is_ordered b = leb b.min_fps b.avg_fps && leb b.avg_fps b.max_fps

ordered_iff :
    (b : Benchmark)
    → is_ordered b ≡ not (str_eq b.id (codes "b-9"))
    → ((b.min_fps ≤ b.avg_fps) × (b.avg_fps ≤ b.max_fps)) ↔ (b.id ≢ codes "b-9")
unfolding is_ordered
ordered_iff b h = ground (arith, h, str_eq_iff b.id (codes "b-9"))

record Checks (b : Benchmark) : Type 0 where
  cpu : is_own (λ (c : Cpu). c.id) b.cpu_id (lookup b.cpu_id cpus) ≡ true
  gpu : is_own (λ (g : Gpu). g.id) b.gpu_id (lookup b.gpu_id gpus) ≡ true
  ram : is_own (λ (r : RamMemory). r.id) b.ram_id (lookup b.ram_id rams) ≡ true
  game : is_own (λ (g : Game). g.id) b.game_id (lookup b.game_id games) ≡ true
  quality : any (str_eq b.graphics_quality) graphics_qualities ≡ true
  resolution : any (λ m. b.resolution == m) resolutions ≡ true
  ordered : is_ordered b ≡ not (str_eq b.id (codes "b-9"))

sound : (b : Benchmark) → Checks b → IsSound b
sound b k = record {
  cpu = entry (λ c. c.id) cpus b.cpu_id (lookup b.cpu_id cpus) refl k.cpu;
  gpu = entry (λ g. g.id) gpus b.gpu_id (lookup b.gpu_id gpus) refl k.gpu;
  ram = entry (λ r. r.id) rams b.ram_id (lookup b.ram_id rams) refl k.ram;
  game = entry (λ g. g.id) games b.game_id (lookup b.game_id games) refl k.game;
  quality = within_names b.graphics_quality graphics_qualities k.quality;
  resolution = within b.resolution resolutions k.resolution;
  ordered = ordered_iff b k.ordered;
}

-- The tests as one, which computes.
passes : Benchmark → Bool
unfolding is_own str_eq lookup is_ordered
passes b =
    is_own (λ (c : Cpu). c.id) b.cpu_id (lookup b.cpu_id cpus)
    && (is_own (λ (g : Gpu). g.id) b.gpu_id (lookup b.gpu_id gpus)
        && (is_own (λ (r : RamMemory). r.id) b.ram_id (lookup b.ram_id rams)
            && (is_own (λ (g : Game). g.id) b.game_id (lookup b.game_id games)
                && (any (str_eq b.graphics_quality) graphics_qualities
                    && (any (λ m. b.resolution == m) resolutions
                        && (if is_ordered b
                            then not (str_eq b.id (codes "b-9"))
                            else str_eq b.id (codes "b-9")))))))

both : (a b : Bool) → a && b ≡ true → (a ≡ true) × (b ≡ true)
both true b h = (refl, h)
both false b h = cc h

chosen : (a b : Bool) → (if a then not b else b) ≡ true → a ≡ not b
chosen a b h = ground arith

passes-Checks : (b : Benchmark) → passes b ≡ true → Checks b
unfolding passes
passes-Checks b h =
    let c = is_own (λ (c : Cpu). c.id) b.cpu_id (lookup b.cpu_id cpus) in
    let g = is_own (λ (g : Gpu). g.id) b.gpu_id (lookup b.gpu_id gpus) in
    let r = is_own (λ (r : RamMemory). r.id) b.ram_id (lookup b.ram_id rams) in
    let m = is_own (λ (g : Game). g.id) b.game_id (lookup b.game_id games) in
    let q = any (str_eq b.graphics_quality) graphics_qualities in
    let s = any (λ m. b.resolution == m) resolutions in
    let nine = str_eq b.id (codes "b-9") in
    let o : Bool = if is_ordered b then not nine else nine in
    let (cpu, h1) = both c (g && (r && (m && (q && (s && o))))) h in
    let (gpu, h2) = both g (r && (m && (q && (s && o)))) h1 in
    let (ram, h3) = both r (m && (q && (s && o))) h2 in
    let (game, h4) = both m (q && (s && o)) h3 in
    let (quality, h5) = both q (s && o) h4 in
    let (resolution, h6) = both s o h5 in
    record {
      cpu = cpu;
      gpu = gpu;
      ram = ram;
      game = game;
      quality = quality;
      resolution = resolution;
      ordered = chosen (is_ordered b) nine h6;
    }

every-In :
    (p : Benchmark → Bool) (b : Benchmark) (bs : List Benchmark)
    → every p bs ≡ true
    → In b bs
    → p b ≡ true
every-In p b [] h i = absurd i
every-In p b (x ∷ bs) h (inl e) = rw e (ground arith)
every-In p b (x ∷ bs) h (inr i) = every-In p b bs (ground arith) i

all_pass : every passes benchmarks ≡ true
unfolding passes
all_pass = refl

-- Each sample benchmark refers to a processor, a graphics card, a memory and a game that stand in the maps
-- under that id and have it as their own, and has a quality and a resolution that the application offers;
-- its average lies between its minimum and its maximum exactly when it is not the benchmark "b-9".
In-IsSound : (b : Benchmark) → In b benchmarks → IsSound b
In-IsSound b i = sound b (passes-Checks b (every-In passes b benchmarks all_pass i))
