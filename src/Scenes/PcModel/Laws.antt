-- ===== src/Scenes/PcModel/Laws.antt =====
-- The parts of the model while it is animated.
use build_a_computer.Base.{
  ℕ, suc, ◌≡◌, refl, ap, ◌∙◌, ◌⊎◌, inl, inr, Bool, List, [], ◌∷◌, map, length, All,
}
use build_a_computer.Base.Real.{JsReal}
use build_a_computer.Scenes.Frames.{Tilt}
use build_a_computer.Scenes.Chart.{JsMath}
use build_a_computer.Scenes.PcModel.{
  Part, Vector3, Model, placed, parts_of, explode_part, spin, apply_explode, fit, pose, set_theme,
  setup_pc_model, exploded_by, update,
}

module _ {T N : Type 0} (d : JsReal N) (m : JsMath N) where
  -- The calls that the effect makes of the model.
  pub data Step : Model T N → Model T N → Type 0 where
    fitted : (c : Model T N) → Step c (fit d c)
    updated : (c : Model T N) (t dt : N) (tilt : Tilt N) → Step c (update d m t dt tilt c)
    posed : (c : Model T N) → Step c (pose d c)
    themed : (c : Model T N) (is_dark : Bool) → Step c (set_theme d is_dark c)

  pub data Reach (r : Model T N) : Model T N → Type 0 where
    here : Reach r r
    next : {b c : Model T N} → Reach r b → Step b c → Reach r c

-- What a part is, but for its place.
abbrev fixed : {N : Type 0} → Part N → Vector3 N × Vector3 N
fixed p = (p.base, p.offset)

module _ {N : Type 0} (d : JsReal N) where
  -- All parts stand out by one amount.
  abbrev pub AreOutBy : N → List (Part N) → Type 0
  AreOutBy amount parts = All (λ p. p.position ≡ placed d p amount) parts

  explode-AreOutBy :
      (amount : N) (parts : List (Part N)) → AreOutBy amount (map (explode_part d amount) parts)
  unfolding explode_part
  explode-AreOutBy amount [] = tt
  explode-AreOutBy amount (p ∷ parts) = (refl, explode-AreOutBy amount parts)

  fixed-explode :
      (amount : N) (parts : List (Part N))
      → map fixed (map (explode_part d amount) parts) ≡ map fixed parts
  unfolding explode_part
  fixed-explode amount [] = refl
  fixed-explode amount (p ∷ parts) = ap (λ ps. fixed p ∷ ps) (fixed-explode amount parts)

  length-spin : (dt : N) (i : ℕ) (rotors : List N) → length (spin d dt i rotors) ≡ length rotors
  unfolding spin
  length-spin dt i [] = refl
  length-spin dt i (z ∷ rotors) = ap suc (length-spin dt (suc i) rotors)

  -- The parts are the eight that were made, in order, all in their first place or all out by one amount, and
  -- the eight rotors are there.
  pub record IsRigid {T : Type 0} (c : Model T N) : Type 0 where
    pub kept : map fixed c.parts ≡ map fixed (parts_of d)
    pub together : (c.parts ≡ parts_of d) ⊎ ((amount : N) × AreOutBy amount c.parts)
    pub rotors : length c.rotors ≡ 8

module _ {T N : Type 0} (d : JsReal N) (m : JsMath N) where
  Step-IsRigid : {b c : Model T N} → Step d m b c → IsRigid d b → IsRigid d c
  unfolding fit pose update apply_explode set_theme
  Step-IsRigid (fitted c) i = record {
    kept = fixed-explode d (d.dec 105 2) c.parts ∙ i.kept;
    together = inr (d.dec 105 2, explode-AreOutBy d (d.dec 105 2) c.parts);
    rotors = i.rotors;
  }
  Step-IsRigid (updated c t dt tilt) i = record {
    kept = fixed-explode d (exploded_by d m t) c.parts ∙ i.kept;
    together = inr (exploded_by d m t, explode-AreOutBy d (exploded_by d m t) c.parts);
    rotors = length-spin d dt 0 c.rotors ∙ i.rotors;
  }
  Step-IsRigid (posed c) i = record {
    kept = fixed-explode d (d.dec 1 0) c.parts ∙ i.kept;
    together = inr (d.dec 1 0, explode-AreOutBy d (d.dec 1 0) c.parts);
    rotors = i.rotors;
  }
  Step-IsRigid (themed c is_dark) i = record {
    kept = i.kept;
    together = i.together;
    rotors = i.rotors;
  }

  -- Whatever the scene's effect calls of the model, in any order and with any times: it has the eight parts
  -- that were made, in order, with their bases and offsets unchanged; they are all in their first place, or
  -- all stand at their base plus their offset times one common amount; and it has its eight rotors.
  pub Reach-IsRigid :
      (ring_texture glow_texture : T) {c : Model T N}
      → Reach d m (setup_pc_model d ring_texture glow_texture) c
      → IsRigid d c
  unfolding setup_pc_model
  Reach-IsRigid ring_texture glow_texture here = record {
    kept = refl;
    together = inl refl;
    rotors = refl;
  }
  Reach-IsRigid ring_texture glow_texture (next reached step) =
      Step-IsRigid step (Reach-IsRigid ring_texture glow_texture reached)
