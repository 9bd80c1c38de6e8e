-- ===== src/Random.antt =====
-- The seeded generator of frontend/src/features/home/utils/three.ts. A 32-bit integer is its bit pattern,
-- a number below 2 ^ 32, so that `| 0` and `>>> 0` are the same remainder; the sum of two of them is an
-- exact number of JavaScript, which `^` takes modulo 2 ^ 32. The state of the closure is `seed`, and a
-- draw is the numerator of the quotient by 4294967296.
pub mod Laws
use Prim.Native.Nat.{bit_xor, bit_or}
use build_a_computer.Base.{ℕ, zero, suc, ◌+◌, ◌*◌, ◌/◌, ◌%◌, ◌^◌, List, [], ◌∷◌}

abbrev pub word : ℕ
word = 2 ^ 32

-- `Math.imul`.
abbrev pub imul : ℕ → ℕ → ℕ
imul a b = (a * b) % word

-- `seed |= 0; seed = (seed + 0x6d2b79f5) | 0`.
unfoldable pub advance : ℕ → ℕ
advance seed = (seed % word + 0x6d2b79f5) % word

-- The two lines on `t`, and the numerator of what is returned.
unfoldable pub mix : ℕ → ℕ
mix seed =
    let t : ℕ = imul (bit_xor seed (seed / 2 ^ 15)) (bit_or 1 seed) in
    let u : ℕ = bit_xor ((t + imul (bit_xor t (t / 2 ^ 7)) (bit_or 61 t)) % word) t in
    bit_xor u (u / 2 ^ 14) % word

-- A call of the generator: the draw, and the seed that it leaves.
unfoldable pub draw : ℕ → ℕ × ℕ
unfolding advance mix
draw seed = let next = advance seed in (mix next, next)

-- The first n draws.
unfoldable pub draws : ℕ → ℕ → List ℕ
unfolding draw
draws zero seed = []
draws (suc n) seed = let (value, next) = draw seed in value ∷ draws n next
