-- ===== src/Random/Laws.antt =====
-- The sequence of the seeds.
use build_a_computer.Base.{
  ℕ, zero, suc, ◌+◌, ◌*◌, ◌%◌, ◌<◌, ◌≡◌, sym, ap, ◌∙◌, ◌↔◌, some, get_elem?, arith,
}
use build_a_computer.Random.{word, advance, mix, draw, draws}

-- The seed after n calls.
abbrev pub seed_after : ℕ → ℕ → ℕ
seed_after seed n = (seed + n * 0x6d2b79f5) % word

advance-seed_after : (seed n : ℕ) → seed_after (advance seed) n ≡ seed_after seed (suc n)
unfolding advance
advance-seed_after seed n = omega arith

seed_after_inj : (seed m n : ℕ) → seed_after seed m ≡ seed_after seed n → m % word ≡ n % word
seed_after_inj seed m n h = omega arith

seed_after_period : (seed m n : ℕ) → m % word ≡ n % word → seed_after seed m ≡ seed_after seed n
seed_after_period seed m n h = omega arith

mix-lt : (s : ℕ) → mix s < word
unfolding mix
mix-lt s = omega arith

-- The n-th draw is that of the seed after n calls.
draws_at :
    (n k seed : ℕ) → k < n → get_elem? (draws n seed) k ≡ some (mix (seed_after seed (suc k)))
unfolding draws draw advance
draws_at zero k seed h = absurd (omega (arith, h))
draws_at (suc n) zero seed h = ap (λ s. some (mix s)) first
  where
    first : advance seed ≡ seed_after seed 1
    first = omega arith
draws_at (suc n) (suc k) seed h =
    draws_at n k (advance seed) (omega (arith, h))
    ∙ ap (λ s. some (mix s)) (advance-seed_after seed (suc k))

-- Of n draws from a seed the k-th one is a mix of the seed plus k + 1 times the increment, modulo 2 ^ 32,
-- and it is below 2 ^ 32, so that the quotient is at least 0 and below 1.
pub draws_lem :
    (n k seed : ℕ)
    → k < n
    → (get_elem? (draws n seed) k ≡ some (mix ((seed + suc k * 0x6d2b79f5) % word)))
      × (mix ((seed + suc k * 0x6d2b79f5) % word) < word)
draws_lem n k seed h = (draws_at n k seed h, mix-lt (seed_after seed (suc k)))

-- The seed that the closure holds after n calls.
abbrev pub held : ℕ → ℕ → ℕ
held zero seed = seed
held (suc n) seed = held n (draw seed).1

held-seed_after : (n seed : ℕ) → held (suc n) seed ≡ seed_after seed (suc n)
unfolding draw advance
held-seed_after zero seed = omega arith
held-seed_after (suc n) seed = held-seed_after n (advance seed) ∙ advance-seed_after seed (suc n)

-- The closure holds one seed after m + 1 and after n + 1 calls exactly when m and n leave one remainder
-- modulo 2 ^ 32: the generator passes through every seed before it repeats one, whatever seed it is
-- given.
pub held_iff : (seed m n : ℕ) → (held (suc m) seed ≡ held (suc n) seed) ↔ (m % word ≡ n % word)
held_iff seed m n = (
  λ h. drop_one (
      seed_after_inj seed (suc m) (suc n)
        (sym (held-seed_after m seed) ∙ h ∙ held-seed_after n seed)),
  λ h.
      held-seed_after m seed
      ∙ seed_after_period seed (suc m) (suc n) (add_one h)
      ∙ sym (held-seed_after n seed),
)
  where
    drop_one : suc m % word ≡ suc n % word → m % word ≡ n % word
    drop_one h = omega arith

    add_one : m % word ≡ n % word → suc m % word ≡ suc n % word
    add_one h = omega arith

pub held_add : (m n seed : ℕ) → held (m + n) seed ≡ held n (held m seed)
held_add zero n seed = ap (λ k. held k seed) zero_add
  where
    zero_add : 0 + n ≡ n
    zero_add = omega arith
held_add (suc m) n seed = ap (λ k. held k seed) suc_add ∙ held_add m n (draw seed).1
  where
    suc_add : suc m + n ≡ suc (m + n)
    suc_add = omega arith
