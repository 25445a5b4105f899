-- ===== src/Rng/Laws.antt =====
-- src/rng.rs: the stream of outputs of a SplitMix64 generator.
use sim_core.Base.{
  ℕ, zero, suc, ◌+◌, ◌*◌, ◌%◌, ◌<◌, ◌≡◌, refl, ◌∙◌, List, [], ◌∷◌, arith, u64_mod, get_elem?, some,
  ap,
}
use sim_core.Rng.{SplitMix64, new, reseed, next, next_u64, mix, gamma}

-- The first `n` outputs, and the generator after them.
unfoldable pub draws : ℕ → SplitMix64 → List ℕ × SplitMix64
draws zero r = ([], r)
draws (suc n) r = let (x, r') = next_u64 r in let (xs, r'') = draws n r' in (x ∷ xs, r'')

-- The known answers of the tests, for the seeds 0 and 42.
known_0 :
    (draws 6 (new 0)).0
    ≡ 0xE220_A839_7B1D_CDAF ∷ 0x6E78_9E6A_A1B9_65F4 ∷ 0x06C4_5D18_8009_454F ∷ 0xF88B_B8A8_724C_81EC
      ∷ 0x1B39_896A_51A8_749B ∷ 0x53CB_9F0C_747E_A2EA ∷ []
unfolding draws next_u64 next mix new
known_0 = refl

known_42 :
    (draws 6 (new 42)).0
    ≡ 0xBDD7_3226_2FEB_6E95 ∷ 0x28EF_E333_B266_F103 ∷ 0x4752_6757_130F_9F52 ∷ 0x581C_E1FF_0E4A_E394
      ∷ 0x09BC_585A_2448_23F2 ∷ 0xDE44_31FA_3C80_DB06 ∷ []
unfolding draws next_u64 next mix new
known_42 = refl

draws-nth :
    (n k : ℕ) (r : SplitMix64)
    → r.state < u64_mod
    → k < n
    → get_elem? (draws n r).0 k ≡ some (mix ((r.state + (k + 1) * gamma) % u64_mod))
unfolding draws next_u64 next
draws-nth zero k r h lt = absurd (omega arith)
draws-nth (suc n) zero r h lt = ap (λ x. some (mix x)) (omega arith)
draws-nth (suc n) (suc k) r h lt =
    draws-nth n k (record { state = (r.state + gamma) % u64_mod }) (omega arith) (omega arith)
    ∙ ap (λ x. some (mix x)) (omega arith)

-- Whatever the state before, a generator reseeded with a 64-bit seed gives as output number `k`
-- the mix of the seed advanced by `k + 1` steps.
pub reseed-restarts :
    (seed n k : ℕ) (r : SplitMix64)
    → seed < u64_mod
    → k < n
    → get_elem? (draws n (reseed seed r)).0 k ≡ some (mix ((seed + (k + 1) * gamma) % u64_mod))
unfolding reseed
reseed-restarts seed n k r h lt = draws-nth n k (record { state = seed }) h lt
