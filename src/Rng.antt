-- ===== src/Rng.antt =====
-- src/rng.rs: the SplitMix64 generator, in 64-bit arithmetic, and the integer part of sampling.
pub mod Laws
pub mod Bytes
pub mod Sample
use Prim.Native.Nat.{bit_xor}
use sim_core.Base.{ℕ, zero, suc, ◌+◌, ◌-◌, ◌*◌, ◌/◌, ◌%◌, ◌^◌, List, [], ◌∷◌, ◌++◌, u64_mod, take}

pub record SplitMix64 : Type 0 where
  pub state : ℕ

unfoldable pub new : ℕ → SplitMix64
new seed = record { state = seed }

unfoldable pub set_seed : ℕ → SplitMix64 → SplitMix64
set_seed seed r = record r { state = seed }

unfoldable pub reseed : ℕ → SplitMix64 → SplitMix64
reseed seed r = record r { state = seed }

abbrev pub wrapping_add : ℕ → ℕ → ℕ
wrapping_add a b = (a + b) % u64_mod

abbrev pub wrapping_mul : ℕ → ℕ → ℕ
wrapping_mul a b = a * b % u64_mod

abbrev pub shr : ℕ → ℕ → ℕ
shr x k = x / 2 ^ k

abbrev pub gamma : ℕ
gamma = 0x9E37_79B9_7F4A_7C15

-- What `next` makes of the advanced state.
unfoldable pub mix : ℕ → ℕ
mix s =
    let a = wrapping_mul (bit_xor s (shr s 30)) 0xBF58_476D_1CE4_E5B9 in
    let b = wrapping_mul (bit_xor a (shr a 27)) 0x94D0_49BB_1331_11EB in bit_xor b (shr b 31)

-- The output, and the generator after it.
unfoldable pub next : SplitMix64 → ℕ × SplitMix64
next r = let s = wrapping_add r.state gamma in (mix s, record { state = s })

unfoldable pub next_u64 : SplitMix64 → ℕ × SplitMix64
next_u64 r = next r

unfoldable pub next_u32 : SplitMix64 → ℕ × SplitMix64
next_u32 r = let (x, r') = next r in (shr x 32 % 2 ^ 32, r')

-- `to_le_bytes`
abbrev pub le_bytes : ℕ → ℕ → List ℕ
le_bytes zero x = []
le_bytes (suc n) x = x % 256 ∷ le_bytes n (x / 256)

abbrev pub to_le_bytes : ℕ → List ℕ
to_le_bytes x = le_bytes 8 x

-- The loop over the exact chunks of eight bytes.
unfoldable pub fill_chunks : ℕ → SplitMix64 → List ℕ × SplitMix64
fill_chunks zero r = ([], r)
fill_chunks (suc n) r =
    let (x, r') = next r in let (bytes, r'') = fill_chunks n r' in (to_le_bytes x ++ bytes, r'')

-- The remainder, if there is one, takes the first bytes of one more output.
unfoldable pub fill_rest : ℕ → SplitMix64 → List ℕ × SplitMix64
fill_rest zero r = ([], r)
fill_rest (suc n) r = let (x, r') = next r in (take (suc n) (to_le_bytes x), r')

-- `dest` of the given length.
unfoldable pub fill_bytes : ℕ → SplitMix64 → List ℕ × SplitMix64
fill_bytes len r =
    let (chunks, r') = fill_chunks (len / 8) r in
    let (rest, r'') = fill_rest (len % 8) r' in (chunks ++ rest, r'')

-- The 53-bit numerator that `uniform01` scales by 2^-53.
unfoldable pub uniform_bits : SplitMix64 → ℕ × SplitMix64
uniform_bits r = let (x, r') = next_u64 r in (shr x 11, r')
