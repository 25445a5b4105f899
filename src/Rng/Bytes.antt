-- ===== src/Rng/Bytes.antt =====
-- src/rng.rs: the bytes of `fill_bytes` and the stream of outputs.
use sim_core.Base.{
  ℕ, zero, suc, ◌+◌, ◌*◌, ◌/◌, ◌%◌, ◌≡◌, refl, ◌∙◌, List, [], ◌∷◌, ◌++◌, arith, take, ap,
}
use sim_core.Rng.{SplitMix64, next, next_u64, to_le_bytes, fill_chunks, fill_rest, fill_bytes}
use sim_core.Rng.Laws.{draws}

-- The outputs written out byte by byte, the low byte of each first.
unfoldable pub bytes_of : List ℕ → List ℕ
bytes_of [] = []
bytes_of (x ∷ xs) = to_le_bytes x ++ bytes_of xs

take-rest : (rest : ℕ) (r : SplitMix64) → (fill_rest rest r).0 ≡ take rest (bytes_of (draws 1 r).0)
unfolding fill_rest draws bytes_of next_u64 next
take-rest zero r = refl
take-rest (suc n) r = refl

fill-stream :
    (q rest : ℕ) (r : SplitMix64)
    → (fill_chunks q r).0 ++ (fill_rest rest (fill_chunks q r).1).0
      ≡ take (q * 8 + rest) (bytes_of (draws (suc q) r).0)
unfolding fill_chunks draws bytes_of next_u64 next
fill-stream zero rest r = take-rest rest r ∙ ap (λ n. take n (bytes_of (draws 1 r).0)) (omega arith)
fill-stream (suc q) rest r =
    ap (λ bs. to_le_bytes (next r).0 ++ bs) (fill-stream q rest (next r).1)
    ∙ ap (λ n. take n (bytes_of (draws (suc (suc q)) r).0)) grow
  where
    grow : suc (suc (suc (suc (suc (suc (suc (suc (q * 8 + rest)))))))) ≡ suc q * 8 + rest
    grow = omega arith

-- What `fill_bytes` writes to a buffer of `len` bytes is the first `len` bytes of the outputs, each
-- output giving eight bytes, the low one first, and the last one cut short.
pub fill_bytes-stream :
    (len : ℕ) (r : SplitMix64)
    → (fill_bytes len r).0 ≡ take len (bytes_of (draws (suc (len / 8)) r).0)
unfolding fill_bytes
fill_bytes-stream len r =
    fill-stream (len / 8) (len % 8) r
    ∙ ap (λ n. take n (bytes_of (draws (suc (len / 8)) r).0)) (omega arith)
