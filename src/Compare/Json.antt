-- ===== src/Compare/Json.antt =====
-- examples/compare.rs: the report of a simulation as JSON, and how a number is read back from it.
-- What prints a number and what reads one (`trim` and `parse`) is the standard library's.
pub mod Fields
use Prim.Native.Char.{code}
use Prim.Native.String.{String}
use sim_core.Base.{
  ℕ, ◌+◌, ◌*◌, ◌%◌, Bool, true, false, ◌||◌, ◌&&◌, List, [], ◌∷◌, ◌++◌, map, Option, none, some,
  if◌then◌else◌, ◌==◌, u64_mod,
}
use sim_core.Float.{Float}
use sim_core.Env.{Result, ok, panicked}

abbrev pub Text : Type 0
Text = List ℕ

abbrev pub codes : String → Text
codes String.[] = []
codes (String.◌∷◌ c s) = code c ∷ codes s

-- `==` of strings
abbrev pub same : Text → Text → Bool
same [] [] = true
same [] (d ∷ t) = false
same (c ∷ s) [] = false
same (c ∷ s) (d ∷ t) = (c == d) && same s t

-- `format!("\"{k}\":{v}")`
unfoldable pub member : Text × Text → Text
member (k, v) = b'"' ∷ k ++ b'"' ∷ b':' ∷ v

abbrev pub join_rest : List Text → Text
join_rest [] = []
join_rest (t ∷ ts) = b',' ∷ t ++ join_rest ts

-- `join(",")`
abbrev pub join : List Text → Text
join [] = []
join (t ∷ ts) = t ++ join_rest ts

unfoldable pub obj : List (Text × Text) → Text
obj pairs = b'{' ∷ join (map member pairs) ++ b'}' ∷ []

-- What follows a pattern at the head of a text.
unfoldable pub strip : Text → Text → Option Text
strip [] s = some s
strip (c ∷ p) [] = none
strip (c ∷ p) (d ∷ s) = if c == d then strip p s else none

-- The two sides of the first place where a pattern stands.
unfoldable pub after : Text → Text → Option Text
after p [] = strip p []
after p (d ∷ s) =
    let later = after p s in elim (strip p (d ∷ s)) [ some rest ↦ some rest | none ↦ later ]

unfoldable pub before : Text → Text → Text
before p [] = []
before p (d ∷ s) =
    let later = before p s in elim (strip p (d ∷ s)) [ some rest ↦ [] | none ↦ d ∷ later ]

-- `s.split([',', '}']).next()`
unfoldable pub up_to_end : Text → Text
up_to_end [] = []
up_to_end (d ∷ s) = let later = up_to_end s in if d == b',' || d == b'}' then [] else d ∷ later

abbrev pub map_some {ℓ κ} : {A : Type ℓ} {B : Type κ} → (A → B) → Option A → Option B
map_some g none = none
map_some g (some a) = some (g a)

-- The text of a field: `body.split("\"{name}\":").nth(1)`, up to its end.
unfoldable pub field : Text → Text → Option Text
field body name =
    let p = b'"' ∷ name ++ b'"' ∷ b':' ∷ [] in map_some (λ s. up_to_end (before p s)) (after p body)

module _ (f : Float) (print : f.F → Text) where
  unfoldable pub num : f.F → Text
  num x = if f.is_finite x then print x else codes "0"

-- `parse`: `trim().parse::<f64>().ok()`; `to_u64`: `as u64`.
module _ (f : Float) (parse : Text → Option f.F) (to_u64 : f.F → ℕ) where
  abbrev pub read_u64 : Option Text → ℕ
  read_u64 none = 0
  read_u64 (some s) = elim (parse s) [ none ↦ 0 | some x ↦ to_u64 x ]

  unfoldable pub field_u64 : Text → String → ℕ
  field_u64 body name = read_u64 (field body (codes name))

  unfoldable pub count_completed : Text → ℕ
  count_completed body = field_u64 body "critical_treated" + field_u64 body "standard_treated"

  -- Sums and products of `u64`: they panic where they overflow in a debug build, and wrap elsewhere;
  -- this is what wraps.
  unfoldable pub events_for : Text → Text → ℕ → Result ℕ
  events_for model body n =
      if same model (codes "mm1") || same model (codes "mmc") || same model (codes "priority")
      then ok (2 * n % u64_mod)
      else (if same model (codes "container")
          then ok ((n + field_u64 body "served") % u64_mod)
          else (if same model (codes "hospital")
              then ok (2 * count_completed body % u64_mod)
              else panicked))
