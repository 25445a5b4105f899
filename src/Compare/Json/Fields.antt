-- ===== src/Compare/Json/Fields.antt =====
-- examples/compare.rs: what `field_u64` finds in what `obj` has written.
use sim_core.Base.{
  ℕ, ◌≡◌, refl, Bool, true, ◌||◌, ◌&&◌, not, List, [], ◌∷◌, ◌++◌, map, Option, none, some,
  if◌then◌else◌, ◌==◌, arith,
}
use sim_core.Compare.Json.{
  Text, same, member, join_rest, obj, strip, after, before, up_to_end, map_some, field,
}

abbrev is_plain_code : ℕ → Bool
is_plain_code c = not (c == b'"' || c == b',' || c == b'}' || c == b':')

-- No quote, comma, brace or colon.
abbrev pub is_plain : Text → Bool
is_plain [] = true
is_plain (c ∷ s) = is_plain_code c && is_plain s

abbrev pub are_plain : List (Text × Text) → Bool
are_plain [] = true
are_plain ((k, v) ∷ ps) = is_plain k && is_plain v && are_plain ps

-- The first field of that name.
abbrev pub find : Text → List (Text × Text) → Option Text
find name [] = none
find name ((k, v) ∷ ps) = if same name k then some v else find name ps

-- What follows a value.
abbrev ending : List (Text × Text) → Text
ending [] = b'}' ∷ []
ending (p ∷ ps) = b',' ∷ member p ++ ending ps

++-assoc : (a b c : Text) → (a ++ b) ++ c ≡ a ++ (b ++ c)
++-assoc [] b c = refl
++-assoc (x ∷ a) b c = cc (++-assoc a b c)

join_rest-ending : (ps : List (Text × Text)) → join_rest (map member ps) ++ b'}' ∷ [] ≡ ending ps
join_rest-ending [] = refl
join_rest-ending (p ∷ ps) =
    cc (++-assoc (member p) (join_rest (map member ps)) (b'}' ∷ []), join_rest-ending ps)

obj-ending :
    (p : Text × Text) (ps : List (Text × Text)) → obj (p ∷ ps) ≡ b'{' ∷ member p ++ ending ps
unfolding obj
obj-ending p ps =
    cc (++-assoc (member p) (join_rest (map member ps)) (b'}' ∷ []), join_rest-ending ps)

strip-name :
    (k k' s : Text)
    → is_plain k ≡ true
    → is_plain k' ≡ true
    → strip (k ++ b'"' ∷ b':' ∷ []) (k' ++ b'"' ∷ b':' ∷ s) ≡ (if same k k' then some s else none)
unfolding strip
strip-name [] [] s h g = refl
strip-name [] (d ∷ k') s h g = ground arith
strip-name (x ∷ k) [] s h g = ground arith
strip-name (x ∷ k) (d ∷ k') s h g = ground (arith, strip-name k k' s)

-- A name that is not empty, with what `field` looks for.
module _ (c : ℕ) (name : Text) (plain : is_plain (c ∷ name) ≡ true) where
  pattern_of : Text
  pattern_of = b'"' ∷ c ∷ name ++ b'"' ∷ b':' ∷ []

  after-plain : (t s : Text) → is_plain t ≡ true → after pattern_of (t ++ s) ≡ after pattern_of s
  unfolding after strip pattern_of
  after-plain [] s h = refl
  after-plain (d ∷ t) s h = ground (arith, after-plain t s)

  -- Past the name of another field.
  after-colon : (s : Text) → after pattern_of (b'"' ∷ b':' ∷ s) ≡ after pattern_of s
  unfolding after strip pattern_of
  after-colon s = ground arith

  after-member :
      (k v s : Text)
      → is_plain k ≡ true
      → is_plain v ≡ true
      → after pattern_of (member (k, v) ++ s)
        ≡ (if same (c ∷ name) k then some (v ++ s) else after pattern_of s)
  unfolding after member strip pattern_of
  after-member k v s h g = ground (
    arith,
    ++-assoc k (b'"' ∷ b':' ∷ v) s,
    strip-name (c ∷ name) k (v ++ s) plain h,
    after-plain k (b'"' ∷ b':' ∷ v ++ s) h,
    after-colon (v ++ s),
    after-plain v s g,
  )

  up_to_end-before :
      (v s : Text) (d : ℕ)
      → is_plain v ≡ true
      → (d == b',' || d == b'}') ≡ true
      → up_to_end (before pattern_of (v ++ d ∷ s)) ≡ v
  unfolding up_to_end before strip pattern_of
  up_to_end-before [] s d h g = ground arith
  up_to_end-before (x ∷ v) s d h g = ground (arith, up_to_end-before v s d)

  up_to_end-ending :
      (v : Text) (ps : List (Text × Text))
      → is_plain v ≡ true
      → up_to_end (before pattern_of (v ++ ending ps)) ≡ v
  up_to_end-ending v [] h = up_to_end-before v [] b'}' h refl
  up_to_end-ending v (p ∷ ps) h = up_to_end-before v (member p ++ ending ps) b',' h refl

  value : Option Text → Option Text
  value = map_some (λ s. up_to_end (before pattern_of s))

  value-member :
      (k v : Text) (ps : List (Text × Text))
      → is_plain k ≡ true
      → is_plain v ≡ true
      → value (after pattern_of (member (k, v) ++ ending ps))
        ≡ (if same (c ∷ name) k then some v else value (after pattern_of (ending ps)))
  unfolding value
  value-member k v ps h g =
      ground (arith, after-member k v (ending ps) h g, up_to_end-ending v ps g)

  value-ending :
      (ps : List (Text × Text))
      → are_plain ps ≡ true
      → value (after pattern_of (ending ps)) ≡ find (c ∷ name) ps
  unfolding value after strip pattern_of
  value-ending [] h = refl
  value-ending ((k, v) ∷ ps) h =
      ground
        (arith, value-member k v ps (ground arith) (ground arith), value-ending ps (ground arith))

  -- `obj` with any name and value that have no quote, comma, brace or colon in them, a name that is
  -- not empty: `field` finds the value of the first field of that name, and none where there is
  -- none.
  pub field-obj :
      (pairs : List (Text × Text))
      → are_plain pairs ≡ true
      → field (obj pairs) (c ∷ name) ≡ find (c ∷ name) pairs
  unfolding field pattern_of value obj after strip
  field-obj [] h = refl
  field-obj ((k, v) ∷ ps) h = ground (
    arith,
    obj-ending (k, v) ps,
    value-member k v ps (ground arith) (ground arith),
    value-ending ps (ground arith),
  )
