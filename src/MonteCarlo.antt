-- ===== src/MonteCarlo.antt =====
-- src/monte_carlo.rs: the default backend, one thread for each seed, joined in seed order.
-- What a thread computes does not depend on the others, since `f` builds its own environment: a
-- join gives what `f` gives at its seed, a result or the payload of a panic.
use mathlib.Core.List.{append_assoc, append-nil}
use sim_core.Base.{List, [], ◌∷◌, ◌++◌, Option, none, some, ◌≡◌, refl, ◌∙◌, ap, sym}

pub data Joined {ℓ} (E R : Type ℓ) : Type ℓ where
  ok : R → Joined E R
  err : E → Joined E R

-- `first_panic = Some(payload)` when there is none yet.
abbrev pub first {ℓ} : {E : Type ℓ} → Option E → E → E
first none payload = payload
first (some p) payload = p

abbrev after {ℓ} : {E R : Type ℓ} → List R → Joined E (List R) → Joined E (List R)
after results (Joined.ok rs) = Joined.ok (results ++ rs)
after results (Joined.err p) = Joined.err p

module _ {ℓ} {E R : Type ℓ} where
  -- The loop over the handles, with `results` and `first_panic` as they stand: every thread is
  -- joined, also after a panic.
  unfoldable pub join_all : List (Joined E R) → List R → Option E → List R × Option E
  join_all [] results first_panic = (results, first_panic)
  join_all (Joined.ok r ∷ hs) results first_panic = join_all hs (results ++ r ∷ []) first_panic
  join_all (Joined.err p ∷ hs) results first_panic =
      join_all hs results (some (first first_panic p))

  -- A panic is raised again on the calling thread.
  unfoldable pub finish : List R × Option E → Joined E (List R)
  finish (results, none) = Joined.ok results
  finish (results, some payload) = Joined.err payload

  abbrev and_then : Joined E R → Joined E (List R) → Joined E (List R)
  and_then (Joined.err p) later = Joined.err p
  and_then (Joined.ok r) (Joined.err p) = Joined.err p
  and_then (Joined.ok r) (Joined.ok rs) = Joined.ok (r ∷ rs)

module _ {ℓ} {S E R : Type ℓ} where
  unfoldable pub spawn_all : (S → Joined E R) → List S → List (Joined E R)
  spawn_all f [] = []
  spawn_all f (s ∷ ss) = f s ∷ spawn_all f ss

  unfoldable pub run : List S → (S → Joined E R) → Joined E (List R)
  run seeds f = finish (join_all (spawn_all f seeds) [] none)

  -- One seed after the other, up to the first panic.
  unfoldable pub sequential : List S → (S → Joined E R) → Joined E (List R)
  sequential [] f = Joined.ok []
  sequential (s ∷ ss) f = and_then (f s) (sequential ss f)

  keeps_first :
      (f : S → Joined E R) (ss : List S) (results : List R) (p : E)
      → finish (join_all (spawn_all f ss) results (some p)) ≡ Joined.err p
  unfolding finish join_all spawn_all
  keeps_first f [] results p = refl
  keeps_first f (s ∷ ss) results p = go (f s) (λ rs. keeps_first f ss rs p)
    where
      go :
          (j : Joined E R)
          → ((rs : List R) → finish (join_all (spawn_all f ss) rs (some p)) ≡ Joined.err p)
          → finish (join_all (j ∷ spawn_all f ss) results (some p)) ≡ Joined.err p
      go (Joined.ok r) rest = rest (results ++ r ∷ [])
      go (Joined.err q) rest = rest results

  join_all-after :
      (f : S → Joined E R) (ss : List S) (results : List R)
      → finish (join_all (spawn_all f ss) results none) ≡ after results (sequential ss f)
  unfolding finish join_all spawn_all sequential
  join_all-after f [] results = ap Joined.ok (sym (append-nil results))
  join_all-after f (s ∷ ss) results = go (f s) (λ rs. join_all-after f ss rs)
    where
      shift :
          (r : R) (j : Joined E (List R))
          → after (results ++ r ∷ []) j ≡ after results (and_then (Joined.ok r) j)
      shift r (Joined.ok rs) = ap Joined.ok (append_assoc results (r ∷ []) rs)
      shift r (Joined.err p) = refl

      go :
          (j : Joined E R)
          → ((rs : List R)
              → finish (join_all (spawn_all f ss) rs none) ≡ after rs (sequential ss f))
          → finish (join_all (j ∷ spawn_all f ss) results none)
            ≡ after results (and_then j (sequential ss f))
      go (Joined.ok r) rest = rest (results ++ r ∷ []) ∙ shift r (sequential ss f)
      go (Joined.err q) rest = keeps_first f ss results q

  -- Whatever each seed does, the threads joined together give what the seeds would give one after
  -- the other: the results in the order of the seeds, or the payload of the first seed that panics.
  pub run-sequential : (seeds : List S) (f : S → Joined E R) → run seeds f ≡ sequential seeds f
  unfolding run
  run-sequential seeds f = join_all-after f seeds [] ∙ unit (sequential seeds f)
    where
      unit : (j : Joined E (List R)) → after [] j ≡ j
      unit (Joined.ok rs) = refl
      unit (Joined.err p) = refl
