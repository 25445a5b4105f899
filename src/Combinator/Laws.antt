-- ===== src/Combinator/Laws.antt =====
-- src/combinator.rs: races and joins of futures that must not be polled after `Ready`.
use sim_core.Base.{
  Bool, true, false, List, [], ◌∷◌, ◌++◌, ◌≡◌, refl, All, ap, length, suc, ◌&&◌, ◌∙◌,
}
use sim_core.Combinator.{any_poll, all_poll, is_empty, race, retain, kept}

-- `is_done`: the future has returned `Ready`, after which it must not be polled.
module _ {κ} {F : Type 0} {W : Type κ} (poll_child : F → W → Bool × (F × W)) (is_done : F → Bool)
    (marks : (f : F) (w : W) → is_done (poll_child f w).1.0 ≡ (poll_child f w).0) where
  abbrev pub Pending : F → Type 0
  Pending f = is_done f ≡ false

  -- The children `fs'` after a race that ended with `b`, of the children `fs`: when it is ready,
  -- the first so many are pending, the next one is done, and those behind it are as they were.
  pub record Won (fs fs' : List F) : Type 0 where
    pub before : List F
    pub before' : List F
    pub loser : F
    pub winner : F
    pub after : List F
    pub was : fs ≡ before ++ loser ∷ after
    pub is : fs' ≡ before' ++ winner ∷ after
    pub same : length before ≡ length before'
    pub pending : All Pending before'
    pub done : is_done winner ≡ true

  abbrev pub Raced : List F → Bool → List F → Type 0
  Raced fs true fs' = Won fs fs'
  Raced fs false fs' = All Pending fs' × (length fs ≡ length fs')

  -- A poll of `AnyOf`, of children that know whether they have returned `Ready`, goes through them
  -- in order up to the first that is ready: the ones before it are pending, the ones behind it
  -- have not been polled. When none is ready, all are pending.
  pub any_poll-Raced :
      (fs : List F) (w : W) → let (b, (fs', w')) = any_poll poll_child fs w in Raced fs b fs'
  unfolding any_poll
  any_poll-Raced [] w = (tt, refl)
  any_poll-Raced (f ∷ fs) w = go (poll_child f w) (marks f w) (λ w'. any_poll-Raced fs w')
    where
      more :
          (g : F) (b : Bool) (fs' : List F)
          → is_done g ≡ false
          → Raced fs b fs'
          → Raced (f ∷ fs) b (g ∷ fs')
      more g true fs' d won = record {
        before = f ∷ won.before;
        before' = g ∷ won.before';
        loser = won.loser;
        winner = won.winner;
        after = won.after;
        was = ap (λ xs. f ∷ xs) won.was;
        is = ap (λ xs. g ∷ xs) won.is;
        same = ap suc won.same;
        pending = (d, won.pending);
        done = won.done;
      }
      more g false fs' d (pending, same) = ((d, pending), ap suc same)

      go :
          (p : Bool × (F × W))
          → is_done p.1.0 ≡ p.0
          → ((w' : W) → let (b, (fs', w'')) = any_poll poll_child fs w' in Raced fs b fs')
          → let (b, (fs', w'')) = race fs (any_poll poll_child fs) p in Raced (f ∷ fs) b fs'
      go (true, (g, w')) d rest = record {
        before = [];
        before' = [];
        loser = f;
        winner = g;
        after = fs;
        was = refl;
        is = refl;
        same = refl;
        pending = tt;
        done = d;
      }
      go (false, (g, w')) d rest = more g _ _ d (rest w')

module _ {κ} {F : Type 0} {W : Type κ} (poll_child : F → W → Bool × (F × W)) where
  abbrev pub answered : (W → List (Bool × F) × W) → Bool × (F × W) → List (Bool × F) × W
  answered others (b, (g, w)) = let (ps, w') = others w in ((b, g) ∷ ps, w')

  -- The specification: every child is polled once, in order; its answer, and what it is then.
  unfoldable pub poll_each : List F → W → List (Bool × F) × W
  poll_each [] w = ([], w)
  poll_each (f ∷ fs) w = answered (poll_each fs) (poll_child f w)

  abbrev pub all_ready : List (Bool × F) → Bool
  all_ready [] = true
  all_ready ((b, g) ∷ ps) = b && all_ready ps

  abbrev pub pending : List (Bool × F) → List F
  pending [] = []
  pending ((true, g) ∷ ps) = pending ps
  pending ((false, g) ∷ ps) = g ∷ pending ps

  is_empty-pending : (ps : List (Bool × F)) → is_empty (pending ps) ≡ all_ready ps
  is_empty-pending [] = refl
  is_empty-pending ((true, g) ∷ ps) = is_empty-pending ps
  is_empty-pending ((false, g) ∷ ps) = refl

  retain-poll_each :
      (fs : List F) (w : W)
      → retain poll_child fs w ≡ (pending (poll_each fs w).0, (poll_each fs w).1)
  unfolding retain poll_each
  retain-poll_each [] w = refl
  retain-poll_each (f ∷ fs) w = go (poll_child f w) (λ w'. retain-poll_each fs w')
    where
      go :
          (p : Bool × (F × W))
          → ((w' : W)
              → retain poll_child fs w' ≡ (pending (poll_each fs w').0, (poll_each fs w').1))
          → kept (retain poll_child fs) p
            ≡ (pending (answered (poll_each fs) p).0, (answered (poll_each fs) p).1)
      go (true, (g, w')) rest = rest w'
      go (false, (g, w')) rest = ap (λ r. (g ∷ r.0, r.1)) (rest w')

  -- A poll of `AllOf` polls every child exactly once, in order, and is ready exactly when all of
  -- them are. The children that are left, to be polled again, are those that are pending, in the
  -- same order and as their poll left them.
  pub all_poll-poll_each :
      (fs : List F) (w : W)
      → all_poll poll_child fs w
        ≡ (let (ps, w') = poll_each fs w in (all_ready ps, (pending ps, w')))
  unfolding all_poll
  all_poll-poll_each fs w =
      ap (λ r. (is_empty r.0, r)) (retain-poll_each fs w)
      ∙ ap (λ b. (b, (pending (poll_each fs w).0, (poll_each fs w).1)))
          (is_empty-pending (poll_each fs w).0)
