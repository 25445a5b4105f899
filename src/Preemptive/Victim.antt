-- ===== src/Preemptive/Victim.antt =====
-- src/resource/preemptive.rs: the victim that `victim_index` picks among the holders.
use mathlib.Core.List.{append_assoc, append-nil}
use sim_core.Base.{
  ℕ, suc, ◌<◌, ◌≤◌, ◌≡◌, refl, ◌∙◌, sym, ap, subst, List, [], ◌∷◌, ◌++◌, Option, none, some, arith,
  ltb, Bool, true, false, if◌then◌else◌, length, length-append, All, All-append, All-imp,
}
use sim_core.Preemptive.{Holder, PreemptiveState, victim_index, scan, best_of, index}

-- The holder at position `i` is worse than the request, none before it has a lower priority, and
-- all after it have a higher one.
pub record IsVictim (incoming i p : ℕ) (hs : List Holder) : Type 0 where
  pub before : List Holder
  pub victim : Holder
  pub after : List Holder
  pub split : hs ≡ before ++ victim ∷ after
  pub position : length before ≡ i
  pub priority : victim.priority ≡ p
  pub worse : incoming < p
  pub earlier : All (λ h. h.priority ≤ p) before
  pub later : All (λ h. h.priority < p) after

-- With no victim, no holder is worse than the request.
abbrev pub Found : ℕ → Option (ℕ × ℕ) → List Holder → Type 0
Found incoming none hs = All (λ (h : Holder). h.priority ≤ incoming) hs
Found incoming (some (i, p)) hs = IsVictim incoming i p hs

passed :
    (incoming : ℕ) (best : Option (ℕ × ℕ)) (seen : List Holder) (h : Holder)
    → Found incoming best seen
    → h.priority ≤ incoming
    → Found incoming best (seen ++ h ∷ [])
passed incoming none seen h found le = All-append _ seen (h ∷ []) found (le, tt)
passed incoming (some (i, p)) seen h found le = record {
  before = found.before;
  victim = found.victim;
  after = found.after ++ h ∷ [];
  position = found.position;
  priority = found.priority;
  worse = found.worse;
  earlier = found.earlier;
  split = ap (λ hs. hs ++ h ∷ []) found.split ∙ append_assoc found.before _ (h ∷ []);
  later = All-append _ found.after (h ∷ []) found.later (omega (arith, found.worse), tt);
}

taken :
    (incoming i : ℕ) (seen : List Holder) (h : Holder)
    → length seen ≡ i
    → incoming < h.priority
    → All (λ (x : Holder). x.priority ≤ h.priority) seen
    → IsVictim incoming i h.priority (seen ++ h ∷ [])
taken incoming i seen h at worse earlier = record {
  before = seen;
  victim = h;
  after = [];
  split = refl;
  position = at;
  priority = refl;
  worse = worse;
  earlier = earlier;
  later = tt;
}

-- A worse holder takes the place of the best so far, or does not.
compared :
    (incoming i : ℕ) (best : Option (ℕ × ℕ)) (seen : List Holder) (h : Holder)
    → length seen ≡ i
    → incoming < h.priority
    → Found incoming best seen
    → Found incoming (best_of i h.priority best) (seen ++ h ∷ [])
compared incoming i none seen h at worse found =
    taken incoming i seen h at worse (All-imp _ _ seen (λ x le. omega arith) found)
compared incoming i (some (j, top)) seen h at worse found = go (ltb h.priority top) refl
  where
    all : top ≤ h.priority → All (λ (x : Holder). x.priority ≤ h.priority) seen
    all le = subst (All (λ (x : Holder). x.priority ≤ h.priority)) (sym found.split) (
        All-append _ found.before (found.victim ∷ found.after)
          (All-imp _ _ found.before (λ x l. omega arith) found.earlier)
          (omega (arith, found.priority), All-imp _ _ found.after (λ x l. omega arith) found.later))

    go :
        (b : Bool)
        → ltb h.priority top ≡ b
        → Found incoming (if b then some (j, top) else some (i, h.priority)) (seen ++ h ∷ [])
    go true e = record {
      before = found.before;
      victim = found.victim;
      after = found.after ++ h ∷ [];
      split = ap (λ hs. hs ++ h ∷ []) found.split ∙ append_assoc found.before _ (h ∷ []);
      position = found.position;
      priority = found.priority;
      worse = found.worse;
      earlier = found.earlier;
      later = All-append _ found.after (h ∷ []) found.later (ground (arith, e), tt);
    }
    go false e = taken incoming i seen h at worse (all (ground (arith, e)))

examined :
    (incoming i : ℕ) (best : Option (ℕ × ℕ)) (seen : List Holder) (h : Holder)
    → length seen ≡ i
    → Found incoming best seen
    → Found incoming
        (if ltb incoming h.priority then best_of i h.priority best else best)
        (seen ++ h ∷ [])
examined incoming i best seen h at found = go (ltb incoming h.priority) refl
  where
    go :
        (b : Bool)
        → ltb incoming h.priority ≡ b
        → Found incoming (if b then best_of i h.priority best else best) (seen ++ h ∷ [])
    go true e = compared incoming i best seen h at (ground (arith, e)) found
    go false e = passed incoming best seen h found (ground (arith, e))

scan-Found :
    (incoming i : ℕ) (best : Option (ℕ × ℕ)) (seen hs : List Holder)
    → length seen ≡ i
    → Found incoming best seen
    → Found incoming (scan incoming i best hs) (seen ++ hs)
unfolding scan
scan-Found incoming i best seen [] at found =
    subst (Found incoming best) (sym (append-nil seen)) found
scan-Found incoming i best seen (h ∷ hs) at found =
    subst
      (Found incoming (
        scan incoming (suc i) (if ltb incoming h.priority then best_of i h.priority best else best)
          hs))
      (append_assoc seen (h ∷ []) hs)
      (scan-Found incoming (suc i) _ (seen ++ h ∷ []) hs
        (omega (arith, length-append seen (h ∷ []))) (examined incoming i best seen h at found))

-- What is asked of an answer of `victim_index`.
abbrev pub Chosen : ℕ → List Holder → Option ℕ → Type 0
Chosen incoming hs none = All (λ (h : Holder). h.priority ≤ incoming) hs
Chosen incoming hs (some i) = (p : ℕ) × IsVictim incoming i p hs

-- `victim_index` answers nothing when no holder has a lower priority than the request.
-- Otherwise it is the position of a holder of lower priority than the request, such that no holder
-- before it has a lower priority than it, and all behind it, acquired later, have a higher one: of
-- the holders of the lowest priority it is the last.
pub victim_index-Chosen :
    (incoming : ℕ) (s : PreemptiveState) → Chosen incoming s.holders (victim_index incoming s)
unfolding victim_index
victim_index-Chosen incoming s =
    go (scan incoming 0 none s.holders) (scan-Found incoming 0 none [] s.holders refl tt)
  where
    go : (o : Option (ℕ × ℕ)) → Found incoming o s.holders → Chosen incoming s.holders (index o)
    go none found = found
    go (some (i, p)) found = (p, found)
