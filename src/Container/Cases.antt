-- ===== src/Container/Cases.antt =====
-- src/resource/container.rs: the outcomes of a poll of a request.
use sim_core.Base.{◌≡◌, refl, Bool, true, false, not, ◌&&◌, [], ◌∷◌, ◌++◌, arith, if◌then◌else◌}
use sim_core.Executor.Waker.{SimWaker}
use sim_core.Float.{Float}
use sim_core.Container.{
  World, is_done, ContainerState, has_live_get_waiter, has_live_put_waiter, get_fits, put_fits,
  trigger_cascade,
}
use sim_core.Container.Requests.{
  ContainerRequest, Polled, completed, pending, waiter, poll_get, poll_put,
}

module _ (f : Float) (r : ContainerRequest f) (waker : SimWaker) (s : ContainerState f)
    (w : World) where
  open f use {add, sub}

  pub poll_get_cases {ℓ} :
      (P : Polled f → Type ℓ)
      → (is_done w r.flags ≡ true → P (completed f r (s, w)))
      → (r.registered ≡ false
          → get_fits f s.level r.amount ≡ true
          → has_live_get_waiter f w s ≡ false
          → P (completed f r (trigger_cascade f (record s { level = sub s.level r.amount }) w)))
      → (is_done w r.flags ≡ false
          → r.registered ≡ false
          → (get_fits f s.level r.amount && not (has_live_get_waiter f w s)) ≡ false
          → P (pending f r (record s { get_waiters = s.get_waiters ++ waiter f r waker ∷ [] }) w))
      → (is_done w r.flags ≡ false → r.registered ≡ true → P (pending f r s w))
      → P (poll_get f r waker s w)
  unfolding poll_get
  poll_get_cases P done fast park again =
      go (is_done w r.flags) r.registered (get_fits f s.level r.amount) (has_live_get_waiter f w s)
        refl refl refl refl
    where
      go :
          (d b l h : Bool)
          → is_done w r.flags ≡ d
          → r.registered ≡ b
          → get_fits f s.level r.amount ≡ l
          → has_live_get_waiter f w s ≡ h
          → P (
              if d
              then completed f r (s, w)
              else (if not b && l && not h
                  then completed f r
                      (trigger_cascade f (record s { level = sub s.level r.amount }) w)
                  else (if not b
                      then pending f r
                          (record s { get_waiters = s.get_waiters ++ waiter f r waker ∷ [] })
                          w
                      else pending f r s w)))
      go true b l h ed eb el eh = done ed
      go false true l h ed eb el eh = again ed eb
      go false false true false ed eb el eh = fast eb el eh
      go false false true true ed eb el eh = park ed eb (ground arith)
      go false false false h ed eb el eh = park ed eb (ground arith)

  pub poll_put_cases {ℓ} :
      (P : Polled f → Type ℓ)
      → (is_done w r.flags ≡ true → P (completed f r (s, w)))
      → (r.registered ≡ false
          → put_fits f s.capacity s.level r.amount ≡ true
          → has_live_put_waiter f w s ≡ false
          → P (completed f r (trigger_cascade f (record s { level = add s.level r.amount }) w)))
      → (is_done w r.flags ≡ false
          → r.registered ≡ false
          → (put_fits f s.capacity s.level r.amount && not (has_live_put_waiter f w s)) ≡ false
          → P (pending f r (record s { put_waiters = s.put_waiters ++ waiter f r waker ∷ [] }) w))
      → (is_done w r.flags ≡ false → r.registered ≡ true → P (pending f r s w))
      → P (poll_put f r waker s w)
  unfolding poll_put
  poll_put_cases P done fast park again =
      go (is_done w r.flags) r.registered (put_fits f s.capacity s.level r.amount)
        (has_live_put_waiter f w s) refl refl refl refl
    where
      go :
          (d b l h : Bool)
          → is_done w r.flags ≡ d
          → r.registered ≡ b
          → put_fits f s.capacity s.level r.amount ≡ l
          → has_live_put_waiter f w s ≡ h
          → P (
              if d
              then completed f r (s, w)
              else (if not b && l && not h
                  then completed f r
                      (trigger_cascade f (record s { level = add s.level r.amount }) w)
                  else (if not b
                      then pending f r
                          (record s { put_waiters = s.put_waiters ++ waiter f r waker ∷ [] })
                          w
                      else pending f r s w)))
      go true b l h ed eb el eh = done ed
      go false true l h ed eb el eh = again ed eb
      go false false true false ed eb el eh = fast eb el eh
      go false false true true ed eb el eh = park ed eb (ground arith)
      go false false false h ed eb el eh = park ed eb (ground arith)
