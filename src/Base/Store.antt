-- ===== src/Base/Store.antt =====
-- A store of shared mutable cells: an `Rc<Cell<_>>` is an address into it.
use Prim.Native.Nat.{ℕ, suc}
use sim_core.Base.Family.{update}

-- Addresses from `next` on have not been handed out.
pub record Store {ℓ} (A : Type ℓ) : Type ℓ where
  pub next : ℕ
  pub cell : ℕ → A

module _ {ℓ} {A : Type ℓ} where
  -- `Rc::new(Cell::new(a))`
  abbrev pub alloc : A → Store A → Store A
  alloc a s = record { next = suc s.next; cell = update s.cell s.next a }

  -- `cell.set(a)`
  abbrev pub write : ℕ → A → Store A → Store A
  write i a s = record s { cell = update s.cell i a }
