-- ===== src/Syscall/Table.antt =====
-- What every handler of the table of system calls meets, the dispatch meets.
use chanux.Common.{ℕ, zero, suc, leb, List, [], ◌∷◌, Bool-cases, inl, inr}
use chanux.Syscall.{
  Kernel, CallResult, returned, Handler, syscall_table, handler_at, call, sys_max, enosys,
  syscall_dispatch,
}

infixr 40 ◌◂◌
pub data All (P : Handler → Type 0) : List Handler → Type 0 where
  end : All P []
  ◌◂◌ : {h : Handler} {rest : List Handler} → P h → All P rest → All P (h ∷ rest)

-- A condition on the state and the arguments, and what the outcome on that state is then to be.
module _ (Pre : Kernel → ℕ → ℕ → ℕ → Type 0) (Post : Kernel → CallResult → Type 0) where
  abbrev pub Meets : Handler → Type 0
  Meets h = (k : Kernel) (arg1 arg2 arg3 : ℕ) → Pre k arg1 arg2 arg3 → Post k (h k arg1 arg2 arg3)

  abbrev Refused : Type 0
  Refused = (k : Kernel) (arg1 arg2 arg3 : ℕ) → Pre k arg1 arg2 arg3 → Post k (returned enosys k)

  chosen-Meets :
      (l : List Handler) (num : ℕ) (k : Kernel) (arg1 arg2 arg3 : ℕ)
      → All Meets l
      → Refused
      → Pre k arg1 arg2 arg3
      → Post k (call k arg1 arg2 arg3 (handler_at l num))
  unfolding handler_at
  chosen-Meets [] num k arg1 arg2 arg3 all refused pre = refused k arg1 arg2 arg3 pre
  chosen-Meets (h ∷ l) zero k arg1 arg2 arg3 (first ◂ rest) refused pre = first k arg1 arg2 arg3 pre
  chosen-Meets (h ∷ l) (suc num) k arg1 arg2 arg3 (first ◂ rest) refused pre =
      chosen-Meets l num k arg1 arg2 arg3 rest refused pre

  pub dispatch-Meets :
      (k : Kernel) (num arg1 arg2 arg3 : ℕ)
      → All Meets syscall_table
      → Refused
      → Pre k arg1 arg2 arg3
      → Post k (syscall_dispatch k num arg1 arg2 arg3)
  unfolding syscall_dispatch
  dispatch-Meets k num arg1 arg2 arg3 all refused pre = elim (Bool-cases (leb sys_max num)) [
    | inl unknown ↦ rw unknown (refused k arg1 arg2 arg3 pre)
    | inr known ↦ rw known (chosen-Meets syscall_table num k arg1 arg2 arg3 all refused pre)
  ]
