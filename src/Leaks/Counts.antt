-- ===== src/Leaks/Counts.antt =====
-- The loops of `computeReturnsHolding` of pkg/analyzer/reporter.go that count the return
-- instructions of each function.
use golintmu.Base.{
  ℕ, suc, ◌+◌, ◌≡◌, refl, true, List, [], ◌∷◌, ◌++◌, ◌==◌, if◌then◌else◌, nat_eq, pair_eq, arith,
  Map, insert, lookup-insert, contains, fold, length, length-append, IsDistinct,
}
use golintmu.Ssa.{Program, Instr}
use golintmu.Pass.Keys.{MutexFieldKey_eq}
use golintmu.Leaks.{count_at, is_return, count_returns, return_count}

-- The positions of the return instructions.
abbrev pub returns_in : List Instr → List ℕ
returns_in [] = []
returns_in (instr ∷ instrs) =
    let rest = returns_in instrs in if is_return instr then instr.pos ∷ rest else rest

count_at-insert :
    (f g n : ℕ) (m : Map ℕ ℕ) → count_at g (insert f n m) ≡ (if f == g then n else count_at g m)
count_at-insert f g n m = ground (arith, lookup-insert f g n m)

module _ (prog : Program) where
  open prog use {func, block, src_funcs}

  abbrev returns_of_blocks : List ℕ → List ℕ
  returns_of_blocks [] = []
  returns_of_blocks (b ∷ bs) = returns_in (block b).instrs ++ returns_of_blocks bs

  abbrev pub returns_of : ℕ → List ℕ
  returns_of fn = returns_of_blocks (func fn).blocks

  abbrev count_instr : ℕ → Map ℕ ℕ → Instr → Map ℕ ℕ
  count_instr fn m instr = if is_return instr then insert fn (suc (count_at fn m)) m else m

  count_instrs_lem :
      (fn g : ℕ) (counts : Map ℕ ℕ) (instrs : List Instr)
      → count_at g (fold (count_instr fn) counts instrs)
        ≡ (if fn == g then count_at g counts + length (returns_in instrs) else count_at g counts)
  count_instrs_lem fn g counts [] = ground arith
  count_instrs_lem fn g counts (instr ∷ instrs) = ground (
    arith,
    count_instrs_lem fn g (count_instr fn counts instr) instrs,
    count_at-insert fn g (suc (count_at fn counts)) counts,
  )

  count_blocks_lem :
      (fn g : ℕ) (counts : Map ℕ ℕ) (bs : List ℕ)
      → count_at g (fold (λ m b. fold (count_instr fn) m (block b).instrs) counts bs)
        ≡ (if fn == g then count_at g counts + length (returns_of_blocks bs) else count_at g counts)
  count_blocks_lem fn g counts [] = ground arith
  count_blocks_lem fn g counts (b ∷ bs) = ground (
    arith,
    count_blocks_lem fn g (fold (count_instr fn) counts (block b).instrs) bs,
    count_instrs_lem fn g counts (block b).instrs,
    length-append (returns_in (block b).instrs) (returns_of_blocks bs),
  )

  count_returns_lem :
      (fn g : ℕ) (counts : Map ℕ ℕ)
      → count_at g (count_returns prog counts fn)
        ≡ (if fn == g then count_at g counts + length (returns_of fn) else count_at g counts)
  unfolding count_returns
  count_returns_lem fn g counts = count_blocks_lem fn g counts (func fn).blocks

  count_all_lem :
      (g : ℕ) (counts : Map ℕ ℕ) (fns : List ℕ)
      → IsDistinct fns
      → count_at g (fold (count_returns prog) counts fns)
        ≡ (if contains fns g then count_at g counts + length (returns_of g) else count_at g counts)
  count_all_lem g counts [] d = refl
  count_all_lem g counts (fn ∷ fns) d = ground (
    arith,
    count_all_lem g (count_returns prog counts fn) fns d.1,
    count_returns_lem fn g counts,
    d.0,
  )

  -- The count of a function is the number of its returns.
  pub count_at-return_count :
      (fn : ℕ)
      → IsDistinct src_funcs
      → contains src_funcs fn ≡ true
      → count_at fn (return_count prog) ≡ length (returns_of fn)
  unfolding return_count
  count_at-return_count fn d m = ground (arith, count_all_lem fn [] src_funcs d, m)
