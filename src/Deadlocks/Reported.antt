-- ===== src/Deadlocks/Reported.antt =====
-- Which deadlocks `detectAndReportLockOrderCycles` of pkg/analyzer/reporter.go reports.
use mathlib.Core.List.{Memᴰ}
use golintmu.Base.{
  String, ◌≡◌, refl, ap, ◌↔◌, true, false, inl, inr, ◌⊎◌, some, List, [], ◌∷◌, ◌++◌, arith, ◌>>=◌,
  any, Bool-cases,
}
use golintmu.Ssa.{Program}
use golintmu.Pass.{PassContext, LockOrderEdge, Message, Diagnostic}
use golintmu.Report.{is_suppressed}
use golintmu.Concurrency.{is_concurrent}
use golintmu.LockOrder.Search.{detect_cycles}
use golintmu.LockOrder.Ends.{detect_cycles_total}
use golintmu.Report.Adds.{reporting, Adds, nothing, one}
use golintmu.Report.Adds.{fold-Adds}
use golintmu.Deadlocks.{names_of, check_cycle, detect_and_report_lock_order_cycles}

module _ (prog : Program) (ctx : PassContext) where
  -- A cycle that is reported at its first edge, and its diagnostic.
  pub data Deadlock : List LockOrderEdge → Diagnostic → Type 0 where
    self_cycle :
        {edge : LockOrderEdge} {rest : List LockOrderEdge} {name : String}
        → any (λ e. is_concurrent ctx e.fn) (edge ∷ rest) ≡ true
        → is_suppressed prog ctx edge.fn edge.pos ≡ false
        → names_of prog (edge ∷ rest) ≡ name ∷ []
        → Deadlock
            (edge ∷ rest)
            (record { pos = edge.pos; message = Message.order_cycle_self name })
    mutual_cycle :
        {edge : LockOrderEdge} {rest : List LockOrderEdge} {first second : String}
        {others : List String}
        → any (λ e. is_concurrent ctx e.fn) (edge ∷ rest) ≡ true
        → is_suppressed prog ctx edge.fn edge.pos ≡ false
        → names_of prog (edge ∷ rest) ≡ first ∷ second ∷ others
        → Deadlock
            (edge ∷ rest)
            (record { pos = edge.pos; message = Message.order_cycle first second })

  abbrev IsStep : List LockOrderEdge → List Diagnostic → Type 0
  IsStep cycle ds = Adds ctx (Deadlock cycle) ds (check_cycle prog (reporting ctx ds) cycle)

  -- What every report has.
  record Parts (cycle : List LockOrderEdge) (d : Diagnostic) : Type 0 where
    edge : LockOrderEdge
    rest : List LockOrderEdge
    split : cycle ≡ edge ∷ rest
    concurrent : any (λ e. is_concurrent ctx e.fn) cycle ≡ true
    loud : is_suppressed prog ctx edge.fn edge.pos ≡ false
    first : String
    others : List String
    named : names_of prog cycle ≡ first ∷ others
    kind :
        ((others ≡ []) × (d ≡ record { pos = edge.pos; message = Message.order_cycle_self first }))
        ⊎ ((second : String) × (more : List String) × (others ≡ second ∷ more)
            × (d ≡ record { pos = edge.pos; message = Message.order_cycle first second }))

  Deadlock-Parts : {cycle : List LockOrderEdge} {d : Diagnostic} → Deadlock cycle d → Parts cycle d
  Deadlock-Parts (self_cycle {edge} {rest} {name} c l n) = record {
    edge = edge;
    rest = rest;
    split = refl;
    concurrent = c;
    loud = l;
    first = name;
    others = [];
    named = n;
    kind = inl (refl, refl);
  }
  Deadlock-Parts (mutual_cycle {edge} {rest} {first} {second} {others} c l n) = record {
    edge = edge;
    rest = rest;
    split = refl;
    concurrent = c;
    loud = l;
    first = first;
    others = second ∷ others;
    named = n;
    kind = inr (second, others, refl, refl);
  }

  quiet :
      (cycle : List LockOrderEdge) (ds : List Diagnostic)
      → check_cycle prog (reporting ctx ds) cycle ≡ reporting ctx ds
      → ((d : Diagnostic) → ¬ (Parts cycle d))
      → IsStep cycle ds
  quiet cycle ds e h =
      nothing ctx (Deadlock cycle) ds (check_cycle prog (reporting ctx ds) cycle) e
        (λ d k. h d (Deadlock-Parts k))

  -- A cycle with a concurrent edge that is not suppressed.
  loud-Adds :
      (edge : LockOrderEdge) (rest : List LockOrderEdge) (ds : List Diagnostic)
      → any (λ e. is_concurrent ctx e.fn) (edge ∷ rest) ≡ true
      → is_suppressed prog ctx edge.fn edge.pos ≡ false
      → (names : List String) → names_of prog (edge ∷ rest) ≡ names
      → IsStep (edge ∷ rest) ds
  unfolding check_cycle
  loud-Adds edge rest ds concurrent loud [] named =
      quiet (edge ∷ rest) ds (ground (arith, concurrent, loud, named)) (λ d p. cc (named, p.named))
  loud-Adds edge rest ds concurrent loud (first ∷ []) named =
      one ctx (Deadlock (edge ∷ rest)) ds (check_cycle prog (reporting ctx ds) (edge ∷ rest))
        (record { pos = edge.pos; message = Message.order_cycle_self first })
        (ground (arith, concurrent, loud, named)) (self_cycle concurrent loud named)
        (λ d k.
          let p = Deadlock-Parts k in
          let same : edge ≡ p.edge = cc p.split in ground (arith, p.kind, p.named, named, same))
  loud-Adds edge rest ds concurrent loud (first ∷ second ∷ others) named =
      one ctx (Deadlock (edge ∷ rest)) ds (check_cycle prog (reporting ctx ds) (edge ∷ rest))
        (record { pos = edge.pos; message = Message.order_cycle first second })
        (ground (arith, concurrent, loud, named)) (mutual_cycle concurrent loud named)
        (λ d k.
          let p = Deadlock-Parts k in
          let same : edge ≡ p.edge = cc p.split in ground (arith, p.kind, p.named, named, same))

  check_cycle-Adds : (cycle : List LockOrderEdge) (ds : List Diagnostic) → IsStep cycle ds
  unfolding check_cycle
  check_cycle-Adds [] ds = quiet [] ds refl (λ d p. cc p.split)
  check_cycle-Adds (edge ∷ rest) ds =
      elim (Bool-cases (any (λ e. is_concurrent ctx e.fn) (edge ∷ rest))) [
        | inr alone ↦
            quiet (edge ∷ rest) ds (ground (arith, alone)) (λ d p. cc (alone, p.concurrent))
        | inl concurrent ↦ elim (Bool-cases (is_suppressed prog ctx edge.fn edge.pos)) [
          | inl silent ↦
              quiet (edge ∷ rest) ds (ground (arith, concurrent, silent)) (λ d p.
                let same : edge ≡ p.edge = cc p.split in ground (arith, p.loud, silent, same))
          | inr loud ↦ loud-Adds edge rest ds concurrent loud (names_of prog (edge ∷ rest)) refl
        ]
      ]

-- The phase `detectAndReportLockOrderCycles` returns. It appends diagnostics and changes nothing
-- else: one
-- for each list of edges that `detectCycles` answers with, which has an edge in a concurrent
-- function, a first edge that is not suppressed, and a mutex with a name, and no other.
pub detect_and_report_lock_order_cycles_lem :
    (prog : Program) (ctx : PassContext)
    → (cycles : List (List LockOrderEdge)) × (new : List Diagnostic) × (detect_cycles prog
          ctx.lock_order_edges
        ≡ some cycles)
      × (detect_and_report_lock_order_cycles prog ctx
          ≡ some (record ctx { diagnostics = ctx.diagnostics ++ new }))
      × ((d : Diagnostic)
          → Memᴰ d new ↔ ((c : List LockOrderEdge) × Memᴰ c cycles × Deadlock prog ctx c d))
unfolding detect_and_report_lock_order_cycles
detect_and_report_lock_order_cycles_lem prog ctx =
    let (cycles, found) = detect_cycles_total prog ctx.lock_order_edges in
    let (new, e, exact) =
      fold-Adds ctx (check_cycle prog) (Deadlock prog ctx) cycles (check_cycle-Adds prog ctx)
        ctx.diagnostics in
    (cycles, new, found, rw (detect_and_report_lock_order_cycles, found, ◌>>=◌) (ap some e), exact)
