-- ===== src/Tests/Cycles.antt =====
-- The theorems on the lock order graph, for two mutexes that are taken in both orders.
use mathlib.Core.List.{Memᴰ}
use golintmu.Base.{◌≡◌, refl, false, some, List, [], ◌∷◌, ℕ_discrete, nat_eq}
use golintmu.Pass.{LockOrderEdge, MutexFieldKey}
use golintmu.Pass.Keys.{MutexFieldKey_eq, MutexFieldKey_discrete}
use golintmu.Report.{mutex_field_key_name}
use golintmu.LockOrder.{LockOrderGraph, add_edge}
use golintmu.LockOrder.Search.{detect_cycles}
use golintmu.LockOrder.Cycles.{IsCycle, detect_cycles_sound}
use golintmu.LockOrder.Ends.{detect_cycles_total}
use mathlib.Core.List.{◌++◌}
use golintmu.Base.{◌↔◌}
use golintmu.Pass.{PassContext, new_pass_context, Diagnostic}
use golintmu.Deadlocks.{detect_and_report_lock_order_cycles}
use golintmu.Deadlocks.Reported.{Deadlock, detect_and_report_lock_order_cycles_lem}
use golintmu.Tests.Sample.{sample}

abbrev first_key : MutexFieldKey
first_key = record { struct_type = 0; field_index = 0 }

abbrev second_key : MutexFieldKey
second_key = record { struct_type = 0; field_index = 1 }

abbrev forth : LockOrderEdge
forth = record { from = first_key; to = second_key; pos = 70; fn = 0 }

abbrev back : LockOrderEdge
back = record { from = second_key; to = first_key; pos = 71; fn = 3 }

abbrev both_orders : LockOrderGraph
both_orders = add_edge (add_edge [] forth) back

abbrev one_cycle : List LockOrderEdge
one_cycle = forth ∷ back ∷ []

one_found : detect_cycles sample both_orders ≡ some (one_cycle ∷ [])
unfolding detect_cycles add_edge ℕ_discrete MutexFieldKey_discrete mutex_field_key_name
one_found = refl

detect_cycles_sound_example : IsCycle both_orders one_cycle
detect_cycles_sound_example =
    detect_cycles_sound both_orders sample (one_cycle ∷ []) one_cycle one_found (Memᴰ.head refl)

detect_cycles_total_example :
    (cycles : List (List LockOrderEdge)) × (detect_cycles sample both_orders ≡ some cycles)
detect_cycles_total_example = detect_cycles_total sample both_orders

abbrev ordering : PassContext
ordering = record (new_pass_context false) { lock_order_edges = both_orders }

detect_and_report_lock_order_cycles_lem_example :
    (cycles : List (List LockOrderEdge)) × (new : List Diagnostic) × (detect_cycles sample
        ordering.lock_order_edges
      ≡ some cycles)
    × (detect_and_report_lock_order_cycles sample ordering
        ≡ some (record ordering { diagnostics = ordering.diagnostics ++ new }))
    × ((d : Diagnostic)
        → Memᴰ d new ↔ ((c : List LockOrderEdge) × Memᴰ c cycles × Deadlock sample ordering c d))
detect_and_report_lock_order_cycles_lem_example =
    detect_and_report_lock_order_cycles_lem sample ordering
