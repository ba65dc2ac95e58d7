-- ===== src/LockOrder.antt =====
-- pkg/analyzer/lockorder.go: the graph of lock acquisition order.
pub mod Search
pub mod Cycles
pub mod Ends
use golintmu.Base.{◌&&◌, List, ◌==◌, if◌then◌else◌, nat_eq, Map, lookup_list, append_at, any}
use golintmu.Pass.{LockOrderEdge, MutexFieldKey}
use golintmu.Pass.Keys.{MutexFieldKey_eq}

abbrev pub LockOrderGraph : Type 0
LockOrderGraph = Map MutexFieldKey (List LockOrderEdge)

unfoldable pub add_edge : LockOrderGraph → LockOrderEdge → LockOrderGraph
add_edge edges edge =
    if any (λ existing. existing.to == edge.to && existing.fn == edge.fn)
      (lookup_list edge.from edges)
    then edges
    else append_at edge.from edge edges
