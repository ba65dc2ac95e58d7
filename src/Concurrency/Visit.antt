-- ===== src/Concurrency/Visit.antt =====
-- The inner loop of the search of pkg/analyzer/concurrency.go.
use golintmu.Base.{
  ℕ, ◌+◌, ◌≤◌, ◌≡◌, Bool, ◌||◌, ◌&&◌, not, ◌++◌, List, [], ◌∷◌, arith, ◌==◌, nat_eq, contains, add,
  fold, length, unmarked, unmarked-add-lt, contains-add, contains-append, length-append, IsSubset,
  Map, lookup_list, append_at, any, lookup_list-append_at,
}
use golintmu.Pass.{CallSiteRecord}
use golintmu.Concurrency.{visit, build_forward_call_graph}

-- The functions reached are those reached before and the callees.
pub contains-visited :
    (cs reachable queue : List ℕ) (x : ℕ)
    → contains (fold visit (reachable, queue) cs).0 x ≡ (contains reachable x || contains cs x)
unfolding visit
contains-visited [] r q x = ground arith
contains-visited (c ∷ cs) r q x = ground (
  arith,
  contains-visited cs r q x,
  contains-visited cs (add c r) (q ++ c ∷ []) x,
  contains-add c x r,
)

-- The functions queued are those queued before and the callees that are new.
pub contains-queued :
    (cs reachable queue : List ℕ) (x : ℕ)
    → contains (fold visit (reachable, queue) cs).1 x
      ≡ (contains queue x || (contains cs x && not (contains reachable x)))
unfolding visit
contains-queued [] r q x = ground arith
contains-queued (c ∷ cs) r q x = ground (
  arith,
  contains-queued cs r q x,
  contains-queued cs (add c r) (q ++ c ∷ []) x,
  contains-add c x r,
  contains-append q (c ∷ []) x,
)

pub visited-measure :
    (universe cs reachable queue : List ℕ)
    → IsSubset cs universe
    → length (fold visit (reachable, queue) cs).1
        + unmarked universe (fold visit (reachable, queue) cs).0
      ≤ length queue + unmarked universe reachable
unfolding visit
visited-measure u [] r q s = omega arith
visited-measure u (c ∷ cs) r q s = ground (
  arith,
  s c,
  visited-measure u cs r q (λ x m. s x (ground arith)),
  visited-measure u cs (add c r) (q ++ c ∷ []) (λ x m. s x (ground arith)),
  unmarked-add-lt u r c,
  length-append q (c ∷ []),
)

-- Some call site is of the one function in the other.
abbrev pub calls : List CallSiteRecord → ℕ → ℕ → Bool
calls sites f g = any (λ cs. cs.caller == f && cs.callee == g) sites

forward-from :
    (sites : List CallSiteRecord) (forward : Map ℕ (List ℕ)) (f g : ℕ)
    → contains (lookup_list f (fold (λ m cs. append_at cs.caller cs.callee m) forward sites)) g
      ≡ (contains (lookup_list f forward) g || calls sites f g)
forward-from [] forward f g = ground arith
forward-from (cs ∷ sites) forward f g = ground (
  arith,
  forward-from sites (append_at cs.caller cs.callee forward) f g,
  lookup_list-append_at cs.caller f cs.callee forward,
  contains-append (lookup_list cs.caller forward) (cs.callee ∷ []) g,
)

pub forward-calls :
    (sites : List CallSiteRecord) (f g : ℕ)
    → contains (lookup_list f (build_forward_call_graph sites)) g ≡ calls sites f g
unfolding build_forward_call_graph
forward-calls sites f g = forward-from sites [] f g
