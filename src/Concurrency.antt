-- ===== src/Concurrency.antt =====
-- pkg/analyzer/concurrency.go: concurrent entrypoints, and the functions reachable from them.
pub mod Visit
pub mod Reachable
use golintmu.Base.{
  ℕ, zero, suc, ◌+◌, String, Bool, true, false, ◌&&◌, ◌||◌, ◌++◌, Option, none, some, List, [], ◌∷◌,
  ◌==◌, if◌then◌else◌, nat_eq, string_eq, ◌>>=◌, Map, lookup_list, append_at, contains, add, fold,
  length,
}
use golintmu.Types.{Ty}
use golintmu.Ssa.{Program, Value, CallCommon, Instr, Op, call, go, function, make_closure}
use golintmu.Resolver.{elem_of, named_of}
use golintmu.Pass.{PassContext, CallSiteRecord}

-- The loop over `forward[fn]`.
unfoldable pub visit : List ℕ × List ℕ → ℕ → List ℕ × List ℕ
visit (reachable, queue) callee =
    if contains reachable callee
    then (reachable, queue)
    else (add callee reachable, queue ++ callee ∷ [])

-- The breadth-first search; `queue` is what is left of the source's queue from `head` on. `none`:
-- the fuel ran out.
unfoldable pub search_from : ℕ → Map ℕ (List ℕ) → List ℕ → List ℕ → Option (List ℕ)
unfolding visit
search_from fuel forward reachable [] = some reachable
search_from zero forward reachable (fn ∷ queue) = none
search_from (suc fuel) forward reachable (fn ∷ queue) =
    let (reachable', queue') = fold visit (reachable, queue) (lookup_list fn forward) in
    search_from fuel forward reachable' queue'

unfoldable pub build_forward_call_graph : List CallSiteRecord → Map ℕ (List ℕ)
build_forward_call_graph sites = fold (λ forward cs. append_at cs.caller cs.callee forward) [] sites

-- A function is queued once: it is an entrypoint, or the callee of a call site.
unfoldable pub search_fuel : List ℕ → List CallSiteRecord → ℕ
search_fuel entrypoints sites = length entrypoints + length sites

unfoldable pub is_concurrent : PassContext → ℕ → Bool
is_concurrent ctx fn = elim ctx.concurrent_funcs [ none ↦ true | some fns ↦ contains fns fn ]

module _ (prog : Program) where
  open prog use {func, block, value_of, src_funcs, type_pkg, type_name, pkg_path}

  is_http_type : String → Ty → Bool
  unfolding named_of
  is_http_type name t = elim (named_of t) [
    | none ↦ false
    | some n ↦ elim (type_pkg n) [
      | none ↦ false
      | some p ↦ pkg_path p == "net/http" && type_name n == name
    ]
  ]

  unfoldable pub is_http_response_writer : Ty → Bool
  unfolding is_http_type
  is_http_response_writer = is_http_type "ResponseWriter"

  unfoldable pub is_http_request_ptr : Ty → Bool
  unfolding is_http_type elem_of
  is_http_request_ptr t = elim (elem_of t) [ none ↦ false | some e ↦ is_http_type "Request" e ]

  two_http_params : List Ty → Bool
  unfolding is_http_response_writer is_http_request_ptr
  two_http_params (w ∷ r ∷ []) = is_http_response_writer w && is_http_request_ptr r
  two_http_params params = false

  unfoldable pub is_serve_http_method : ℕ → Bool
  unfolding two_http_params
  is_serve_http_method fn = (func fn).fn_name == "ServeHTTP" && two_http_params (func fn).params

  -- A function value, or the function of a closure.
  called_function : Value → Option ℕ
  called_function (function f) = some f
  called_function (make_closure f) = elim (value_of f) [ function g ↦ some g | _ ↦ none ]
  called_function v = none

  unfoldable pub extract_go_target : CallCommon → Option ℕ
  unfolding called_function
  extract_go_target common = elim common.static_callee [
    | some callee ↦ some callee
    | none ↦ called_function (value_of common.call_value)
  ]

  unfoldable pub is_http_handle_func : ℕ → Bool
  is_http_handle_func fn =
      (func fn).fn_name == "HandleFunc"
      && elim (func fn).fn_pkg [ none ↦ false | some p ↦ pkg_path p == "net/http" ]

  last_arg : List ℕ → Option ℕ
  last_arg [] = none
  last_arg (x ∷ []) = some x
  last_arg (x ∷ y ∷ xs) = last_arg (y ∷ xs)

  unfoldable pub extract_handler_func_target : CallCommon → Option ℕ
  unfolding is_http_handle_func last_arg called_function
  extract_handler_func_target common = do
    callee ← common.static_callee
    arg ← if is_http_handle_func callee then last_arg common.args else none
    called_function (value_of arg)

  add_target : Option ℕ → List ℕ → List ℕ
  add_target none entrypoints = entrypoints
  add_target (some fn) entrypoints = add fn entrypoints

  instr_entrypoints : List ℕ → Instr → List ℕ
  unfolding extract_go_target extract_handler_func_target add_target
  instr_entrypoints entrypoints instr = elim instr.op [
    | go common ↦ add_target (extract_go_target common) entrypoints
    | call common ↦ add_target (extract_handler_func_target common) entrypoints
    | _ ↦ entrypoints
  ]

  function_entrypoints : List ℕ → ℕ → List ℕ
  unfolding is_serve_http_method instr_entrypoints
  function_entrypoints entrypoints fn =
      fold (λ es b. fold instr_entrypoints es (block b).instrs)
        (if is_serve_http_method fn then add fn entrypoints else entrypoints) (func fn).blocks

  unfoldable pub detect_concurrent_entrypoints : PassContext → List ℕ
  unfolding function_entrypoints
  detect_concurrent_entrypoints ctx =
      let found = fold function_entrypoints [] src_funcs in
      elim ctx.annotations [
        | none ↦ found
        | some ann ↦ fold (λ es fn. add fn es) found ann.concurrent
      ]

  -- `none`: the fuel of the search ran out.
  unfoldable pub compute_concurrent_context : PassContext → Option PassContext
  compute_concurrent_context ctx = elim (detect_concurrent_entrypoints ctx) [
    | [] ↦ some (record ctx { concurrent_funcs = none })
    | e ∷ es ↦
        search_from (search_fuel (e ∷ es) ctx.call_sites) (build_forward_call_graph ctx.call_sites)
          (e ∷ es) (e ∷ es)
        >>= λ reachable. some (record ctx { concurrent_funcs = some reachable })
  ]
