-- ===== src/Report/Paths.antt =====
-- The file names in the diagnostics of pkg/analyzer/reporter.go: `filepath.Base` of the standard
-- library, with "/" as the separator.
use Prim.Native.String.{String, ◌++◌}
use Prim.Native.String.String.{[], ◌∷◌}
use golintmu.Base.{◌==◌, string_eq, if◌then◌else◌}

-- `current` is what was read of the element at hand, `last` the last element that is not empty.
last_element : String → String → String → String
last_element [] current last = if current == "" then last else current
last_element (c ∷ path) current last =
    let ended = last_element path "" (if current == "" then last else current) in
    let continued = last_element path (current ++ c ∷ []) last in
    if (c ∷ []) == "/" then ended else continued

unfoldable pub base_name : String → String
unfolding last_element
base_name path =
    if path == ""
    then "."
    else (let element = last_element path "" "" in if element == "" then "/" else element)
