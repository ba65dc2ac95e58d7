-- ===== src/Directives/Suppressed.antt =====
-- What the directives of pkg/analyzer/annotations.go do: which functions they mark, and which
-- reports they suppress.
use golintmu.Base.{
  ℕ, suc, String, ◌≡◌, refl, ap, ◌∙◌, inl, inr, Bool, true, false, ◌&&◌, ◌||◌, Option, none, some,
  List, [], ◌==◌, ==_iff, nat_eq, string_eq, arith, lookup_list, lookup-insert, contains,
  contains-add, add, any, fold, fold-any, Bool-cases, Option-cases,
}
use golintmu.Ssa.{Program, is_valid}
use golintmu.Pass.{PassContext, Annotations}
use golintmu.Report.{is_suppressed}
use golintmu.Directives.Text.{Directive, mark_concurrent, ignore, nolint, directive_of}
use golintmu.Directives.{
  FuncDecl, Comment, File, func_decls_of, find_func_for_comment, apply_directive, parse_comment,
  parse_file, parse_annotations,
}

abbrev pub is_mark : Option Directive → Bool
is_mark none = false
is_mark (some d) = elim d [ mark_concurrent ↦ true | _ ↦ false ]

abbrev pub is_ignore : Option Directive → Bool
is_ignore none = false
is_ignore (some d) = elim d [ ignore ↦ true | _ ↦ false ]

abbrev pub is_nolint : Option Directive → Bool
is_nolint none = false
is_nolint (some d) = elim d [ nolint ↦ true | _ ↦ false ]

module _ (prog : Program) where
  open prog use {position}

  -- A comment with such a directive that belongs to the function.
  abbrev pub is_on : (Option Directive → Bool) → ℕ → List FuncDecl → Comment → Bool
  is_on which fn fds c =
      which (directive_of c.text)
      && elim (find_func_for_comment prog fds c.comment_pos) [ none ↦ false | some g ↦ g == fn ]

  -- A nolint comment on the line above.
  abbrev pub is_above : String → ℕ → Comment → Bool
  is_above file line c =
      is_nolint (directive_of c.text)
      && ((position c.comment_pos).filename == file && suc (position c.comment_pos).line == line)

  -- Some comment of the files, with the functions of its file, passes the test.
  abbrev pub any_comment : (List FuncDecl → Comment → Bool) → List File → Bool
  any_comment test =
      any (λ file. any (λ group. any (test (func_decls_of file.decls)) group) file.comments)

  -- What is read of the annotations is what the comments add.
  any_comment-parse :
      (read : Annotations → Bool) (test : List FuncDecl → Comment → Bool)
      → ((fds : List FuncDecl) (ann : Annotations) (c : Comment)
          → read (parse_comment prog fds ann c) ≡ (read ann || test fds c))
      → (ann : Annotations) (files : List File)
      → read (fold (parse_file prog) ann files) ≡ (read ann || any_comment test files)
  unfolding parse_file
  any_comment-parse read test step =
      fold-any (parse_file prog)
        (λ file. any (λ group. any (test (func_decls_of file.decls)) group) file.comments) read
        (λ ann file.
          fold-any (λ a group. fold (parse_comment prog (func_decls_of file.decls)) a group)
            (λ group. any (test (func_decls_of file.decls)) group) read
            (λ a group.
              fold-any (parse_comment prog (func_decls_of file.decls))
                (test (func_decls_of file.decls)) read (step (func_decls_of file.decls)) a group)
            ann file.comments)

  module _ (fds : List FuncDecl) (ann : Annotations) (pos : ℕ) where
    -- The comment's function.
    abbrev finds : ℕ → Bool
    finds fn = elim (find_func_for_comment prog fds pos) [ none ↦ false | some g ↦ g == fn ]

    concurrent-apply :
        (d : Option Directive) (fn : ℕ)
        → contains (apply_directive prog fds ann pos d).concurrent fn
          ≡ (contains ann.concurrent fn || is_mark d && finds fn)
    unfolding apply_directive
    concurrent-apply none fn = ground arith
    concurrent-apply (some mark_concurrent) fn =
        elim (Option-cases (find_func_for_comment prog fds pos)) [
          | inl nowhere ↦ ground (arith, nowhere)
          | inr (g, found) ↦ ground (arith, found, contains-add g fn ann.concurrent)
        ]
    concurrent-apply (some ignore) fn = elim (Option-cases (find_func_for_comment prog fds pos)) [
      | inl nowhere ↦ ground (arith, nowhere)
      | inr (g, found) ↦ ground (arith, found)
    ]
    concurrent-apply (some nolint) fn = ground arith

    ignored-apply :
        (d : Option Directive) (fn : ℕ)
        → contains (apply_directive prog fds ann pos d).ignored fn
          ≡ (contains ann.ignored fn || is_ignore d && finds fn)
    unfolding apply_directive
    ignored-apply none fn = ground arith
    ignored-apply (some mark_concurrent) fn =
        elim (Option-cases (find_func_for_comment prog fds pos)) [
          | inl nowhere ↦ ground (arith, nowhere)
          | inr (g, found) ↦ ground (arith, found)
        ]
    ignored-apply (some ignore) fn = elim (Option-cases (find_func_for_comment prog fds pos)) [
      | inl nowhere ↦ ground (arith, nowhere)
      | inr (g, found) ↦ ground (arith, found, contains-add g fn ann.ignored)
    ]
    ignored-apply (some nolint) fn = ground arith

    nolint-apply :
        (d : Option Directive) (file : String) (line : ℕ)
        → contains (lookup_list file (apply_directive prog fds ann pos d).nolint) line ≡ (
            contains (lookup_list file ann.nolint) line
            || is_nolint d && ((position pos).filename == file && suc (position pos).line == line))
    unfolding apply_directive
    nolint-apply none file line = ground arith
    nolint-apply (some mark_concurrent) file line =
        elim (Option-cases (find_func_for_comment prog fds pos)) [
          | inl nowhere ↦ ground (arith, nowhere)
          | inr (g, found) ↦ ground (arith, found)
        ]
    nolint-apply (some ignore) file line =
        elim (Option-cases (find_func_for_comment prog fds pos)) [
          | inl nowhere ↦ ground (arith, nowhere)
          | inr (g, found) ↦ ground (arith, found)
        ]
    nolint-apply (some nolint) file line =
        let here = (position pos).filename in
        let lines = lookup_list here ann.nolint in
        elim (Bool-cases (here == file)) [
          | inl same ↦
              let e : here ≡ file = (==_iff here file).0 same in
              ground (
                arith,
                same,
                e,
                lookup-insert here file (add (suc (position pos).line) lines) ann.nolint,
                contains-add (suc (position pos).line) line lines,
              )
          | inr other ↦ ground (
            arith,
            other,
            lookup-insert here file (add (suc (position pos).line) lines) ann.nolint,
          )
        ]

-- What `parseAnnotations` sets, and it changes nothing else: a function is marked concurrent, or
-- ignored, exactly if some comment with that directive belongs to it, and a line of a file is not
-- linted exactly if some nolint comment stands on the line above.
pub parse_annotations_lem :
    (prog : Program) (files : List File) (ctx : PassContext)
    → (ann : Annotations) × (parse_annotations prog files ctx
        ≡ record ctx { annotations = some ann })
      × ((fn : ℕ) → contains ann.concurrent fn ≡ any_comment prog (is_on prog is_mark fn) files)
      × ((fn : ℕ) → contains ann.ignored fn ≡ any_comment prog (is_on prog is_ignore fn) files)
      × ((file : String) (line : ℕ)
          → contains (lookup_list file ann.nolint) line
            ≡ any_comment prog (λ _. is_above prog file line) files)
unfolding parse_annotations parse_comment
parse_annotations_lem prog files ctx =
    let start : Annotations = record { concurrent = []; ignored = []; nolint = [] } in
    (
      fold (parse_file prog) start files,
      refl,
      λ fn.
          any_comment-parse prog (λ ann. contains ann.concurrent fn) (is_on prog is_mark fn)
            (λ fds ann c. concurrent-apply prog fds ann c.comment_pos (directive_of c.text) fn)
            start files,
      λ fn.
          any_comment-parse prog (λ ann. contains ann.ignored fn) (is_on prog is_ignore fn)
            (λ fds ann c. ignored-apply prog fds ann c.comment_pos (directive_of c.text) fn) start
            files,
      λ file line.
          any_comment-parse prog (λ ann. contains (lookup_list file ann.nolint) line)
            (λ _. is_above prog file line)
            (λ fds ann c. nolint-apply prog fds ann c.comment_pos (directive_of c.text) file line)
            start files,
    )

-- After `parseAnnotations`, `isSuppressed` answers true for a function and a position exactly if an
-- ignore comment belongs to the function, or the position is valid and a nolint comment stands on
-- the line above it.
pub is_suppressed-parse_annotations :
    (prog : Program) (files : List File) (ctx : PassContext) (fn pos : ℕ)
    → is_suppressed prog (parse_annotations prog files ctx) fn pos ≡ (
        any_comment prog (is_on prog is_ignore fn) files
        || is_valid pos
          && any_comment prog
              (λ _. is_above prog (prog.position pos).filename (prog.position pos).line)
              files)
unfolding is_suppressed
is_suppressed-parse_annotations prog files ctx fn pos =
    let (ann, set, marked, ignored, silenced) = parse_annotations_lem prog files ctx in
    ap (λ c. is_suppressed prog c fn pos) set
    ∙ ground (arith, ignored fn, silenced (prog.position pos).filename (prog.position pos).line)
