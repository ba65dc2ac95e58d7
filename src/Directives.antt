-- ===== src/Directives.antt =====
-- pkg/analyzer/annotations.go: `parseAnnotations`, the directives in comments.
pub mod Text
pub mod Suppressed
use golintmu.Base.{
  ℕ, suc, String, Bool, true, false, ◌&&◌, ◌||◌, Option, none, some, List, [], ◌∷◌, ◌==◌,
  if◌then◌else◌, nat_eq, string_eq, ◌>>=◌, lookup_list, insert, add, fold, leb,
}
use golintmu.Ssa.{Program}
use golintmu.Pass.{PassContext, Annotations}
use golintmu.Directives.Text.{Directive, mark_concurrent, ignore, nolint, directive_of}

-- `*ast.FuncDecl`: `fd.Pos()`, `fd.Name.Pos()`, and `fd.Body.End()` if there is a body.
pub record FuncDecl : Type 0 where
  pub decl_pos : ℕ
  pub name_pos : ℕ
  pub body_end : Option ℕ

pub data Decl : Type 0 where
  func_decl : FuncDecl → Decl
  other_decl : Decl

pub record Comment : Type 0 where
  pub comment_pos : ℕ
  pub text : String

-- `*ast.File`: the comments are in groups.
pub record File : Type 0 where
  pub decls : List Decl
  pub comments : List (List Comment)

-- The first loop over a file's declarations.
unfoldable pub func_decls_of : List Decl → List FuncDecl
func_decls_of [] = []
func_decls_of (decl ∷ decls) =
    let rest = func_decls_of decls in elim decl [ func_decl fd ↦ fd ∷ rest | other_decl ↦ rest ]

-- `commentPos >= fd.Pos() && commentPos <= fd.Body.End()`, of a function with a body
abbrev is_inside : ℕ → FuncDecl → Bool
is_inside pos fd = elim fd.body_end [ none ↦ false | some end ↦ leb fd.decl_pos pos && leb pos end ]

module _ (prog : Program) where
  open prog use {func, position, src_funcs}

  -- The comment is on the line of the declaration, on the line before, or inside.
  unfoldable pub belongs_to : ℕ → FuncDecl → Bool
  belongs_to pos fd =
      let comment_line = (position pos).line in
      let decl_line = (position fd.decl_pos).line in
      leb comment_line decl_line && leb decl_line (suc comment_line) || is_inside pos fd

  -- The loop that stops at the first declaration.
  unfoldable pub best_decl : ℕ → List FuncDecl → Option FuncDecl
  unfolding belongs_to
  best_decl pos [] = none
  best_decl pos (fd ∷ fds) =
      let rest = best_decl pos fds in if belongs_to pos fd then some fd else rest

  unfoldable pub func_at : ℕ → List ℕ → Option ℕ
  func_at pos [] = none
  func_at pos (fn ∷ fns) =
      let rest = func_at pos fns in if (func fn).fn_pos == pos then some fn else rest

  unfoldable pub ast_func_to_ssa : FuncDecl → Option ℕ
  unfolding func_at
  ast_func_to_ssa fd = func_at fd.name_pos src_funcs

  unfoldable pub find_func_for_comment : List FuncDecl → ℕ → Option ℕ
  unfolding best_decl ast_func_to_ssa
  find_func_for_comment fds pos = best_decl pos fds >>= ast_func_to_ssa

  -- The cases of the switch, for a comment at the position.
  unfoldable pub apply_directive : List FuncDecl → Annotations → ℕ → Option Directive → Annotations
  unfolding find_func_for_comment
  apply_directive fds ann pos none = ann
  apply_directive fds ann pos (some mark_concurrent) = elim (find_func_for_comment fds pos) [
    | none ↦ ann
    | some fn ↦ record ann { concurrent = add fn ann.concurrent }
  ]
  apply_directive fds ann pos (some ignore) = elim (find_func_for_comment fds pos) [
    | none ↦ ann
    | some fn ↦ record ann { ignored = add fn ann.ignored }
  ]
  apply_directive fds ann pos (some nolint) =
      let file = (position pos).filename in
      record ann {
        nolint =
            insert file (add (suc (position pos).line) (lookup_list file ann.nolint)) ann.nolint;
      }

  -- The body of the innermost loop.
  unfoldable pub parse_comment : List FuncDecl → Annotations → Comment → Annotations
  unfolding directive_of apply_directive
  parse_comment fds ann comment =
      apply_directive fds ann comment.comment_pos (directive_of comment.text)

  -- The body of the loop over the files.
  unfoldable pub parse_file : Annotations → File → Annotations
  unfolding parse_comment func_decls_of
  parse_file ann file =
      fold (λ a group. fold (parse_comment (func_decls_of file.decls)) a group) ann file.comments

  unfoldable pub parse_annotations : List File → PassContext → PassContext
  unfolding parse_file
  parse_annotations files ctx = record ctx {
    annotations =
        some (fold parse_file (record { concurrent = []; ignored = []; nolint = [] }) files);
  }
