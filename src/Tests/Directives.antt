-- ===== src/Tests/Directives.antt =====
-- The theorems on directives, for a file with the sample's method below an ignore comment.
use golintmu.Base.{
  ℕ, String, ◌≡◌, refl, false, ◌&&◌, ◌||◌, Option, none, some, List, [], ◌∷◌, nat_eq, string_eq,
  contains, lookup_list,
}
use golintmu.Ssa.{is_valid}
use golintmu.Pass.{Annotations, new_pass_context}
use golintmu.Report.{is_suppressed}
use golintmu.Directives.Text.{ignore, mark_concurrent, directive_of}
use golintmu.Directives.{File, func_decl, other_decl, parse_annotations}
use golintmu.Directives.Suppressed.{
  is_mark, is_ignore, is_on, is_above, any_comment, parse_annotations_lem,
  is_suppressed-parse_annotations,
}
use golintmu.Tests.Sample.{sample}

directive_with_reason : directive_of "// mu:ignore  held by the caller" ≡ some ignore
unfolding directive_of golintmu.Base.dec_of_iff golintmu.Base.ℕ_discrete
directive_with_reason = refl

directive_alone : directive_of "//mu:concurrent" ≡ some mark_concurrent
unfolding directive_of golintmu.Base.dec_of_iff golintmu.Base.ℕ_discrete
directive_alone = refl

no_directive : directive_of "//mu:ignored" ≡ none
unfolding directive_of golintmu.Base.dec_of_iff golintmu.Base.ℕ_discrete
no_directive = refl

-- The method is declared on line 10, below the comment, and a nolint comment stands on line 39.
abbrev commented : File
commented = record {
  decls = other_decl ∷ func_decl (record { decl_pos = 10; name_pos = 1; body_end = some 90 }) ∷ [];
  comments =
      (record { comment_pos = 9; text = "//mu:ignore" } ∷ [])
      ∷ (record { comment_pos = 39; text = "//mu:nolint known" } ∷ [])
      ∷ [];
}

parse_annotations_lem_example :
    (ann : Annotations) × (parse_annotations sample (commented ∷ []) (new_pass_context false)
      ≡ record (new_pass_context false) { annotations = some ann })
    × ((fn : ℕ)
        → contains ann.concurrent fn
          ≡ any_comment sample (is_on sample is_mark fn) (commented ∷ []))
    × ((fn : ℕ)
        → contains ann.ignored fn ≡ any_comment sample (is_on sample is_ignore fn) (commented ∷ []))
    × ((file : String) (line : ℕ)
        → contains (lookup_list file ann.nolint) line
          ≡ any_comment sample (λ _. is_above sample file line) (commented ∷ []))
parse_annotations_lem_example =
    parse_annotations_lem sample (commented ∷ []) (new_pass_context false)

is_suppressed-parse_annotations_example :
    is_suppressed sample (parse_annotations sample (commented ∷ []) (new_pass_context false)) 0 40
    ≡ (any_comment sample (is_on sample is_ignore 0) (commented ∷ [])
        || is_valid 40
          && any_comment sample (λ _. is_above sample "counter.go" 40) (commented ∷ []))
is_suppressed-parse_annotations_example =
    is_suppressed-parse_annotations sample (commented ∷ []) (new_pass_context false) 0 40
