-- ===== src/Directives/Text.antt =====
-- The text of a directive: pkg/analyzer/annotations.go, with `TrimPrefix` and `TrimSpace` of the
-- standard library.
use Prim.Native.Char.{Char, code}
use Prim.Native.String.{◌++◌}
use Prim.Native.String.String.{[], ◌∷◌}
use text.Mathlib.Text.{starts_with}
use golintmu.Base.{
  String, Bool, ◌&&◌, ◌||◌, Option, none, some, ◌==◌, if◌then◌else◌, nat_eq, string_eq, leb,
}

-- `unicode.IsSpace`
unfoldable pub is_space : Char → Bool
is_space c =
    let n = code c in
    leb 9 n && leb n 13
    || n == 32
    || n == 133
    || n == 160
    || n == 5760
    || leb 8192 n && leb n 8202
    || n == 8232
    || n == 8233
    || n == 8239
    || n == 8287
    || n == 12288

-- What is left of a text after a prefix.
unfoldable pub without_prefix : String → String → Option String
without_prefix text [] = some text
without_prefix [] (d ∷ prefix) = none
without_prefix (c ∷ text) (d ∷ prefix) =
    let rest = without_prefix text prefix in if code c == code d then rest else none

unfoldable pub trim_prefix : String → String → String
unfolding without_prefix
trim_prefix text prefix = elim (without_prefix text prefix) [ none ↦ text | some rest ↦ rest ]

unfoldable pub trim_left : String → String
unfolding is_space
trim_left [] = []
trim_left (c ∷ text) = let rest = trim_left text in if is_space c then rest else c ∷ text

unfoldable pub trim_right : String → String
unfolding is_space
trim_right [] = []
trim_right (c ∷ text) =
    let rest = trim_right text in if is_space c && rest == "" then [] else c ∷ rest

unfoldable pub trim_space : String → String
unfolding trim_left trim_right
trim_space text = trim_right (trim_left text)

pub data Directive : Type 0 where
  mark_concurrent ignore nolint : Directive

-- The directive alone, or with a reason.
abbrev is_directive : String → String → Bool
is_directive text name = text == name || starts_with text (name ++ " ")

unfoldable pub directive_of : String → Option Directive
unfolding trim_prefix trim_space
directive_of comment =
    let text = trim_space (trim_prefix comment "//") in
    if is_directive text "mu:concurrent"
    then some mark_concurrent
    else (if is_directive text "mu:ignore"
        then some ignore
        else (if is_directive text "mu:nolint" then some nolint else none))
