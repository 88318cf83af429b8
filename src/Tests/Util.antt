-- ===== src/Tests/Util.antt =====
-- The helpers of util.go at small inputs.
use yggdrasil_authentication.Base.{
  ◌≡◌, ◌↔◌, refl, true, none, some, List, Text, text, text_eq, nat_eq, arith,
}
use yggdrasil_authentication.Util.{ptr_equals, wrap}
use yggdrasil_authentication.Util.Slices.{ptr_equals_iff}
use yggdrasil_authentication.Util.Lines.{join_lines, Cut, wrap_lines}

wrap_runs : wrap (text "abcdefg") 3 ≡ some (text "abc\ndef\ng")
unfolding wrap text
wrap_runs = refl

wrap_whole_lines : wrap (text "abcdef") 3 ≡ some (text "abc\ndef")
unfolding wrap text
wrap_whole_lines = refl

-- Where the loop of the source does not end, the fuel runs out.
wrap_zero : wrap (text "a") 0 ≡ none
unfolding wrap text
wrap_zero = refl

wrap_lines_example :
    (ls : List Text) × (wrap (text "abcdefg") 3 ≡ some (join_lines ls)) × Cut 3 (text "abcdefg") ls
wrap_lines_example = wrap_lines (text "abcdefg") 3 (omega arith)

ptr_equals_iff_example : (ptr_equals (some (text "a")) none ≡ true) ↔ (some (text "a") ≡ none)
ptr_equals_iff_example = ptr_equals_iff (some (text "a")) none
