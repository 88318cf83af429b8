-- ===== src/Util.antt =====
-- The helpers of util.go: membership in a slice, equality behind pointers, and line wrapping.
pub mod Slices
pub mod Lines
pub mod Mutex
use yggdrasil_authentication.Base.{
  ℕ, zero, suc, Bool, true, false, Option, none, some, List, [], ◌∷◌, ◌++◌, Eq, ◌==◌, Text, text,
  ltb, length, take, drop, if◌then◌else◌,
}

module _ {ℓ} {T : Type ℓ} ⦃e : Eq T⦄ where
  -- `Contains`
  unfoldable pub contains : List T → T → Bool
  contains [] target = false
  contains (el ∷ slice) target = if el == target then true else contains slice target

  -- `PtrEquals`: two nil pointers are equal, a nil pointer equals nothing else, and otherwise what
  -- they point to is compared (which two equal pointers pass too).
  unfoldable pub ptr_equals : Option T → Option T → Bool
  ptr_equals none none = true
  ptr_equals none (some b) = false
  ptr_equals (some a) none = false
  ptr_equals (some a) (some b) = a == b

-- The slice position `end` of one round of `Wrap`'s loop.
wrap_end : Text → ℕ → ℕ
wrap_end s n = if ltb (length s) n then length s else n

-- The loop of `Wrap`, with the builder's content first: `none` when the fuel runs out, as it does
-- at any fuel for `n` = 0 and a text that is not empty, where the loop of the source does not end.
wrap_loop : ℕ → Text → Text → ℕ → Option Text
wrap_loop zero builder s n = none
wrap_loop (suc fuel) builder s n =
    let line = builder ++ take (wrap_end s n) s in
    let rest = drop (wrap_end s n) s in
    let more = wrap_loop fuel (line ++ text "\n") rest n in
    if ltb 0 (length rest) then more else some line

-- `Wrap`, with fuel for as many rounds as the text has bytes, and one.
unfoldable pub wrap : Text → ℕ → Option Text
unfolding wrap_loop wrap_end text
wrap s n = wrap_loop (suc (length s)) [] s n
