-- ===== src/Util/Lines.antt =====
-- About `Wrap` of util.go.
use yggdrasil_authentication.Base.{
  ℕ, zero, suc, ◌≤◌, ◌<◌, ◌≡◌, refl, ◌∙◌, some, List, [], ◌∷◌, ◌++◌, append_assoc, arith, Text,
  text, length, take, drop, length-drop, take_all,
}
use native.Mathlib.Decide.{dec_le}
use yggdrasil_authentication.Util.{wrap_end, wrap_loop, wrap}

-- The lines joined by newlines.
abbrev pub join_lines : List Text → Text
join_lines [] = []
join_lines (l ∷ []) = l
join_lines (l ∷ m ∷ ls) = l ++ (text "\n" ++ join_lines (m ∷ ls))

-- `Cut n s ls`: `ls` are the lines of `s`, each of `n` bytes but the last, which has at most `n`.
pub data Cut (n : ℕ) : Text → List Text → Type 0 where
  last_line : {s : Text} → length s ≤ n → Cut n s (s ∷ [])
  full_line :
      {s : Text} {ls : List Text} → n < length s → Cut n (drop n s) ls → Cut n s (take n s ∷ ls)

join_lines-cons :
    {n : ℕ} {s : Text} {ls : List Text} (l : Text)
    → Cut n s ls
    → join_lines (l ∷ ls) ≡ l ++ (text "\n" ++ join_lines ls)
join_lines-cons l (last_line h) = refl
join_lines-cons l (full_line h c) = refl

wrap_end_last : (s : Text) (n : ℕ) → length s ≤ n → wrap_end s n ≡ length s
unfolding wrap_end
wrap_end_last s n h = ground arith

wrap_loop_last :
    (fuel : ℕ) (b s : Text) (n : ℕ) → length s ≤ n → wrap_loop (suc fuel) b s n ≡ some (b ++ s)
unfolding wrap_loop
wrap_loop_last fuel b s n h =
    ground (arith, wrap_end_last s n h, length-drop (length s) s, take_all s (length s))

wrap_loop_full :
    (fuel : ℕ) (b s : Text) (n : ℕ)
    → n < length s
    → wrap_loop (suc fuel) b s n ≡ wrap_loop fuel ((b ++ take n s) ++ text "\n") (drop n s) n
unfolding wrap_loop wrap_end
wrap_loop_full fuel b s n h = ground (arith, length-drop n s)

wrap_loop_lines :
    (fuel : ℕ) (b s : Text) (n : ℕ)
    → 0 < n
    → length s < fuel
    → (ls : List Text) × (wrap_loop fuel b s n ≡ some (b ++ join_lines ls)) × Cut n s ls
wrap_loop_lines zero b s n p h = elim h [ ]
wrap_loop_lines (suc fuel) b s n p h = elim (dec_le (length s) n) [
  | yes short ↦ (s ∷ [], wrap_loop_last fuel b s n short, last_line short)
  | no long ↦
      let (ls, e, c) =
        wrap_loop_lines fuel ((b ++ take n s) ++ text "\n") (drop n s) n p
          (omega (arith, length-drop n s)) in
      (
        take n s ∷ ls,
        wrap_loop_full fuel b s n (omega arith)
            ∙ rw (e, join_lines-cons (take n s) c) (simp append_assoc),
        full_line (omega arith) c,
      )
]

-- For a positive `n`, `Wrap` ends and returns the text cut into lines of `n` bytes and a last line
-- of at most `n`, joined by newlines.
pub wrap_lines :
    (s : Text) (n : ℕ) → 0 < n → (ls : List Text) × (wrap s n ≡ some (join_lines ls)) × Cut n s ls
unfolding wrap
wrap_lines s n p = wrap_loop_lines (suc (length s)) [] s n p (omega arith)
