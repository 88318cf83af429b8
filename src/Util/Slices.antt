-- ===== src/Util/Slices.antt =====
-- About `Contains` and `PtrEquals` of util.go.
use yggdrasil_authentication.Base.{
  ◌≡◌, ◌↔◌, refl, true, false, Option, none, some, List, [], ◌∷◌, ◌++◌, ◌||◌, arith, Eq, ◌==◌,
  Bool-cases, inl, inr, Text, text_eq, text_beq_iff,
}
use yggdrasil_authentication.Util.{contains, ptr_equals}

-- A position of `a` in a list.
pub data In {ℓ} {T : Type ℓ} (a : T) : List T → Type ℓ where
  here : {x : T} {xs : List T} → x ≡ a → In a (x ∷ xs)
  there : {x : T} {xs : List T} → In a xs → In a (x ∷ xs)

module _ {ℓ} {T : Type ℓ} ⦃e : Eq T⦄ where
  contains_sound : (xs : List T) (a : T) → contains xs a ≡ true → In a xs
  unfolding contains
  contains_sound [] a h = cc
  contains_sound (x ∷ xs) a h = elim (Bool-cases (x == a)) [
    | inl same ↦ here ((e.same_iff x a).0 same)
    | inr other ↦ there (contains_sound xs a (ground arith))
  ]

  contains_complete : {a : T} {xs : List T} → In a xs → contains xs a ≡ true
  unfolding contains
  contains_complete {a} (here {x} same) = ground (arith, e.same_iff x a)
  contains_complete (there later) = ground (arith, contains_complete later)

  -- `Contains` returns true exactly for the elements of the slice.
  pub contains_iff : (xs : List T) (a : T) → (contains xs a ≡ true) ↔ In a xs
  contains_iff xs a = (contains_sound xs a, contains_complete)

  -- `PtrEquals` holds exactly of equal pointees and of two nil pointers.
  pub ptr_equals_iff : (a b : Option T) → (ptr_equals a b ≡ true) ↔ (a ≡ b)
  unfolding ptr_equals
  ptr_equals_iff none none = ground arith
  ptr_equals_iff none (some b) = ground arith
  ptr_equals_iff (some a) none = ground arith
  ptr_equals_iff (some a) (some b) = ground (arith, e.same_iff a b)

-- No text stands in a list twice.
abbrev pub IsUnique : List Text → Type 0
IsUnique [] = Unit
IsUnique (d ∷ ds) = (contains ds d ≡ false) × IsUnique ds

pub contains-append :
    (xs ys : List Text) (d : Text) → contains (xs ++ ys) d ≡ contains xs d || contains ys d
unfolding contains
contains-append [] ys d = refl
contains-append (x ∷ xs) ys d = ground (arith, contains-append xs ys d)

pub append-IsUnique :
    (xs : List Text) (d : Text) → IsUnique xs → contains xs d ≡ false → IsUnique (xs ++ d ∷ [])
unfolding contains
append-IsUnique [] d unique absent = (refl, tt)
append-IsUnique (x ∷ xs) d (new, unique) absent = (
  ground (arith, absent, contains-append xs (d ∷ []) x, new, text_beq_iff x d, text_beq_iff d x),
  append-IsUnique xs d unique (ground (arith, absent)),
)
