-- ===== src/Model/Offline/Fields.antt =====
-- About the version and variant fields of `OfflineUUID` of model.go.
use yggdrasil_authentication.Base.{
  ℕ, zero, suc, ◌+◌, ◌<◌, ◌%◌, ◌≡◌, ◌≢◌, refl, if◌then◌else◌, sym, ap, ◌∙◌, Bool, true, List, [],
  ◌∷◌, Text, arith, nat_beq, nat_beq_iff, length, get_elem?, set, some, length-set,
  get_elem?-set_self, get_elem?-set_ne,
}
use Prim.Native.Nat.{bit_and, bit_or}
use yggdrasil_authentication.Model.Offline.{set_version_3, patch}

-- How many of the numbers under a bound fail a test.
failures : (ℕ → Bool) → ℕ → ℕ
failures test zero = 0
failures test (suc bound) = failures test bound + (if test bound then 0 else 1)

no_failures : (test : ℕ → Bool) (bound x : ℕ) → failures test bound ≡ 0 → x < bound → test x ≡ true
unfolding failures
no_failures test zero x h lt = absurd (omega arith)
no_failures test (suc bound) x h lt = ground (arith, no_failures test bound x)

version_table : failures (λ x. nat_beq (bit_or (bit_and x 0x0f) 0x30) (0x30 + x % 16)) 256 ≡ 0
unfolding failures
version_table = refl

variant_table : failures (λ x. nat_beq (bit_or (bit_and x 0x3f) 0x80) (0x80 + x % 64)) 256 ≡ 0
unfolding failures
variant_table = refl

version_byte : (x : ℕ) → x < 256 → bit_or (bit_and x 0x0f) 0x30 ≡ 0x30 + x % 16
version_byte x h = (nat_beq_iff _ _).0 (no_failures _ 256 x version_table h)

variant_byte : (x : ℕ) → x < 256 → bit_or (bit_and x 0x3f) 0x80 ≡ 0x80 + x % 64
variant_byte x h = (nat_beq_iff _ _).0 (no_failures _ 256 x variant_table h)

get_elem?-lt {ℓ} :
    {A : Type ℓ} (xs : List A) (i : ℕ) {x : A} → get_elem? xs i ≡ some x → i < length xs
get_elem?-lt [] i h = cc
get_elem?-lt (y ∷ xs) zero h = omega arith
get_elem?-lt (y ∷ xs) (suc i) h = omega (arith, get_elem?-lt xs i h)

module _ (b : Text) (i mask bits x : ℕ) (found : get_elem? b i ≡ some x) where
  patch_some : patch b i mask bits ≡ set b i (bit_or (bit_and x mask) bits)
  patch_some = ground arith

  length-patch : length (patch b i mask bits) ≡ length b
  length-patch = rw patch_some (length-set b i _)

  patch_self : get_elem? (patch b i mask bits) i ≡ some (bit_or (bit_and x mask) bits)
  patch_self = rw patch_some (get_elem?-set_self b i _ (get_elem?-lt b i found))

  patch_ne : (j : ℕ) → i ≢ j → get_elem? (patch b i mask bits) j ≡ get_elem? b j
  patch_ne j h = rw patch_some (get_elem?-set_ne b i j _ h)

-- For a sum of bytes with a seventh and a ninth, `OfflineUUID` writes version 3 into the upper half
-- of byte 6 and the IETF variant into the upper two bits of byte 8, keeps the other bits of both
-- bytes, every other byte and the number of bytes.
pub set_version_3_fields :
    (b : Text) (version variant : ℕ)
    → get_elem? b 6 ≡ some version
    → version < 256
    → get_elem? b 8 ≡ some variant
    → variant < 256
    → (get_elem? (set_version_3 b) 6 ≡ some (0x30 + version % 16))
      × (get_elem? (set_version_3 b) 8 ≡ some (0x80 + variant % 64))
      × ((i : ℕ) → i ≢ 6 → i ≢ 8 → get_elem? (set_version_3 b) i ≡ get_elem? b i)
      × (length (set_version_3 b) ≡ length b)
unfolding set_version_3
set_version_3_fields b version variant at6 small6 at8 small8 =
    let c = patch b 6 0x0f 0x30 in
    let still : get_elem? c 8 ≡ some variant =
      patch_ne b 6 0x0f 0x30 version at6 8 (omega arith) ∙ at8 in
    (
      patch_ne c 8 0x3f 0x80 variant still 6 (omega arith)
          ∙ patch_self b 6 0x0f 0x30 version at6
          ∙ ap some (version_byte version small6),
      patch_self c 8 0x3f 0x80 variant still ∙ ap some (variant_byte variant small8),
      λ i ne6 ne8.
          patch_ne c 8 0x3f 0x80 variant still i (λ e. ne8 (sym e))
          ∙ patch_ne b 6 0x0f 0x30 version at6 i (λ e. ne6 (sym e)),
      length-patch c 8 0x3f 0x80 variant still ∙ length-patch b 6 0x0f 0x30 version at6,
    )
