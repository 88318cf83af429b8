-- ===== src/Model/Ids/Roundtrip.antt =====
-- About `UUIDToID` and `IDToUUID` of model.go.
use yggdrasil_authentication.Base.{
  ℕ, zero, suc, ◌≡◌, ◌≢◌, ◌+◌, refl, ap, ◌++◌, [], ◌∷◌, sym, ◌∙◌, arith, Text, length, take, drop,
  length-append, take-append-drop, take-append-drop_at, take-append_at, drop-append_at, drop-drop,
}
use yggdrasil_authentication.Types.{ok}
use yggdrasil_authentication.Model.Ids.{remove_dashes, uuid_to_id, id_to_uuid, slice}

abbrev pub NoDash : Text → Type 0
NoDash [] = Unit
NoDash (c ∷ s) = (c ≢ b'-') × NoDash s

NoDash-take : (n : ℕ) (s : Text) → NoDash s → NoDash (take n s)
NoDash-take zero s h = tt
NoDash-take (suc n) [] h = tt
NoDash-take (suc n) (c ∷ s) h = (h.0, NoDash-take n s h.1)

NoDash-drop : (n : ℕ) (s : Text) → NoDash s → NoDash (drop n s)
NoDash-drop zero s h = h
NoDash-drop (suc n) [] h = tt
NoDash-drop (suc n) (c ∷ s) h = NoDash-drop n s h.1

remove_dashes-append : (s t : Text) → NoDash s → remove_dashes (s ++ t) ≡ s ++ remove_dashes t
unfolding remove_dashes
remove_dashes-append [] t h = refl
remove_dashes-append (c ∷ s) t h = ground (arith, remove_dashes-append s t h.1)

remove_dashes_of_NoDash : (s : Text) → NoDash s → remove_dashes s ≡ s
unfolding remove_dashes
remove_dashes_of_NoDash [] h = refl
remove_dashes_of_NoDash (c ∷ s) h = ground (arith, remove_dashes_of_NoDash s h.1)

remove_dashes-group :
    (s t : Text) → NoDash s → remove_dashes (s ++ (b'-' ∷ t)) ≡ s ++ remove_dashes t
unfolding remove_dashes
remove_dashes-group s t h = remove_dashes-append s (b'-' ∷ t) h

-- A UUID by its five groups, and the identifier of the same groups.
abbrev pub dashed : Text → Text → Text → Text → Text → Text
dashed a b c d e = a ++ (b'-' ∷ (b ++ (b'-' ∷ (c ++ (b'-' ∷ (d ++ (b'-' ∷ e)))))))

abbrev pub plain : Text → Text → Text → Text → Text → Text
plain a b c d e = a ++ (b ++ (c ++ (d ++ e)))

remove_dashes-dashed :
    (a b c d e : Text)
    → NoDash a
    → NoDash b
    → NoDash c
    → NoDash d
    → NoDash e
    → remove_dashes (dashed a b c d e) ≡ plain a b c d e
remove_dashes-dashed a b c d e ha hb hc hd he = rw (
  remove_dashes-group a _ ha,
  remove_dashes-group b _ hb,
  remove_dashes-group c _ hc,
  remove_dashes-group d _ hd,
  remove_dashes_of_NoDash e he,
)

length-dashed : (a b c d e : Text) → length (dashed a b c d e) ≡ length (plain a b c d e) + 4
length-dashed a b c d e = omega (
  arith,
  length-append a (b'-' ∷ (b ++ (b'-' ∷ (c ++ (b'-' ∷ (d ++ (b'-' ∷ e))))))),
  length-append b (b'-' ∷ (c ++ (b'-' ∷ (d ++ (b'-' ∷ e))))),
  length-append c (b'-' ∷ (d ++ (b'-' ∷ e))),
  length-append d (b'-' ∷ e),
  length-append a (b ++ (c ++ (d ++ e))),
  length-append b (c ++ (d ++ e)),
  length-append c (d ++ e),
  length-append d e,
)

-- An identifier is its groups put together.
plain-slices :
    (id : Text)
    → plain (slice 0 8 id) (slice 8 4 id) (slice 12 4 id) (slice 16 4 id) (drop 20 id) ≡ id
plain-slices id = rw (
  take-append-drop_at 16 4 id,
  take-append-drop_at 12 4 id,
  take-append-drop_at 8 4 id,
  take-append-drop 8 id,
)

pub uuid_to_id_of_length :
    (uuid : Text) → length uuid ≡ 36 → uuid_to_id uuid ≡ ok (remove_dashes uuid)
unfolding uuid_to_id
uuid_to_id_of_length uuid h = ground arith

-- An identifier of 32 bytes without dashes becomes a UUID of 36 bytes, and `UUIDToID` takes that
-- back to the identifier.
pub uuid_to_id-id_to_uuid :
    (id : Text)
    → length id ≡ 32
    → NoDash id
    → (uuid : Text) × (id_to_uuid id ≡ ok uuid) × (length uuid ≡ 36) × (uuid_to_id uuid ≡ ok id)
unfolding id_to_uuid
uuid_to_id-id_to_uuid id h clean =
    let a = slice 0 8 id in
    let b = slice 8 4 id in
    let c = slice 12 4 id in
    let d = slice 16 4 id in
    let e = drop 20 id in
    let long : length (dashed a b c d e) ≡ 36 =
      omega (arith, length-dashed a b c d e, ap length (plain-slices id)) in
    let stripped : remove_dashes (dashed a b c d e) ≡ plain a b c d e =
      remove_dashes-dashed a b c d e (NoDash-take 8 id clean)
        (NoDash-take 4 _ (NoDash-drop 8 id clean)) (NoDash-take 4 _ (NoDash-drop 12 id clean))
        (NoDash-take 4 _ (NoDash-drop 16 id clean)) (NoDash-drop 20 id clean) in
    (
      dashed a b c d e,
      ground arith,
      long,
      uuid_to_id_of_length (dashed a b c d e) long ∙ ap ok (stripped ∙ plain-slices id),
    )

id_to_uuid_of_length :
    (id : Text)
    → length id ≡ 32
    → id_to_uuid id
      ≡ ok (dashed (slice 0 8 id) (slice 8 4 id) (slice 12 4 id) (slice 16 4 id) (drop 20 id))
unfolding id_to_uuid
id_to_uuid_of_length id h = ground arith

-- The parts that `IDToUUID` cuts out of groups of 8, 4, 4, 4 bytes and a rest are the groups.
slices-plain :
    (a b c d e : Text)
    → length a ≡ 8
    → length b ≡ 4
    → length c ≡ 4
    → length d ≡ 4
    → let id = plain a b c d e in
      dashed (slice 0 8 id) (slice 8 4 id) (slice 12 4 id) (slice 16 4 id) (drop 20 id)
      ≡ dashed a b c d e
slices-plain a b c d e la lb lc ld =
    let after_a : drop 8 (plain a b c d e) ≡ b ++ (c ++ (d ++ e)) = drop-append_at a _ la in
    let after_b : drop 12 (plain a b c d e) ≡ c ++ (d ++ e) =
      sym (drop-drop 8 4 (plain a b c d e)) ∙ ap (drop 4) after_a ∙ drop-append_at b _ lb in
    let after_c : drop 16 (plain a b c d e) ≡ d ++ e =
      sym (drop-drop 12 4 (plain a b c d e)) ∙ ap (drop 4) after_b ∙ drop-append_at c _ lc in
    let after_d : drop 20 (plain a b c d e) ≡ e =
      sym (drop-drop 16 4 (plain a b c d e)) ∙ ap (drop 4) after_c ∙ drop-append_at d _ ld in
    rw (
      after_a,
      after_b,
      after_c,
      after_d,
      take-append_at a (b ++ (c ++ (d ++ e))) la,
      take-append_at b (c ++ (d ++ e)) lb,
      take-append_at c (d ++ e) lc,
      take-append_at d e ld,
    )

-- A UUID in the form 8-4-4-4-12, whose groups hold no dash, becomes the identifier of its groups,
-- and `IDToUUID` takes that back to the UUID.
pub id_to_uuid-uuid_to_id :
    (a b c d e : Text)
    → length a ≡ 8
    → length b ≡ 4
    → length c ≡ 4
    → length d ≡ 4
    → length e ≡ 12
    → NoDash a × NoDash b × NoDash c × NoDash d × NoDash e
    → (uuid_to_id (dashed a b c d e) ≡ ok (plain a b c d e))
      × (id_to_uuid (plain a b c d e) ≡ ok (dashed a b c d e))
id_to_uuid-uuid_to_id a b c d e la lb lc ld le (ha, hb, hc, hd, he) =
    let short : length (plain a b c d e) ≡ 32 = omega (
      arith,
      length-append a (b ++ (c ++ (d ++ e))),
      length-append b (c ++ (d ++ e)),
      length-append c (d ++ e),
      length-append d e,
    ) in
    (
      uuid_to_id_of_length _ (length-dashed a b c d e ∙ ap (λ n. n + 4) short)
          ∙ ap ok (remove_dashes-dashed a b c d e ha hb hc hd he),
      id_to_uuid_of_length _ short ∙ ap ok (slices-plain a b c d e la lb lc ld),
    )
