-- ===== src/Keys/Published.antt =====
-- About the collection and the publication of public keys.
use yggdrasil_authentication.Base.{
  ◌≡◌, refl, sym, ap, ◌∙◌, inl, inr, Bool-cases, true, false, ◌||◌, Option, none, some, List, [],
  ◌∷◌, ◌++◌, Text, arith,
}
use yggdrasil_authentication.Types.{
  Result, ok, err, FallbackApiServer, SerializedKey, PublicKeysResponse, public_keys, json,
}
use yggdrasil_authentication.Platform.{Platform}
use yggdrasil_authentication.Platform.Laws.{KeyLaws}
use yggdrasil_authentication.Action.{App, World, Exit, next, reply, fail, panic}
use yggdrasil_authentication.Keys.{
  CollectedKeys, contains_public_key, serialized_key_to_public_key, add_key, add_keys, ask_keys,
  add_response, ask_servers, collect_keys, serialize_keys, services_public_keys,
}

module _ ⦃P : Platform⦄ where
  -- No key stands in a list twice.
  abbrev pub IsKeySet : List P.PublicKey → Type 0
  IsKeySet [] = Unit
  IsKeySet (k ∷ ks) = (contains_public_key ks k ≡ false) × IsKeySet ks

  contains_public_key-append :
      (xs ys : List P.PublicKey) (k : P.PublicKey)
      → contains_public_key (xs ++ ys) k ≡ contains_public_key xs k || contains_public_key ys k
  unfolding contains_public_key
  contains_public_key-append [] ys k = refl
  contains_public_key-append (x ∷ xs) ys k = ground (arith, contains_public_key-append xs ys k)

  module _ (laws : KeyLaws P) where
    key_same : (k : P.PublicKey) → P.key_equal k k ≡ true
    key_same k = (laws.key_equal_iff k k).1 refl

    key_sym : (k l : P.PublicKey) → P.key_equal k l ≡ P.key_equal l k
    key_sym k l = ground (arith, laws.key_equal_iff k l, laws.key_equal_iff l k)

    append-IsKeySet :
        (xs : List P.PublicKey) (k : P.PublicKey)
        → IsKeySet xs
        → contains_public_key xs k ≡ false
        → IsKeySet (xs ++ k ∷ [])
    unfolding contains_public_key
    append-IsKeySet [] k unique absent = (refl, tt)
    append-IsKeySet (x ∷ xs) k (new, unique) absent = (
      ground (arith, absent, contains_public_key-append xs (k ∷ []) x, new, key_sym x k),
      append-IsKeySet xs k unique (ground (arith, absent)),
    )

    add_key-IsKeySet :
        (keys : List P.PublicKey) (r : Result P.PublicKey)
        → IsKeySet keys
        → IsKeySet (add_key keys r)
    unfolding add_key
    add_key-IsKeySet keys (err e) unique = unique
    add_key-IsKeySet keys (ok k) unique = elim (Bool-cases (contains_public_key keys k)) [
      | inl old ↦ rw old unique
      | inr new ↦ rw new (append-IsKeySet keys k unique new)
    ]

    contains-add_key :
        (keys : List P.PublicKey) (k t : P.PublicKey)
        → contains_public_key (add_key keys (ok k)) t
          ≡ contains_public_key keys t || P.key_equal k t
    unfolding add_key contains_public_key
    contains-add_key keys k t = elim (Bool-cases (contains_public_key keys k)) [
      | inl old ↦ elim (Bool-cases (P.key_equal k t)) [
        | inl same ↦ ground (arith, old, same, laws.key_equal_iff k t)
        | inr other ↦ ground (arith, old, other)
      ]
      | inr new ↦ ground (arith, new, contains_public_key-append keys (k ∷ []) t)
    ]

    add_key_keeps :
        (keys : List P.PublicKey) (r : Result P.PublicKey) (t : P.PublicKey)
        → contains_public_key keys t ≡ true
        → contains_public_key (add_key keys r) t ≡ true
    unfolding add_key
    add_key_keeps keys (err e) t h = h
    add_key_keeps keys (ok k) t h = ground (arith, h, contains-add_key keys k t)

    -- A set of keys with the server's own.
    abbrev pub IsGood : P.PublicKey → List P.PublicKey → Type 0
    IsGood own keys = IsKeySet keys × (contains_public_key keys own ≡ true)

    add_keys-IsGood :
        (own : P.PublicKey) (keys : List P.PublicKey) (ss : List SerializedKey)
        → IsGood own keys
        → IsGood own (add_keys keys ss)
    unfolding add_keys
    add_keys-IsGood own keys [] good = good
    add_keys-IsGood own keys (s ∷ ss) (unique, there) =
        add_keys-IsGood own (add_key keys (serialized_key_to_public_key s)) ss (
          add_key-IsKeySet keys (serialized_key_to_public_key s) unique,
          add_key_keeps keys (serialized_key_to_public_key s) own there,
        )

    abbrev pub AreGood : P.PublicKey → CollectedKeys → Type 0
    AreGood own keys =
        IsGood own keys.profile_property_keys × IsGood own keys.player_certificate_keys

    add_response-AreGood :
        (own : P.PublicKey) (keys : CollectedKeys) (res : Option PublicKeysResponse)
        → AreGood own keys
        → AreGood own (add_response keys res)
    unfolding add_response
    add_response-AreGood own keys none good = good
    add_response-AreGood own keys (some res) (good, good') = (
      add_keys-IsGood own keys.profile_property_keys res.profile_property_keys good,
      add_keys-IsGood own keys.player_certificate_keys res.player_certificate_keys good',
    )

    ask_servers-AreGood :
        (own : P.PublicKey) (keys collected : CollectedKeys) (servers : List FallbackApiServer)
        (w w' : World P)
        → AreGood own keys
        → ask_servers keys servers w ≡ (next collected, w')
        → AreGood own collected
    unfolding ask_servers
    ask_servers-AreGood own keys collected [] w w' good h =
        let same : keys ≡ collected = ground (arith, h) in rw (sym same) good
    ask_servers-AreGood own keys collected (server ∷ servers) w w' good h =
        by_answer _ _ refl λ res w1 run.
          ask_servers-AreGood own (add_response keys res) collected servers w1 w'
            (add_response-AreGood own keys res good) run
      where
        by_answer :
            (e : Exit (Option PublicKeysResponse)) (w1 : World P)
            → ask_keys server w ≡ (e, w1)
            → ((res : Option PublicKeysResponse) (w1 : World P)
                → ask_servers (add_response keys res) servers w1 ≡ (next collected, w')
                → AreGood own collected)
            → AreGood own collected
        by_answer (next res) w1 run rest = rest res w1 (ground (arith, h, run))
        by_answer (reply r) w1 run rest = absurd (ground (arith, h, run))
        by_answer (fail e) w1 run rest = absurd (ground (arith, h, run))
        by_answer panic w1 run rest = absurd (ground (arith, h, run))

    -- When the keys are collected, whatever the fallback servers answer, the server's own key is in
    -- both lists, and no key stands in one twice. This rests on the documented behaviour of the key
    -- library.
    pub collect_keys-AreGood :
        (app : App P) (collected : CollectedKeys) (w w' : World P)
        → collect_keys app w ≡ (next collected, w')
        → AreGood (P.public app.key) collected
    unfolding collect_keys contains_public_key
    collect_keys-AreGood app collected w w' h =
        ask_servers-AreGood (P.public app.key) _ collected app.config.fallback_api_servers w w'
          (
            ((refl, tt), ground (arith, key_same (P.public app.key))),
            ((refl, tt), ground (arith, key_same (P.public app.key))),
          )
          h

    -- A published key is read again.
    serialized_key :
        (k : P.PublicKey) (der : Text)
        → P.marshal_pkix_public_key k ≡ ok der
        → serialized_key_to_public_key (record { public_key = P.base64_encode der }) ≡ ok k
    unfolding serialized_key_to_public_key
    serialized_key k der h =
        ground (arith, laws.base64_decode-base64_encode der, laws.parse_marshal k der h)

    serialize_keys_cons :
        (k : P.PublicKey) (ks : List P.PublicKey) (ss : List SerializedKey) (der : Result Text)
        (rest : Result (List SerializedKey))
        → P.marshal_pkix_public_key k ≡ der
        → serialize_keys ks ≡ rest
        → serialize_keys (k ∷ ks) ≡ ok ss
        → (d : Text) × (ss' : List SerializedKey) × (P.marshal_pkix_public_key k ≡ ok d)
          × (serialize_keys ks ≡ ok ss')
          × (ss ≡ record { public_key = P.base64_encode d } ∷ ss')
    unfolding serialize_keys
    serialize_keys_cons k ks ss (err e) rest m r h = absurd (ground (arith, m, h))
    serialize_keys_cons k ks ss (ok d) (err e) m r h = absurd (ground (arith, m, r, h))
    serialize_keys_cons k ks ss (ok d) (ok ss') m r h = (d, ss', m, r, ground (arith, m, r, h))

    contains-add_keys :
        (mine theirs : List P.PublicKey) (ss : List SerializedKey) (t : P.PublicKey)
        → serialize_keys theirs ≡ ok ss
        → contains_public_key (add_keys mine ss) t
          ≡ contains_public_key mine t || contains_public_key theirs t
    unfolding add_keys contains_public_key serialize_keys
    contains-add_keys mine [] [] t h = ground arith
    contains-add_keys mine [] (s ∷ ss) t h = absurd (ground (arith, h))
    contains-add_keys mine (k ∷ ks) ss t h =
        let (d, ss', marshalled, rest, shape) = serialize_keys_cons k ks ss _ _ refl refl h in
        let read = serialized_key k d marshalled in
        let later = contains-add_keys (add_key mine (ok k)) ks ss' t rest in
        ap (λ xs. contains_public_key (add_keys mine xs) t) shape
        ∙ ap (λ r. contains_public_key (add_keys (add_key mine r) ss') t) read
        ∙ later
        ∙ ground (arith, contains-add_key mine k t)

    -- A server that reads what another publishes holds exactly its own profile property keys and the
    -- other's; and its player certificate keys become its own and the other's profile property keys,
    -- for that is what is published for them. This rests on the documented behaviour of the key
    -- library and of base64.
    pub services_public_keys-add_response :
        (mine theirs : CollectedKeys) (res : PublicKeysResponse) (w w' : World P) (t : P.PublicKey)
        → services_public_keys theirs w ≡ (reply (json 200 (public_keys res)), w')
        → (contains_public_key (add_response mine (some res)).profile_property_keys t
            ≡ contains_public_key mine.profile_property_keys t
              || contains_public_key theirs.profile_property_keys t)
          × (contains_public_key (add_response mine (some res)).player_certificate_keys t
              ≡ contains_public_key mine.player_certificate_keys t
                || contains_public_key theirs.profile_property_keys t)
    unfolding services_public_keys add_response
    services_public_keys-add_response mine theirs res w w' t h = by_keys _ refl
      where
        by_keys :
            (ss : Result (List SerializedKey))
            → serialize_keys theirs.profile_property_keys ≡ ss
            → (contains_public_key (add_keys mine.profile_property_keys res.profile_property_keys) t
                ≡ contains_public_key mine.profile_property_keys t
                  || contains_public_key theirs.profile_property_keys t)
              × (contains_public_key
                    (add_keys mine.player_certificate_keys res.player_certificate_keys)
                    t
                  ≡ contains_public_key mine.player_certificate_keys t
                    || contains_public_key theirs.profile_property_keys t)
        by_keys (err e) s = absurd (ground (arith, h, s))
        by_keys (ok ss) s =
            let profile : ss ≡ res.profile_property_keys = ground (arith, h, s) in
            let player : ss ≡ res.player_certificate_keys = ground (arith, h, s) in
            (
              contains-add_keys mine.profile_property_keys theirs.profile_property_keys
                  res.profile_property_keys t (s ∙ ap ok profile),
              contains-add_keys mine.player_certificate_keys theirs.profile_property_keys
                  res.player_certificate_keys t (s ∙ ap ok player),
            )
