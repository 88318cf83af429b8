-- ===== src/Util/Mutex/Locks.antt =====
-- What the locks of a `KeyedMutex` exclude, and what they wait for.
use yggdrasil_authentication.Base.{
  ℕ, ◌≡◌, ◌⊎◌, inl, inr, refl, ap, true, false, Option, none, some, Bool-cases, nat_eq, text_eq,
  Text, arith,
}
use native.Mathlib.Decide.{ℕ_discrete}
use yggdrasil_authentication.Util.Mutex.{
  KeyedMutex, load, load_or_store, changed_at, lock, unlock, Goroutine, outside, waiting, holding,
  Move, call, acquire, release, System, Step, pick, fresh, Reach, start, later,
}
use yggdrasil_authentication.Util.Mutex.Keys.{
  Maps, load-load_or_store, load_or_store_keeps, store_unless-Maps, load_or_store-locked,
}

-- A goroutine that waits for or holds a key has the mutex that the map gives the key.
abbrev uses : Goroutine → Option (Text × ℕ)
uses outside = none
uses (waiting key mutex) = some (key, mutex)
uses (holding key mutex) = some (key, mutex)

record Inv (m : KeyedMutex) (goroutines : ℕ → Goroutine) : Type 0 where
  maps : Maps m.mutexes m.made
  known :
      (i : ℕ) (key : Text) (mutex : ℕ)
      → uses (goroutines i) ≡ some (key, mutex)
      → load key m.mutexes ≡ some mutex
  held : (i : ℕ) (key : Text) (mutex : ℕ) → goroutines i ≡ holding key mutex → m.locked mutex ≡ true
  alone :
      (i j : ℕ) (key other : Text) (mutex : ℕ)
      → goroutines i ≡ holding key mutex
      → goroutines j ≡ holding other mutex
      → i ≡ j
  owned :
      (mutex : ℕ)
      → m.locked mutex ≡ true
      → (i : ℕ) × (key : Text) × (goroutines i ≡ holding key mutex)

fresh-Inv : Inv fresh.keyed_mutex fresh.goroutines
unfolding load
fresh-Inv = record {
  maps = record { allocated = λ key mutex h. cc; separate = λ key other mutex h k. cc };
  known = λ i key mutex h. cc;
  held = λ i key mutex h. cc;
  alone = λ i j key other mutex h k. cc;
  owned = λ mutex h. cc;
}

call-Inv :
    (m : KeyedMutex) (g : ℕ → Goroutine) (i : ℕ) (key : Text)
    → g i ≡ outside
    → Inv m g
    → Inv (load_or_store key m).1 (changed_at g i (waiting key (load_or_store key m).0))
unfolding load_or_store
call-Inv m g i key idle h = record {
  maps = store_unless-Maps (load key m.mutexes) key m h.maps;
  known = λ j other mutex used. ground (
    arith,
    used,
    load-load_or_store key m,
    load_or_store_keeps key m other mutex,
    h.known j other mutex,
  );
  held = λ j other mutex holds.
      ground (arith, holds, load_or_store-locked key m, h.held j other mutex);
  alone = λ j k one other mutex first second.
      ground (arith, first, second, h.alone j k one other mutex);
  owned = λ mutex taken.
      let (j, other, holds) = h.owned mutex (ground (arith, taken, load_or_store-locked key m)) in
      (j, other, ground (arith, idle, holds));
}

acquire-Inv :
    (m : KeyedMutex) (g : ℕ → Goroutine) (i : ℕ) (key : Text) (mutex : ℕ)
    → g i ≡ waiting key mutex
    → m.locked mutex ≡ false
    → Inv m g
    → Inv (lock mutex m) (changed_at g i (holding key mutex))
acquire-Inv m g i key mutex waits free h = record {
  maps = h.maps;
  known = λ j other used_mutex used.
      ground (arith, used, waits, h.known i key mutex, h.known j other used_mutex);
  held = λ j other used_mutex holds. ground (arith, holds, h.held j other used_mutex);
  alone = λ j k one other used_mutex first second. ground (
    arith,
    first,
    second,
    free,
    h.held j one used_mutex,
    h.held k other used_mutex,
    h.alone j k one other used_mutex,
  );
  owned = λ used_mutex taken. elim (ℕ_discrete used_mutex mutex) [
    | yes same ↦ (i, key, ground (arith, same))
    | no other_mutex ↦
        (let (j, other, holds) = h.owned used_mutex (ground (arith, taken, other_mutex)) in
          (j, other, ground (arith, waits, holds)))
  ];
}

release-Inv :
    (m : KeyedMutex) (g : ℕ → Goroutine) (i : ℕ) (key : Text) (mutex : ℕ)
    → g i ≡ holding key mutex
    → Inv m g
    → Inv (unlock mutex m) (changed_at g i outside)
release-Inv m g i key mutex holds h = record {
  maps = h.maps;
  known = λ j other used_mutex used. ground (arith, used, h.known j other used_mutex);
  held = λ j other used_mutex held.
      ground (arith, held, holds, h.held j other used_mutex, h.alone i j key other used_mutex);
  alone = λ j k one other used_mutex first second.
      ground (arith, first, second, h.alone j k one other used_mutex);
  owned = λ used_mutex taken.
      let (j, other, held) = h.owned used_mutex (ground (arith, taken)) in
      (j, other, ground (arith, taken, holds, held));
}

Move-Inv :
    (g : ℕ → Goroutine) (i : ℕ) (before : Goroutine) {m m' : KeyedMutex} {g' : Goroutine}
    → g i ≡ before
    → Move m before m' g'
    → Inv m g
    → Inv m' (changed_at g i g')
Move-Inv g i outside {m} e (call key) h = call-Inv m g i key e h
Move-Inv g i (waiting key mutex) {m} e (acquire free) h = acquire-Inv m g i key mutex e free h
Move-Inv g i (holding key mutex) {m} e release h = release-Inv m g i key mutex e h

Step-Inv :
    {s t : System} → Step s t → Inv s.keyed_mutex s.goroutines → Inv t.keyed_mutex t.goroutines
Step-Inv {s} (pick i move) h = Move-Inv s.goroutines i (s.goroutines i) refl move h

Reach-Inv : {s : System} → Reach s → Inv s.keyed_mutex s.goroutines
Reach-Inv start = fresh-Inv
Reach-Inv (later r st) = Step-Inv st (Reach-Inv r)

-- In every state that an interleaving of goroutines which take and release locks leads to, two
-- goroutines do not hold the lock of one key, whichever mutexes they were given.
pub lock_excludes :
    {s : System} (i j : ℕ) (key : Text) (mutex other : ℕ)
    → Reach s
    → s.goroutines i ≡ holding key mutex
    → s.goroutines j ≡ holding key other
    → i ≡ j
lock_excludes i j key mutex other r first second = ground (
  arith,
  first,
  second,
  (Reach-Inv r).known i key mutex,
  (Reach-Inv r).known j key other,
  (Reach-Inv r).alone i j key key mutex,
)

-- In every such state, a goroutine that waits for the lock of a key either takes it in the next
-- step, if it is picked, or another goroutine holds the lock of the same key.
pub lock_waits :
    {s : System} (i : ℕ) (key : Text) (mutex : ℕ)
    → Reach s
    → s.goroutines i ≡ waiting key mutex
    → Step s (record {
      keyed_mutex = lock mutex s.keyed_mutex;
      goroutines = changed_at s.goroutines i (holding key mutex);
    })
      ⊎ ((j : ℕ) × (s.goroutines j ≡ holding key mutex))
lock_waits {s} i key mutex r waits = elim (Bool-cases (s.keyed_mutex.locked mutex)) [
  | inl taken ↦
      (let (j, other, holds) = (Reach-Inv r).owned mutex taken in
        let same =
          (Reach-Inv r).maps.separate key other mutex
            ((Reach-Inv r).known i key mutex (ap uses waits))
            ((Reach-Inv r).known j other mutex (ap uses holds)) in
        inr (j, cc))
  | inr free ↦ inl (pick i (rw waits (acquire free)))
]
