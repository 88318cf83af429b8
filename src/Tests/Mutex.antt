-- ===== src/Tests/Mutex.antt =====
-- The theorems on the keyed mutex, where two goroutines want the lock of one key.
use yggdrasil_authentication.Base.{ℕ, ◌≡◌, ◌⊎◌, refl, Text, text, text_beq}
use yggdrasil_authentication.Util.Mutex.{
  load, store_unless, load_or_store, changed_at, lock, waiting, holding, call, acquire, System,
  Step, pick, fresh, Reach, start, later,
}
use yggdrasil_authentication.Util.Mutex.Locks.{lock_excludes, lock_waits}

abbrev key : Text
key = text "/var/lib/drasl/skin/steve.png"

-- Where the goroutine `i` has called `Lock` with the key, in the state `s`.
abbrev called : ℕ → System → System
called i s = record {
  keyed_mutex = (load_or_store key s.keyed_mutex).1;
  goroutines = changed_at s.goroutines i (waiting key (load_or_store key s.keyed_mutex).0);
}

abbrev both_called : System
both_called = called 1 (called 0 fresh)

abbrev locked : System
locked = record {
  keyed_mutex = lock 0 both_called.keyed_mutex;
  goroutines = changed_at both_called.goroutines 0 (holding key 0);
}

first_waits : both_called.goroutines 0 ≡ waiting key 0
unfolding load_or_store store_unless load
first_waits = refl

locked-Reach : Reach locked
unfolding load_or_store store_unless load text_beq text
locked-Reach =
    later (later (later start (pick 0 (call key))) (pick 1 (call key)))
      (pick 0 (acquire {key = key} {mutex = 0} refl))

lock_excludes_example : ◌≡◌ {A = ℕ} 0 0
lock_excludes_example = lock_excludes 0 0 key 0 0 locked-Reach refl refl

second_waits : locked.goroutines 1 ≡ waiting key 0
unfolding load_or_store store_unless load text_beq text
second_waits = refl

lock_waits_example :
    Step locked (record {
      keyed_mutex = lock 0 locked.keyed_mutex;
      goroutines = changed_at locked.goroutines 1 (holding key 0);
    })
    ⊎ ((j : ℕ) × (locked.goroutines j ≡ holding key 0))
lock_waits_example = lock_waits 1 key 0 locked-Reach second_waits
