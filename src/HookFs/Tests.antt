-- ===== src/HookFs/Tests.antt =====
-- A fault on reads below /data, and the theorems at that fault.
use chaosblade_operator.Base.{ℕ, ◌+◌, String, ◌≡◌, refl, true, false, Option, none, some, [], ◌∷◌}
use chaosblade_operator.HookFs.Defs.{
  Runtime, InjectMessage, Cache, load, recover_handler, covers, do_inject_fault,
}
use chaosblade_operator.HookFs.Faults.{IsIntn, do_inject_fault-recover_handler}

-- A random source that always draws 0, and a clock that counts the milliseconds.
abbrev clock : Runtime ℕ
clock = record { intn = λ n w. (0, w); sleep = λ n w. w + n }

clock-IsIntn : IsIntn clock
clock-IsIntn = λ n w h. h

abbrev fault : InjectMessage
fault = record {
  methods = "read" ∷ "open" ∷ [];
  path = "/data/db";
  delay = 5;
  percent = 0;
  random = false;
  errno = 28;
}

abbrev decode : String → Option InjectMessage
decode body = some fault

abbrev faulty : Cache
faulty = ("open", fault) ∷ ("read", fault) ∷ []

-- The method "open" has a hook and is not recovered.
open_survives : load (recover_handler faulty) "open" ≡ some fault
unfolding recover_handler load
open_survives = refl

do_inject_fault-recover_handler_example :
    do_inject_fault clock "/data" (recover_handler faulty) "db/x" "read" 100 ≡ (none, 100)
do_inject_fault-recover_handler_example =
    do_inject_fault-recover_handler clock "/data" faulty "db/x" "read" 100

read_loaded : load faulty "read" ≡ some fault
unfolding load
read_loaded = refl

covered : covers "/data" "db/x" "/data/db" ≡ true
unfolding covers
covered = refl
