-- ===== src/Locks/Tests.antt =====
-- The mutexes of src/: a thread that starts and stops a service, the worker, and a flush beside them.
use connected_vehicle_platfo.Prelude.{
  IsExclusive, ℕ, zero, suc, update, refl, ◌<◌, ◌⊎◌, some, [], ◌∷◌, arith,
}
use connected_vehicle_platfo.Locks.{
  Mutex, holds, finished, thread, Threads, HasEnded, acquires, Runs, at_start, one_more,
}
use connected_vehicle_platfo.Locks.Methods.{
  mqtt, Manager, manager_mutex, flush_with, Service, flush_queue,
}
use connected_vehicle_platfo.Locks.Progress.{CanStep}
use connected_vehicle_platfo.Locks.Program.{
  starts, stops, flushes, Role, caller, worker, role_code, RoleJoins, IsWorkerOf, no_deadlock,
}

abbrev manager : Manager
manager = record { object = 0; client = some (mqtt 0 0) }

abbrev service : Service
service = record { client = some (mqtt 0 0); manager = some manager; logger = 0 }

-- Thread 0 flushes the queue, thread 1 starts and stops the service, the others are its workers.
abbrev roles : ℕ → Role
roles zero = caller (flushes manager ∷ [])
roles (suc zero) = caller (starts service 2 ∷ stops service 2 ∷ [])
roles (suc (suc j)) = worker service

abbrev three_threads : Threads
three_threads j = thread (role_code (roles j)) []

-- Thread 0 has the queue's mutex.
abbrev flushing : Threads
flushing =
    update three_threads 0 (thread (flush_with manager.client) ((manager_mutex 0, finished) ∷ []))

flush_begins : Runs 3 three_threads flushing
unfolding flush_queue
flush_begins = one_more 0 at_start (omega arith) (acquires (λ j below. refl))

roles_join : (j : ℕ) → RoleJoins (IsWorkerOf 3 roles) (roles j)
roles_join zero = (tt, tt)
roles_join (suc zero) = ((omega arith, tt), ((omega arith, tt), tt))
roles_join (suc (suc j)) = tt

no_deadlock_example :
    ((m : Mutex) → IsExclusive (holds m) 3 flushing)
    × (((j : ℕ) → j < 3 → HasEnded flushing j) ⊎ CanStep 3 flushing)
no_deadlock_example = no_deadlock 3 roles roles_join flush_begins
