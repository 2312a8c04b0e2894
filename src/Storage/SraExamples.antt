-- ===== src/Storage/SraExamples.antt =====
-- The theorems on strong release acquire at concrete states.
use weak_memory_models_simul.Prelude.{
  ◌≤◌, String, List, ◌∷◌, ◌≡◌, refl, arith, nat_eq, string_eq, eq_iff,
}
use weak_memory_models_simul.Prelude.Result.{ok}
use weak_memory_models_simul.Prelude.Int.{pos}
use weak_memory_models_simul.Prelude.Map.{lookup, put, nat_less, string_less}
use weak_memory_models_simul.Lang.{release, acquire, relaxed}
use weak_memory_models_simul.Storage.Sra
use weak_memory_models_simul.Storage.Sra.{Sra, sra}
use weak_memory_models_simul.Storage.Sra.Invariant
use weak_memory_models_simul.Storage.Sra.Writes.{written, written-IsValid, write-eq-written}
use weak_memory_models_simul.Storage.Sra.Visibility
use weak_memory_models_simul.Storage.Sra.Transitions

empty-IsValid : Invariant.IsValid sra.create
unfolding lookup
empty-IsValid = record {
  stamped = tt;
  complete = λ x n p q. absurd (omega arith);
  reached = λ t. tt;
}

-- Thread 1 has written 5 to x, and then 1 to the flag y with release.
abbrev data_written : Sra
data_written = written 1 "x" (pos 5) relaxed sra.create

abbrev flag_written : Sra
flag_written = written 1 "y" (pos 1) release data_written

data_written-IsValid : Invariant.IsValid data_written
data_written-IsValid = written-IsValid 1 "x" (pos 5) relaxed sra.create empty-IsValid

flag_written-IsValid : Invariant.IsValid flag_written
flag_written-IsValid = written-IsValid 1 "y" (pos 1) release data_written data_written-IsValid

-- Thread 2 has moved on to the flag.
abbrev at_flag : Sra
at_flag = Sra.increase_location_local_timestamp 2 "y" flag_written

write-IsValid_and_read_example :
    (s' : Sra) × (Sra.write 2 "x" (pos 6) relaxed flag_written ≡ ok s')
    × Invariant.IsValid s'
    × ((Sra.read 2 "x" relaxed s').0 ≡ pos 6)
write-IsValid_and_read_example =
    Visibility.write-IsValid_and_read 2 "x" "x" (pos 6) relaxed relaxed flag_written
      flag_written-IsValid

read_monotone_example :
    (Sra.get_timestamp "x" (Sra.thread_view 2 at_flag)
      ≤ Sra.get_timestamp "x" (Sra.thread_view 2 (Sra.read 2 "y" acquire at_flag).1))
    × ((Sra.read 2 "y" acquire at_flag).1.memory ≡ at_flag.memory)
read_monotone_example = Visibility.read_monotone 2 2 "y" "x" acquire at_flag

eps_transitions_exist_example :
    (x : String) × (xs : List String) × (Transitions.behind
        (Sra.thread_view 2 (Sra.prepare_thread 2 flag_written))
        (Sra.prepare_thread 2 flag_written).location_timestamps
      ≡ x ∷ xs)
    × (Sra.get_eps_transitions 2 (Sra.prepare_thread 2 flag_written)
        ≡ ok (
            Sra.increase_location_local_timestamp 2 x (Sra.prepare_thread 2 flag_written)
            ∷ Sra.increase_each 2 xs (Sra.prepare_thread 2 flag_written)))
eps_transitions_exist_example =
    Transitions.eps_transitions_exist 2 (Sra.prepare_thread 2 flag_written)
      (unfold Sra.has_eps_transitions Sra.prepare_thread Sra.set_timestamp lookup put in refl)

flag_reached :
    Sra.get_timestamp "y" (Sra.thread_view 2 at_flag) ≡ Sra.max_timestamp "y" flag_written
unfolding Sra.increase_location_local_timestamp Sra.set_timestamp lookup put
flag_reached = refl

message_passing_example :
    ((Sra.read 2 "y" acquire at_flag).0 ≡ pos 1)
    × ((Sra.read 2 "x" relaxed (Sra.read 2 "y" acquire at_flag).1).0 ≡ pos 5)
message_passing_example =
    Visibility.message_passing 1 2 "x" "y" (pos 5) (pos 1) relaxed release acquire relaxed
      sra.create data_written flag_written at_flag empty-IsValid
      (λ e. ground (arith, eq_iff "x" "y")) refl refl
      (write-eq-written 1 "x" (pos 5) relaxed sra.create)
      (write-eq-written 1 "y" (pos 1) release data_written)
      (Invariant.increase-IsValid 2 "y" flag_written flag_written-IsValid)
      (Transitions.increase_one 2 2 "y" "y" flag_written).2
      (λ z. (Transitions.increase_one 2 2 "y" z flag_written).1) flag_reached
