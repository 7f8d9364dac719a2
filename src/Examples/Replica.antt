-- ===== src/Examples/Replica.antt =====
-- A replica with one committed command, and the bounds of an election timeout.
use raft_thesis.Base.{String, arith, drop, inl, none, refl, some, take, ℕ, ◌<◌, ◌≡◌}
use raft_thesis.Examples.{sample-IsSound, sample_env, sample_node}
use raft_thesis.Kv.{CommandCodec, kv_key_not_found, machine_get}
use raft_thesis.Kv.Machine.{memory_store}
use raft_thesis.Kv.Replica.{answer_of, applier_round-last_write, last_write, memory_machine}
use raft_thesis.Raft.Applier.{applier_round}
use raft_thesis.Raft.Applier.Order.{commands}
use raft_thesis.Raft.Election.Timing.{IsTimed, reset_election_timer-IsTimed}
use raft_thesis.Raft.Node.{Raft, reset_election_timer}
use raft_thesis.Raft.Types.{encode_failed}
use raft_thesis.Storage.{MemoryStore, new_memory_store}

abbrev one_put : CommandCodec
one_put = record {
  marshal = λ c. none;
  unmarshal = λ raw. some (record { type = "PUT"; key = "a"; value = "1" });
}

applier_round-last_write_example :
    (f : Raft) × (t : MemoryStore) × (applier_round
        (some (memory_machine one_put (λ e. encode_failed)))
        sample_node
        new_memory_store
      ≡ some (f, t))
    × ((key : String)
        → machine_get one_put memory_store key t
          ≡ answer_of one_put
              (last_write one_put key
                (commands (take sample_node.commit_index (drop 1 sample_node.log))))
              (inl kv_key_not_found))
applier_round-last_write_example =
    applier_round-last_write one_put (λ e. encode_failed) sample_node new_memory_store
      sample-IsSound refl

half_below : (n : ℕ) → 0 < n → sample_env.int64_n n < n
half_below n h = omega arith

reset_election_timer-IsTimed_example :
    (f : Raft) × (reset_election_timer sample_env sample_node ≡ some f)
    × IsTimed sample_env.now sample_node f
reset_election_timer-IsTimed_example =
    reset_election_timer-IsTimed sample_env sample_node half_below (omega arith)
