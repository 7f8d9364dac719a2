-- ===== src/Examples/Command.antt =====
-- A process with the flags of a founding member, on a disk that opens and a port that is taken.
use raft_thesis.Base.{
  int_eq, string_eq, List, [], contains, false, if◌then◌else◌, inr, insert, int_beq, keys, lookup,
  none, pos, refl, some, true, ℕ, ◌=?◌, ◌∷◌, ◌≡◌,
}
use raft_thesis.Examples.{sample_env}
use raft_thesis.NodeCommand.{
  Flags, TextOps, build_initial_cluster, default_flags, default_rpc_addr, parse_bootstrap_ids,
  read_part, read_parts,
}
use raft_thesis.NodeCommand.Addresses.{build_initial_cluster-lookup}
use raft_thesis.NodeCommand.Build.{Event, Exit, HostOps, start_and_shut_down}
use raft_thesis.NodeCommand.Founding.{Founders, parse_bootstrap_ids-Founders}
use raft_thesis.NodeCommand.Shutdown.{Ended, start_and_shut_down-Ended}
use raft_thesis.Storage.{FileOps, RecordCodec}

abbrev plain_text : TextOps
plain_text = record {
  trim_space = λ s. s;
  split = λ s. "1" ∷ "2" ∷ "" ∷ "1" ∷ [];
  atoi = λ s. if s =? "1" then some (pos 1) else if s =? "2" then some (pos 2) else none;
  loopback = λ n. "127.0.0.1";
  log_name = λ id. "node-1.kvlog";
  join = λ dir file. file;
}

abbrev founding_flags : Flags
founding_flags = record default_flags {
  id = pos 1;
  addr = "n1:8081";
  bootstrap = "1,2,,1";
  storage = "disk";
}

abbrev no_records : RecordCodec
no_records = record { marshal = λ r. none; unmarshal = λ bytes. none }

abbrev empty_file : FileOps ℕ
empty_file = record {
  open_file = λ path. some 0;
  seek = λ f. some f;
  scan = λ f. ([], true);
  write = λ bytes f. (f, true);
  sync = λ f. (f, true);
  close = λ f. true;
}

abbrev busy_host : HostOps
busy_host = record { mkdir_all = λ dir. true; register_name = true; listen = λ addr. false }

start_and_shut_down-Ended_example :
    (events : List Event) × (exit : Exit) × (start_and_shut_down plain_text no_records empty_file
        busy_host sample_env founding_flags
      ≡ some (events, exit))
    × Ended plain_text no_records empty_file busy_host sample_env founding_flags events exit
start_and_shut_down-Ended_example =
    start_and_shut_down-Ended plain_text no_records empty_file busy_host sample_env founding_flags
      refl

parse_bootstrap_ids-Founders_example : Founders plain_text "1,2,,1" (inr (pos 1 ∷ pos 2 ∷ []))
unfolding parse_bootstrap_ids read_parts read_part int_beq insert keys
parse_bootstrap_ids-Founders_example = parse_bootstrap_ids-Founders plain_text "1,2,,1"

build_initial_cluster-lookup_example :
    lookup (pos 2) (build_initial_cluster plain_text (pos 1) "n1:8081" (pos 1 ∷ pos 2 ∷ []))
    ≡ some "127.0.0.1"
unfolding int_beq contains default_rpc_addr
build_initial_cluster-lookup_example =
    build_initial_cluster-lookup plain_text (pos 1) "n1:8081" (pos 1 ∷ pos 2 ∷ []) (pos 2)
