-- ===== src/Fleet/Examples.antt =====
-- apply.py, worker.py, relay.py: tests, and the theorems applied to one cluster.
use mathlib.Core.List.{Memᴰ}
use open_tela.Prelude.{ℕ, ◌+◌, ◌≤◌, ◌≡◌, refl, ◌⊎◌, ◌↔◌, List, [], ◌∷◌, String, length, sum_by}
use open_tela.Prelude.Dict.{Dict, get}
use open_tela.Simulator.Config.{pos}
use open_tela.Fleet.Jobs.{
  Job, Deployment, cancel, job_number, newest_first, insert_newest, matching, repeat, excess,
  found_jobs, entry_actions, compute_diff,
}
use open_tela.Fleet.Diff.{deploys, cancels, Settled, entry_actions-counts, compute_diff-empty}
use open_tela.Fleet.Newest.{excess-newest}
use open_tela.Prelude.{arith, suc, leb, if◌then◌else◌, true, false, ok}
use open_tela.Prelude.Text.{codes}
use open_tela.Fleet.Listing.{ListedJob, worker_list}
use open_tela.Fleet.Relay.{
  RelayConfig, degraded, Command, make_dir, transfer, find_process, kill_process, clear_home,
  remove_home, launch, ask, show_log, Reply, relay_status, start_process, poll_once, poll,
  start_result, relay_start, relay_ensure,
}
use open_tela.Fleet.Polling.{EnsureOutcome, relay_ensure-Outcome}
use open_tela.Fleet.Reading.{AllPlain, render_all, ours, worker_list-render_all}

abbrev job : String → Job
job id = record {
  id = id;
  name = "opentela-x";
  state = "RUNNING";
  elapsed = "";
  time_limit = "";
  node = "";
}

abbrev name_of : String → String → String → String
name_of backend cmd preset = "opentela-x"

abbrev live : Dict String (List Job)
live = ("c1", job "7" ∷ job "12" ∷ job "9" ∷ []) ∷ []

abbrev one_replica : Deployment
one_replica = record {
  cluster = "c1";
  backend = "vllm";
  cmd = "serve";
  preset = "gpu";
  replicas = pos 1;
}

-- The two newest jobs are stopped.
compute_diff_test :
    compute_diff name_of (one_replica ∷ []) live
    ≡ cancel "c1" "vllm" "serve" "gpu" "12" ∷ cancel "c1" "vllm" "serve" "gpu" "9" ∷ []
unfolding compute_diff entry_actions found_jobs matching excess newest_first insert_newest
    job_number repeat get
compute_diff_test = refl

entry_actions-counts_example :
    let actions = entry_actions name_of live one_replica in
    (length (found_jobs name_of live one_replica) + deploys actions ≡ 1 + cancels actions)
    × ((deploys actions ≡ 0) ⊎ (cancels actions ≡ 0))
entry_actions-counts_example = entry_actions-counts name_of live one_replica

compute_diff-empty_example :
    compute_diff name_of (one_replica ∷ []) live ≡ [] ↔ Settled name_of (one_replica ∷ []) live
compute_diff-empty_example = compute_diff-empty name_of (one_replica ∷ []) live

abbrev found : List Job
found = job "7" ∷ job "12" ∷ job "9" ∷ []

excess-newest_example :
    (kept : List Job) × ((f : Job → ℕ) → sum_by f (excess 1 found) + sum_by f kept ≡ sum_by f found)
    × ((x k : Job) → Memᴰ x (excess 1 found) → Memᴰ k kept → job_number k ≤ job_number x)
excess-newest_example = excess-newest 1 found

abbrev listed : List ListedJob
listed =
    record {
      id = codes "17";
      name = codes "opentela-a";
      state = codes "RUNNING";
      elapsed = codes "1:02";
      time_limit = codes "1:00:00";
      node = codes "nid001";
    }
    ∷ record {
      id = codes "18";
      name = codes "other";
      state = codes "PENDING";
      elapsed = codes "0:00";
      time_limit = codes "10:00";
      node = [];
    }
    ∷ []

listed_plain : AllPlain listed
listed_plain = (
  record {
    id_solid = ground arith;
    name_solid = ground arith;
    state_solid = ground arith;
    elapsed_solid = ground arith;
    time_limit_solid = ground arith;
    node_solid = ground arith;
  },
  (
    record {
      id_solid = ground arith;
      name_solid = ground arith;
      state_solid = ground arith;
      elapsed_solid = ground arith;
      time_limit_solid = ground arith;
      node_solid = tt;
    },
    tt,
  ),
)

worker_list-render_all_example : worker_list 0 (render_all listed) ≡ ours listed
worker_list-render_all_example = worker_list-render_all listed listed_plain

-- A host that answers from second 2 on. Its state is the time.
abbrev reply : ℕ → Reply
reply code = record { output = ""; code = code }

abbrev reply_at : ℕ → Command → Reply
reply_at time make_dir = reply 0
reply_at time (transfer cfg) = reply 0
reply_at time (find_process binary) = reply (if leb 1 time then 0 else 1)
reply_at time (kill_process binary) = reply 0
reply_at time (clear_home home) = reply 0
reply_at time (remove_home home) = reply 0
reply_at time (launch home binary) = reply 0
reply_at time (ask timeout port) = reply (if leb 3 time then 0 else 7)
reply_at time show_log = reply 0

abbrev host : Command → ℕ → Reply × ℕ
host c time = (reply_at time c, time)

abbrev relay_config : RelayConfig
relay_config = record {
  name = "c1";
  binary_remote_path = "~/opentela/otela";
  relay_seed = "0";
  relay_port = "18092";
  relay_tcp_port = "18905";
  relay_udp_port = "18820";
  relay_home_override = "/tmp/relay";
  relay_bootstrap = [];
  relay_skip = false;
  require_signed_binary = false;
  skip_verification = true;
}

relay_ensure_test : relay_ensure host suc relay_config 0 ≡ (ok 2, 3)
unfolding relay_ensure relay_status relay_start start_process start_result poll poll_once
relay_ensure_test = refl

relay_stays_test : relay_ensure host suc relay_config 5 ≡ (ok 0, 5)
unfolding relay_ensure relay_status
relay_stays_test = refl

relay_degraded_test : relay_status host suc relay_config 1 ≡ (degraded, 1)
unfolding relay_status
relay_degraded_test = refl

relay_ensure-Outcome_example :
    EnsureOutcome host suc relay_config 0 (relay_ensure host suc relay_config 0)
relay_ensure-Outcome_example = relay_ensure-Outcome host suc relay_config 0
