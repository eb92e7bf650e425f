-- ===== src/Fleet/Relay.antt =====
-- relay.py: the state of the relay of a cluster, and how it is started and polled. The connection is
-- an argument: what a command answers, and the state it leaves the host in.
use open_tela.Prelude.{
  ℕ, zero, suc, ◌+◌, Bool, List, String, Option, none, some, Result, ok, raised, nat_beq,
  if◌then◌else◌,
}

-- What the module reads of a `ClusterConfig`.
pub record RelayConfig : Type 0 where
  pub name : String
  pub binary_remote_path : String
  pub relay_seed : String
  pub relay_port : String
  pub relay_tcp_port : String
  pub relay_udp_port : String
  pub relay_home_override : String
  pub relay_bootstrap : List String
  pub relay_skip : Bool
  pub require_signed_binary : Bool
  pub skip_verification : Bool

-- `RelayStatus`
pub data RelayStatus : Type 0 where
  running stopped degraded : RelayStatus

-- The commands of the module, by what they are made of; `transfer` is `conn.put_string` of the
-- rendered file, `ask` is `curl` with its timeout in seconds.
pub data Command : Type 0 where
  make_dir : Command
  transfer : RelayConfig → Command
  find_process : (binary : String) → Command
  kill_process : (binary : String) → Command
  clear_home : (home : String) → Command
  remove_home : (home : String) → Command
  launch : (home binary : String) → Command
  ask : (timeout : ℕ) → (port : String) → Command
  show_log : Command

pub record Reply : Type 0 where
  pub output : String
  pub code : ℕ

module _ {ℓ} {W : Type ℓ} (run : Command → W → Reply × W) (sleep : W → W) where
  -- `relay_status`
  unfoldable pub relay_status : RelayConfig → W → RelayStatus × W
  relay_status cfg w =
      let found = run (find_process cfg.binary_remote_path) w in
      let asked = run (ask 3 cfg.relay_port) (found.1) in
      if nat_beq (found.0).code 0
      then (if nat_beq (asked.0).code 0 then running else degraded, asked.1)
      else (stopped, found.1)

  -- The commands of `relay_start` before it polls.
  unfoldable pub start_process : RelayConfig → W → W
  start_process cfg w =
      let made = run make_dir w in
      let put = run (transfer cfg) (made.1) in
      let killed = run (kill_process cfg.binary_remote_path) (put.1) in
      let cleared = run (clear_home cfg.relay_home_override) (sleep (killed.1)) in
      (run (launch cfg.relay_home_override cfg.binary_remote_path) (cleared.1)).1

  -- One round of the poll.
  unfoldable pub poll_once : RelayConfig → W → Reply × W
  poll_once cfg w = run (ask 2 cfg.relay_port) (sleep w)

  -- The loop from round `i` on, with `left` rounds to go: the seconds taken, or `none`.
  unfoldable pub poll : RelayConfig → (left i : ℕ) → W → Option ℕ × W
  unfolding poll_once
  poll cfg zero i w = (none, w)
  poll cfg (suc left) i w =
      let asked = poll_once cfg w in
      let rest = poll cfg left (suc i) (asked.1) in
      if nat_beq (asked.0).code 0 then (some (i + 1), asked.1) else rest

  -- The error carries the last lines of the log.
  unfoldable pub start_result : Option ℕ × W → Result String ℕ × W
  start_result (some seconds, w) = (ok seconds, w)
  start_result (none, w) = let logs = run show_log w in (raised (logs.0).output, logs.1)

  -- `relay_start`: the seconds it took, or the RuntimeError.
  unfoldable pub relay_start : RelayConfig → W → Result String ℕ × W
  unfolding start_process poll start_result
  relay_start cfg w = start_result (poll cfg 30 0 (start_process cfg w))

  -- `relay_stop`
  unfoldable pub relay_stop : RelayConfig → W → W
  relay_stop cfg w =
      let killed = run (kill_process cfg.binary_remote_path) w in
      (run (remove_home cfg.relay_home_override) (killed.1)).1

  abbrev pub start_unless : RelayConfig → RelayStatus × W → Result String ℕ × W
  start_unless cfg (running, w) = (ok 0, w)
  start_unless cfg (stopped, w) = relay_start cfg w
  start_unless cfg (degraded, w) = relay_start cfg w

  -- `relay_ensure`: 0 seconds where nothing is started.
  unfoldable pub relay_ensure : RelayConfig → W → Result String ℕ × W
  relay_ensure cfg w = if cfg.relay_skip then (ok 0, w) else start_unless cfg (relay_status cfg w)

  -- The host after `n` rounds.
  unfoldable pub after_rounds : RelayConfig → ℕ → W → W
  after_rounds cfg zero w = w
  after_rounds cfg (suc n) w = after_rounds cfg n ((poll_once cfg w).1)

  -- Whether the relay answers in round `n`, counted from 0.
  unfoldable pub is_ready : RelayConfig → ℕ → W → Bool
  is_ready cfg n w = nat_beq ((poll_once cfg (after_rounds cfg n w)).0).code 0
