-- ===== src/Fleet/Listing.antt =====
-- worker.py: `worker_list`, which reads what `squeue` prints, with the choice of the job script's
-- template and of the proxy. Texts are lists of code points.
use open_tela.Prelude.{
  ℕ, Bool, not, ◌&&◌, List, [], ◌∷◌, length, item, Option, none, some, String, string_eq, ltb,
  nat_beq, if◌then◌else◌, ◌==◌,
}
use open_tela.Prelude.Text.{codes, is_prefix}
use open_tela.Prelude.Sets.{contains}
use open_tela.Auth.Texts.{Text, split, skip_space, is_space}

-- `Job`, as it is read.
pub record ListedJob : Type 0 where
  pub id : Text
  pub name : Text
  pub state : Text
  pub elapsed : Text
  pub time_limit : Text
  pub node : Text

abbrev pub keep_unless_space : ℕ → Text → Text
keep_unless_space c [] = if is_space c then [] else c ∷ []
keep_unless_space c (d ∷ s) = c ∷ d ∷ s

-- `s.rstrip()`
unfoldable pub rstrip : Text → Text
rstrip [] = []
rstrip (c ∷ s) = keep_unless_space c (rstrip s)

-- `s.strip()`
unfoldable pub strip : Text → Text
strip s = rstrip (skip_space s)

-- The fields of a line; a line with fewer than five is skipped.
unfoldable pub parse_line : Text → Option ListedJob
parse_line line =
    let parts = split b'|' line in
    if ltb (length parts) 5
    then none
    else some (record {
      id = strip (item [] parts 0);
      name = strip (item [] parts 1);
      state = strip (item [] parts 2);
      elapsed = strip (item [] parts 3);
      time_limit = strip (item [] parts 4);
      node = if ltb 5 (length parts) then strip (item [] parts 5) else [];
    })

-- `job.name.startswith("opentela-")`
unfoldable pub is_ours : ListedJob → Bool
unfolding is_prefix
is_ours j = is_prefix (codes "opentela-") j.name

abbrev pub keep_ours : Option ListedJob → List ListedJob → List ListedJob
keep_ours none js = js
keep_ours (some j) js = if is_ours j then j ∷ js else js

unfoldable pub parse_lines : List Text → List ListedJob
parse_lines [] = []
parse_lines (line ∷ lines) = keep_ours (parse_line line) (parse_lines lines)

abbrev pub lines_of : Text → List ListedJob
lines_of [] = []
lines_of (c ∷ s) = parse_lines (split b'\n' (c ∷ s))

-- `worker_list`: of the exit code and the output of `squeue`.
unfoldable pub worker_list : ℕ → Text → List ListedJob
worker_list code out = if nat_beq code 0 then lines_of (strip out) else []

-- `select_template`; `none` is the ValueError.
unfoldable pub select_template : String → ℕ → Option String
select_template runtime nodes =
    if runtime == "apptainer"
    then some (if ltb 1 nodes then "apptainer_multi.sh.j2" else "apptainer_single.sh.j2")
    else if runtime == "enroot"
    then some "enroot_single.sh.j2"
    else none

pub record ProxyChains : Type 0 where
  pub enabled : Bool
  pub ssh_key : String
  pub proxy_target : String
  pub socks_port : ℕ
  pub skip_partitions : List String

-- `_effective_proxychains`, for the partition of the preset.
unfoldable pub effective_proxychains : ProxyChains → String → ProxyChains
effective_proxychains pc partition = record {
  enabled = pc.enabled && not (contains partition pc.skip_partitions);
  ssh_key = pc.ssh_key;
  proxy_target = pc.proxy_target;
  socks_port = pc.socks_port;
  skip_partitions = [];
}
