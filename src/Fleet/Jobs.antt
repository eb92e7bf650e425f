-- ===== src/Fleet/Jobs.antt =====
-- worker.py, apply.py: the jobs that Slurm lists, and `compute_diff`. The name of a job is a digest of
-- its backend, command and preset; `job_identity` is an argument.
use open_tela.Prelude.{
  ℕ, zero, suc, ◌+◌, ◌-◌, ◌*◌, List, [], ◌∷◌, ◌++◌, Option, none, some, String, string_eq, ◌==◌,
  leb, ltb, length, take, if◌then◌else◌, map,
}
use open_tela.Prelude.Dict.{Dict, get, get_or}
use open_tela.Prelude.Text.{codes}
use open_tela.Simulator.Config.{ℤ, pos, negsuc}
use open_tela.Auth.Texts.{Text, is_digit}

pub record Job : Type 0 where
  pub id : String
  pub name : String
  pub state : String
  pub elapsed : String
  pub time_limit : String
  pub node : String

-- One entry of the fleet file.
pub record Deployment : Type 0 where
  pub cluster : String
  pub backend : String
  pub cmd : String
  pub preset : String
  pub replicas : ℤ

pub data Action : Type 0 where
  deploy : (cluster backend cmd preset : String) → Action
  cancel : (cluster backend cmd preset job_id : String) → Action

-- `s.isdigit()` and `int(s)`: `none` is a text that is not all digits, or empty.
abbrev digits_from : ℕ → Text → Option ℕ
digits_from n [] = some n
digits_from n (c ∷ s) =
    let rest = digits_from (n * 10 + (c - b'0')) s in if is_digit c then rest else none

abbrev number_of : Text → Option ℕ
number_of [] = none
number_of (c ∷ s) = digits_from 0 (c ∷ s)

-- The key of the sort: the job's number, or 0.
unfoldable pub job_number : Job → ℕ
job_number j = get_or 0 (number_of (codes j.id))

-- `sorted(…, key=…, reverse=True)`: equal keys keep their order.
unfoldable pub insert_newest : Job → List Job → List Job
unfolding job_number
insert_newest j [] = j ∷ []
insert_newest j (k ∷ ks) =
    let rest = insert_newest j ks in
    if leb (job_number k) (job_number j) then j ∷ k ∷ ks else k ∷ rest

unfoldable pub newest_first : List Job → List Job
unfolding insert_newest
newest_first [] = []
newest_first (j ∷ js) = insert_newest j (newest_first js)

-- `[j for j in cluster_jobs if j.name == job_name]`
unfoldable pub matching : String → List Job → List Job
matching name [] = []
matching name (j ∷ js) = let rest = matching name js in if j.name == name then j ∷ rest else rest

unfoldable pub repeat {ℓ} : {A : Type ℓ} → ℕ → A → List A
repeat zero a = []
repeat (suc n) a = a ∷ repeat n a

-- A negative number of replicas does what 0 does.
abbrev pub wanted : ℤ → ℕ
wanted (pos n) = n
wanted (negsuc n) = 0

abbrev pub cancellation : Deployment → Job → Action
cancellation d j = cancel d.cluster d.backend d.cmd d.preset j.id

-- The jobs that are too many.
unfoldable pub excess : ℕ → List Job → List Job
unfolding newest_first
excess replicas found = take (length found - replicas) (newest_first found)

module _ (job_identity : String → String → String → String) where
  unfoldable pub found_jobs : Dict String (List Job) → Deployment → List Job
  unfolding matching
  found_jobs live d =
      matching (job_identity d.backend d.cmd d.preset) (get_or [] (get d.cluster live))

  -- The body of the loop of `compute_diff`, for one entry.
  unfoldable pub entry_actions : Dict String (List Job) → Deployment → List Action
  unfolding found_jobs excess repeat
  entry_actions live d =
      let found = found_jobs live d in
      let replicas = wanted d.replicas in
      if ltb (length found) replicas
      then repeat (replicas - length found) (deploy d.cluster d.backend d.cmd d.preset)
      else if ltb replicas (length found)
      then map (cancellation d) (excess replicas found)
      else []

  -- `compute_diff`
  unfoldable pub compute_diff : List Deployment → Dict String (List Job) → List Action
  unfolding entry_actions
  compute_diff [] live = []
  compute_diff (d ∷ ds) live = entry_actions live d ++ compute_diff ds live
