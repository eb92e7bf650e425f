-- ===== src/Fleet/Newest.antt =====
-- apply.py: which jobs are stopped.
use open_tela.Prelude.{
  ℕ, zero, suc, ◌+◌, ◌-◌, ◌≤◌, ◌≡◌, refl, inl, inr, List, [], ◌∷◌, arith, leb, leb→le, length, take,
  drop, sum_by, Bool-cases,
}
use mathlib.Core.List.{Memᴰ}
use open_tela.Fleet.Jobs.{Job, job_number, insert_newest, newest_first, excess}

-- No later job has a higher number.
abbrev Below : ℕ → List Job → Type 0
Below n [] = Unit
Below n (j ∷ js) = (job_number j ≤ n) × Below n js

abbrev Newest : List Job → Type 0
Newest [] = Unit
Newest (j ∷ js) = Below (job_number j) js × Newest js

Below-higher : (m n : ℕ) (js : List Job) → m ≤ n → Below m js → Below n js
Below-higher m n [] h b = tt
Below-higher m n (j ∷ js) h b = (omega (arith, b.0), Below-higher m n js h b.1)

insert_newest-Below :
    (n : ℕ) (j : Job) (js : List Job) → job_number j ≤ n → Below n js → Below n (insert_newest j js)
unfolding insert_newest
insert_newest-Below n j [] h b = (h, tt)
insert_newest-Below n j (k ∷ ks) h b = elim (Bool-cases (leb (job_number k) (job_number j))) [
  | inl t ↦ rw t (h, b)
  | inr f ↦ rw f (b.0, insert_newest-Below n j ks h b.1)
]

insert_newest-Newest : (j : Job) (js : List Job) → Newest js → Newest (insert_newest j js)
unfolding insert_newest
insert_newest-Newest j [] s = (tt, tt)
insert_newest-Newest j (k ∷ ks) s = elim (Bool-cases (leb (job_number k) (job_number j))) [
  | inl t ↦
      let low = leb→le (job_number k) (job_number j) t in
      rw t ((low, Below-higher (job_number k) (job_number j) ks low s.0), s)
  | inr f ↦
      rw f
        (insert_newest-Below (job_number k) j ks (ground arith) s.0, insert_newest-Newest j ks s.1)
]

newest_first-Newest : (js : List Job) → Newest (newest_first js)
unfolding newest_first
newest_first-Newest [] = tt
newest_first-Newest (j ∷ js) = insert_newest-Newest j (newest_first js) (newest_first-Newest js)

sum_by-insert_newest :
    (f : Job → ℕ) (j : Job) (js : List Job) → sum_by f (insert_newest j js) ≡ f j + sum_by f js
unfolding insert_newest
sum_by-insert_newest f j [] = refl
sum_by-insert_newest f j (k ∷ ks) = ground (arith, sum_by-insert_newest f j ks)

sum_by-newest_first : (f : Job → ℕ) (js : List Job) → sum_by f (newest_first js) ≡ sum_by f js
unfolding newest_first
sum_by-newest_first f [] = refl
sum_by-newest_first f (j ∷ js) =
    omega (arith, sum_by-insert_newest f j (newest_first js), sum_by-newest_first f js)

sum_by-take-drop :
    (f : Job → ℕ) (n : ℕ) (js : List Job)
    → sum_by f (take n js) + sum_by f (drop n js) ≡ sum_by f js
sum_by-take-drop f zero js = omega arith
sum_by-take-drop f (suc n) [] = refl
sum_by-take-drop f (suc n) (j ∷ js) = omega (arith, sum_by-take-drop f n js)

Below-mem : (n : ℕ) (js : List Job) (k : Job) → Below n js → Memᴰ k js → job_number k ≤ n
Below-mem n [] k b m = elim m [ ]
Below-mem n (j ∷ js) k b (Memᴰ.head p) = rw p b.0
Below-mem n (j ∷ js) k b (Memᴰ.tail m) = Below-mem n js k b.1 m

drop_mem : (n : ℕ) (js : List Job) (k : Job) → Memᴰ k (drop n js) → Memᴰ k js
drop_mem zero js k m = m
drop_mem (suc n) [] k m = m
drop_mem (suc n) (j ∷ js) k m = Memᴰ.tail (drop_mem n js k m)

older :
    (n : ℕ) (js : List Job) (x k : Job)
    → Newest js
    → Memᴰ x (take n js)
    → Memᴰ k (drop n js)
    → job_number k ≤ job_number x
older zero js x k s m m' = elim m [ ]
older (suc n) [] x k s m m' = elim m [ ]
older (suc n) (j ∷ js) x k s (Memᴰ.head p) m' =
    rw p (Below-mem (job_number j) js k s.0 (drop_mem n js k m'))
older (suc n) (j ∷ js) x k s (Memᴰ.tail m) m' = older n js x k s.1 m m'

-- For every wanted number: the jobs that are stopped and those that are kept are the jobs that
-- were found, each as often; and no job that is kept has a higher number than one that is stopped.
pub excess-newest :
    (replicas : ℕ) (found : List Job)
    → (kept : List Job) × ((f : Job → ℕ)
        → sum_by f (excess replicas found) + sum_by f kept ≡ sum_by f found)
      × ((x k : Job) → Memᴰ x (excess replicas found) → Memᴰ k kept → job_number k ≤ job_number x)
unfolding excess
excess-newest replicas found =
    let n = length found - replicas in
    (
      drop n (newest_first found),
      λ f. omega (arith, sum_by-take-drop f n (newest_first found), sum_by-newest_first f found),
      λ x k. older n (newest_first found) x k (newest_first-Newest found),
    )
