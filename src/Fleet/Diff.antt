-- ===== src/Fleet/Diff.antt =====
-- apply.py: how many jobs `compute_diff` starts and stops.
use open_tela.Prelude.{
  ℕ, zero, suc, ◌+◌, ◌-◌, ◌≤◌, ◌≡◌, refl, ap, ◌⊎◌, ◌↔◌, inl, inr, List, [], ◌∷◌, ◌++◌, String,
  arith, ltb, length, take, map, Bool-cases,
}
use open_tela.Prelude.Dict.{Dict}
use open_tela.Fleet.Jobs.{
  Job, Deployment, Action, deploy, cancel, insert_newest, newest_first, repeat, wanted,
  cancellation, excess, found_jobs, entry_actions, compute_diff,
}

-- The numbers of the two actions.
abbrev pub deploys : List Action → ℕ
deploys [] = 0
deploys (deploy c b m p ∷ acts) = 1 + deploys acts
deploys (cancel c b m p i ∷ acts) = deploys acts

abbrev pub cancels : List Action → ℕ
cancels [] = 0
cancels (deploy c b m p ∷ acts) = cancels acts
cancels (cancel c b m p i ∷ acts) = 1 + cancels acts

length-insert_newest : (j : Job) (js : List Job) → length (insert_newest j js) ≡ length js + 1
unfolding insert_newest
length-insert_newest j [] = refl
length-insert_newest j (k ∷ ks) = ground (arith, length-insert_newest j ks)

pub length-newest_first : (js : List Job) → length (newest_first js) ≡ length js
unfolding newest_first
length-newest_first [] = refl
length-newest_first (j ∷ js) =
    omega (arith, length-insert_newest j (newest_first js), length-newest_first js)

length-take : {A : Type 0} (n : ℕ) (xs : List A) → n ≤ length xs → length (take n xs) ≡ n
length-take zero xs h = refl
length-take (suc n) [] h = absurd (omega arith)
length-take (suc n) (x ∷ xs) h = omega (arith, length-take n xs (omega arith))

repeated :
    (n : ℕ) (c b m p : String)
    → (deploys (repeat n (deploy c b m p)) ≡ n) × (cancels (repeat n (deploy c b m p)) ≡ 0)
unfolding repeat
repeated zero c b m p = (refl, refl)
repeated (suc n) c b m p = let (x, y) = repeated n c b m p in (omega arith, y)

cancelled :
    (d : Deployment) (js : List Job)
    → (deploys (map (cancellation d) js) ≡ 0) × (cancels (map (cancellation d) js) ≡ length js)
cancelled d [] = (refl, refl)
cancelled d (j ∷ js) = let (x, y) = cancelled d js in (x, omega arith)

module _ (job_identity : String → String → String → String) where
  -- The actions for an entry bring the number of its jobs to the wanted one: the jobs found and
  -- those started are as many as those wanted and those stopped, and it does not do both.
  pub entry_actions-counts :
      (live : Dict String (List Job)) (d : Deployment)
      → let actions = entry_actions job_identity live d in
        (length (found_jobs job_identity live d) + deploys actions
          ≡ wanted d.replicas + cancels actions)
        × ((deploys actions ≡ 0) ⊎ (cancels actions ≡ 0))
  unfolding entry_actions excess
  entry_actions-counts live d =
      let found = found_jobs job_identity live d in
      let replicas = wanted d.replicas in
      elim (Bool-cases (ltb (length found) replicas)) [
        | inl t ↦
            let (x, y) = repeated (replicas - length found) d.cluster d.backend d.cmd d.preset in
            rw t (ground arith, inr y)
        | inr f ↦ elim (Bool-cases (ltb replicas (length found))) [
          | inl t ↦
              let (x, y) = cancelled d (take (length found - replicas) (newest_first found)) in
              let n =
                length-take (length found - replicas) (newest_first found)
                  (omega (arith, length-newest_first found)) in
              rw (f, t) (ground (arith, x, y, n), inl x)
          | inr g ↦ rw (f, g) (ground arith, inl refl)
        ]
      ]

  -- Every entry has as many jobs as it wants.
  abbrev pub Settled : List Deployment → Dict String (List Job) → Type 0
  Settled [] live = Unit
  Settled (d ∷ ds) live =
      (length (found_jobs job_identity live d) ≡ wanted d.replicas) × Settled ds live

  none_counted : (acts : List Action) → deploys acts ≡ 0 → cancels acts ≡ 0 → acts ≡ []
  none_counted [] x y = refl
  none_counted (deploy c b m p ∷ acts) x y = absurd (omega arith)
  none_counted (cancel c b m p i ∷ acts) x y = absurd (omega arith)

  both_empty : (acts bs : List Action) → acts ++ bs ≡ [] ↔ ((acts ≡ []) × (bs ≡ []))
  both_empty [] bs = (λ h. (refl, h), λ (_, h). h)
  both_empty (a ∷ acts) bs = (λ h. cc, λ h. let e = h.0 in cc)

  entry_actions-empty :
      (live : Dict String (List Job)) (d : Deployment)
      → entry_actions job_identity live d ≡ []
        ↔ length (found_jobs job_identity live d) ≡ wanted d.replicas
  entry_actions-empty live d =
      let (count, one) = entry_actions-counts live d in
      (
        λ h. omega (arith, count, ap deploys h, ap cancels h),
        λ h.
            none_counted (entry_actions job_identity live d) (neither count one h)
              (omega (arith, count, one, h)),
      )
    where
      neither : {n a b w : ℕ} → n + a ≡ w + b → (a ≡ 0) ⊎ (b ≡ 0) → n ≡ w → a ≡ 0
      neither c o h = omega (arith, c, o, h)

  -- `compute_diff` finds nothing to do exactly if every entry has as many jobs as it wants.
  pub compute_diff-empty :
      (ds : List Deployment) (live : Dict String (List Job))
      → compute_diff job_identity ds live ≡ [] ↔ Settled ds live
  unfolding compute_diff
  compute_diff-empty [] live = (λ h. tt, λ h. refl)
  compute_diff-empty (d ∷ ds) live =
      let (split, join) =
        both_empty (entry_actions job_identity live d) (compute_diff job_identity ds live) in
      let (there, back) = entry_actions-empty live d in
      let (there', back') = compute_diff-empty ds live in
      (λ h. let (x, y) = split h in (there x, there' y), λ (x, y). join (back x, back' y))
