-- ===== src/Fleet/Polling.antt =====
-- relay.py: which round of the poll ends `relay_start`, and when `relay_ensure` leaves a relay alone.
use open_tela.Prelude.{
  ==_cases, nat_eq, ℕ, zero, suc, ◌+◌, ◌<◌, ◌≡◌, refl, ap, ◌∙◌, Bool-cases, true, false, String,
  none, some, Result, ok, raised, inl, inr, arith, ◌⊎◌,
}
use open_tela.Fleet.Relay.{
  find_process, ask, RelayConfig, RelayStatus, running, stopped, degraded, Command, Reply,
  relay_status, relay_ensure, start_unless, show_log, poll_once, poll, start_process, start_result,
  relay_start, after_rounds, is_ready,
}

module _ {ℓ} {W : Type ℓ} (run : Command → W → Reply × W) (sleep : W → W) (cfg : RelayConfig) where
  -- The first `n` rounds from `w` on have no answer.
  abbrev pub Silent : ℕ → W → Type 0
  Silent n w = (j : ℕ) → j < n → is_ready run sleep cfg j w ≡ false

  -- Round `k` is the first of the `n` rounds that has an answer.
  abbrev pub FirstReady : ℕ → ℕ → W → Type 0
  FirstReady n k w = (k < n) × (is_ready run sleep cfg k w ≡ true) × Silent k w

  Silent-suc :
      (n : ℕ) (w : W)
      → is_ready run sleep cfg 0 w ≡ false
      → Silent n ((poll_once run sleep cfg w).1)
      → Silent (suc n) w
  unfolding is_ready after_rounds
  Silent-suc n w h s zero l = h
  Silent-suc n w h s (suc j) l = s j (omega arith)

  poll-First :
      (n i : ℕ) (w : W)
      → ((k : ℕ) × FirstReady n k w
          × (poll run sleep cfg n i w ≡ (some (i + k + 1), after_rounds run sleep cfg (suc k) w)))
        ⊎ (Silent n w × (poll run sleep cfg n i w ≡ (none, after_rounds run sleep cfg n w)))
  unfolding poll after_rounds is_ready
  poll-First zero i w = inr (λ j l. grind arith, refl)
  poll-First (suc n) i w = elim (Bool-cases (is_ready run sleep cfg 0 w)) [
    | inl h ↦ inl (
      0,
      (omega arith, h, λ j l. grind arith),
      rw h (ap (λ t. (some t, after_rounds run sleep cfg 1 w)) (omega arith)),
    )
    | inr h ↦ elim (poll-First n (suc i) ((poll_once run sleep cfg w).1)) [
      | inl (k, (l, r, s), e) ↦ inl (
        suc k,
        (omega arith, r, Silent-suc k w h s),
        rw h (e ∙ ap (λ t. (some t, after_rounds run sleep cfg (suc (suc k)) w)) (omega arith)),
      )
      | inr (s, e) ↦ inr (Silent-suc n w h s, rw h e)
    ]
  ]

  abbrev started : W → W
  started w = start_process run sleep cfg w

  -- How `relay_start` on the host `w` ends: with the seconds of the first round that had an answer,
  -- or, after 30 silent rounds, with the log.
  abbrev pub StartOutcome : W → Result String ℕ × W → Type ℓ
  StartOutcome w r =
      ((k : ℕ) × FirstReady 30 k (started w)
        × (r ≡ (ok (k + 1), after_rounds run sleep cfg (suc k) (started w))))
      ⊎ (Silent 30 (started w)
          × ((log : Reply × W) × (log ≡ run show_log (after_rounds run sleep cfg 30 (started w)))
              × (r ≡ (raised (log.0).output, log.1))))

  relay_start-Outcome : (w : W) → StartOutcome w (relay_start run sleep cfg w)
  unfolding relay_start start_result
  relay_start-Outcome w = elim (poll-First 30 0 (started w)) [
    | inl (k, f, e) ↦ inl (
      k,
      f,
      rw e (ap (λ t. (ok t, after_rounds run sleep cfg (suc k) (started w))) (omega arith)),
    )
    | inr (s, e) ↦
        inr (s, (run show_log (after_rounds run sleep cfg 30 (started w)), refl, rw e refl))
  ]

  start_unless-Outcome :
      (s : RelayStatus × W)
      → ((s.0 ≡ running) × (start_unless run sleep cfg s ≡ (ok 0, s.1)))
        ⊎ ((s.0 ≡ running → ⊥) × StartOutcome (s.1) (start_unless run sleep cfg s))
  start_unless-Outcome (running, w) = inl (refl, refl)
  start_unless-Outcome (stopped, w) = inr (λ h. cc, relay_start-Outcome w)
  start_unless-Outcome (degraded, w) = inr (λ h. cc, relay_start-Outcome w)

  -- The process of the relay is found, and its port answers.
  abbrev pub IsHealthy : W → Type 0
  IsHealthy w =
      let found = run (find_process cfg.binary_remote_path) w in
      (found.0.code ≡ 0) × ((run (ask 3 cfg.relay_port) (found.1)).0.code ≡ 0)

  relay_status-IsHealthy :
      (w : W)
      → (((relay_status run sleep cfg w).0 ≡ running) × IsHealthy w)
        ⊎ (((relay_status run sleep cfg w).0 ≡ running → ⊥) × (IsHealthy w → ⊥))
  unfolding relay_status
  relay_status-IsHealthy w =
      let found = run (find_process cfg.binary_remote_path) w in
      let asked = run (ask 3 cfg.relay_port) (found.1) in
      elim (==_cases found.0.code 0) [
        | inr (f, p) ↦ inr (rw f (λ h. cc), λ h. p h.0)
        | inl (t, q) ↦ elim (==_cases asked.0.code 0) [
          | inl (t', q') ↦ inl (rw (t, t') refl, (q, q'))
          | inr (f', p') ↦ inr (rw (t, f') (λ h. cc), λ h. p' h.1)
        ]
      ]

  -- `relay_ensure` on the host `w`: skipped, or the relay runs and is left alone, or it is started.
  abbrev pub EnsureOutcome : W → Result String ℕ × W → Type ℓ
  EnsureOutcome w r =
      ((cfg.relay_skip ≡ true) × (r ≡ (ok 0, w)))
      ⊎ (((cfg.relay_skip ≡ false)
            × ((relay_status run sleep cfg w).0 ≡ running)
            × IsHealthy w
            × (r ≡ (ok 0, (relay_status run sleep cfg w).1)))
          ⊎ ((cfg.relay_skip ≡ false)
              × ((relay_status run sleep cfg w).0 ≡ running → ⊥)
              × (IsHealthy w → ⊥)
              × StartOutcome ((relay_status run sleep cfg w).1) r))

  -- Every call of `relay_ensure` ends in one of three ways. With `relay_skip` it does nothing. If the
  -- relay runs, which is that its process is found and its port answers, it only asks for the status.
  -- Otherwise it starts the relay, and ends with the seconds
  -- of the first of 30 rounds that had an answer or, if all 30 were silent, with the log as the error.
  pub relay_ensure-Outcome : (w : W) → EnsureOutcome w (relay_ensure run sleep cfg w)
  unfolding relay_ensure
  relay_ensure-Outcome w = elim (Bool-cases cfg.relay_skip) [
    | inl h ↦ inl (h, simp h)
    | inr h ↦ inr (elim (start_unless-Outcome (relay_status run sleep cfg w)) [
      | inl (e, r) ↦ elim (relay_status-IsHealthy w) [
        | inl (_, well) ↦ inl (h, e, well, simp h r)
        | inr (other, _) ↦ absurd (other e)
      ]
      | inr (e, r) ↦ elim (relay_status-IsHealthy w) [
        | inl (runs, _) ↦ absurd (e runs)
        | inr (_, ill) ↦ inr (h, e, ill, simp h r)
      ]
    ])
  ]
