-- ===== src/Rekey/Manager.antt =====
-- What src/internal/protocol/chacha20/rekey/state_machine.go expects of an `EpochManager`, as laws, and
-- what the machine makes of them. The laws speak of the epoch transition that a manager is in.
use tun_go.Base.{
  ℕ, ◌+◌, ◌≡◌, refl, ap, ◌∙◌, inl, inr, true, Bytes, Result, Error, ok, err, subst, max, length,
  ◌≤◌, arith,
}
use tun_go.Rekey.StateMachine.{
  EpochManager, TransitionPhase, phase_idle, phase_staged, phase_retiring, StateMachine,
  start_rekey, retire_previous_epoch_locked, activate_send_epoch, observe_peer_epoch, Call, start,
  activate, observe, step,
}
use tun_go.Rekey.StateMachine.Phases.{
  IsClean, activate_cases, retire_cases, promoted, start_cases, start_staged, activate_staged,
  staging, staged_result, step-IsClean,
}

-- `Idle m e`: the manager sends and receives with epoch `e` only. `Staged m e`: it sends with `e` and
-- also receives with `e + 1`. `Retiring m e`: it sends with `e`, and has not let go of the one before.
pub record Lawful {M : Type 0} (manager : EpochManager M) : Type 1 where
  pub Idle : M → ℕ → Type 0
  pub Staged : M → ℕ → Type 0
  pub Retiring : M → ℕ → Type 0
  pub stage_ok :
      (m : M) (e epoch : ℕ) (c2s s2c : Bytes)
      → Idle m e
      → (manager.stage_epoch m c2s s2c).1 ≡ ok epoch
      → (epoch ≡ e + 1) × Staged (manager.stage_epoch m c2s s2c).0 e
  pub stage_err :
      (m : M) (e : ℕ) (x : Error) (c2s s2c : Bytes)
      → Idle m e
      → (manager.stage_epoch m c2s s2c).1 ≡ err x
      → Idle (manager.stage_epoch m c2s s2c).0 e
  pub promote_staged :
      (m : M) (e : ℕ) → Staged m e → Retiring (manager.promote_send_epoch m (e + 1)) (e + 1)
  pub retire_done :
      (m : M) (e : ℕ)
      → Retiring m e
      → ((manager.retire_previous_epoch m).1 ≡ true) × Idle (manager.retire_previous_epoch m).0 e

module _ {M : Type 0} (manager : EpochManager M) (laws : Lawful manager) where
  abbrev pub AgreesAt : TransitionPhase → StateMachine M → Type 0
  AgreesAt phase_idle c = laws.Idle c.epoch_manager c.current.epoch
  AgreesAt phase_staged c =
      (c.staged.epoch ≡ c.current.epoch + 1) × laws.Staged c.epoch_manager c.current.epoch
  AgreesAt phase_retiring c = laws.Retiring c.epoch_manager c.current.epoch

  -- The machine's phase and epochs are those of the manager.
  pub record Agrees (c : StateMachine M) : Type 0 where
    pub clean : IsClean c
    pub agrees : AgreesAt c.phase c

  retire-Agrees :
      (c : StateMachine M)
      → AgreesAt c.phase c
      → AgreesAt
          (retire_previous_epoch_locked manager c).phase
          (retire_previous_epoch_locked manager c)
  retire-Agrees c v = elim (retire_cases manager c) [
    | inl e ↦ rw e v
    | inr (p, _, e) ↦
        let (done, idle) =
          laws.retire_done c.epoch_manager c.current.epoch
            (subst (λ (q : TransitionPhase). AgreesAt q c) p v) in
        rw (e, done) idle
  ]

  start-Agrees :
      (c : StateMachine M) (c2s s2c : Bytes)
      → Agrees c
      → AgreesAt (start_rekey manager c c2s s2c).0.phase (start_rekey manager c c2s s2c).0
  start-Agrees c c2s s2c v = elim (start_cases manager c c2s s2c v.clean) [
    | inl (_, q) ↦ rw q v.agrees
    | inr (p, _, _, q) ↦ rw q (
        go (manager.stage_epoch c.epoch_manager c2s s2c).1 refl p
          (subst (λ (x : TransitionPhase). AgreesAt x c) p v.agrees))
  ]
    where
      go :
          (r : Result ℕ)
          → (manager.stage_epoch c.epoch_manager c2s s2c).1 ≡ r
          → c.phase ≡ phase_idle
          → laws.Idle c.epoch_manager c.current.epoch
          → AgreesAt
              (staged_result manager c c2s s2c
                ((manager.stage_epoch c.epoch_manager c2s s2c).0, r)).0.phase
              (staged_result manager c c2s s2c
                ((manager.stage_epoch c.epoch_manager c2s s2c).0, r)).0
      go (err x) e p idle = rw p (laws.stage_err c.epoch_manager c.current.epoch x c2s s2c idle e)
      go (ok epoch) e p idle = laws.stage_ok c.epoch_manager c.current.epoch epoch c2s s2c idle e

  activate-Agrees :
      (c : StateMachine M) (epoch : ℕ)
      → AgreesAt c.phase c
      → AgreesAt (activate_send_epoch manager c epoch).phase (activate_send_epoch manager c epoch)
  activate-Agrees c epoch v = elim (activate_cases manager c epoch) [
    | inl e ↦ rw e v
    | inr (p, _, e) ↦
        let (next, staged) = subst (λ (q : TransitionPhase). AgreesAt q c) p v in
        rw e (
          retire-Agrees (promoted manager c)
            (rw next (laws.promote_staged c.epoch_manager c.current.epoch staged)))
  ]

  seen-AgreesAt :
      (p : TransitionPhase) (c : StateMachine M) (epoch : ℕ)
      → AgreesAt p c
      → AgreesAt p (record c { max_observed_peer_epoch = epoch })
  seen-AgreesAt phase_idle c epoch v = v
  seen-AgreesAt phase_staged c epoch v = v
  seen-AgreesAt phase_retiring c epoch v = v

  pub step-Agrees : (c : StateMachine M) (call : Call) → Agrees c → Agrees (step manager c call)
  unfolding step observe_peer_epoch
  step-Agrees c (start c2s s2c) v = record {
    clean = step-IsClean manager c (start c2s s2c) v.clean;
    agrees = start-Agrees c c2s s2c v;
  }
  step-Agrees c (activate epoch) v = record {
    clean = step-IsClean manager c (activate epoch) v.clean;
    agrees = activate-Agrees c epoch v.agrees;
  }
  step-Agrees c (observe epoch) v = record {
    clean = step-IsClean manager c (observe epoch) v.clean;
    agrees =
        retire-Agrees (record c { max_observed_peer_epoch = max c.max_observed_peer_epoch epoch })
          (seen-AgreesAt c.phase c (max c.max_observed_peer_epoch epoch) v.agrees);
  }

  confirmed :
      (c : StateMachine M) (epoch seen : ℕ)
      → c.phase ≡ phase_staged
      → laws.Retiring (manager.promote_send_epoch c.epoch_manager c.staged.epoch) c.staged.epoch
      → epoch ≡ c.staged.epoch
      → epoch ≤ seen
      → ((observe_peer_epoch manager (activate_send_epoch manager c epoch) seen).phase ≡ phase_idle)
        × ((observe_peer_epoch manager (activate_send_epoch manager c epoch) seen).current
            ≡ c.staged)
  unfolding retire_previous_epoch_locked observe_peer_epoch
  confirmed c epoch seen p v e le =
      let (done, _) =
        laws.retire_done (manager.promote_send_epoch c.epoch_manager c.staged.epoch) c.staged.epoch
          v in
      rw (e, activate_staged manager c p) (ground arith)

  -- A whole transition over a manager that obeys the laws: from an idle machine in agreement, if
  -- the manager stages an epoch for two keys of 32 bytes, then it is the next one, and once that
  -- epoch is activated and it or a later one is observed from the peer, the machine is idle again
  -- with the new keys as the current ones, and in agreement.
  pub transition_completes :
      (c : StateMachine M) (c2s s2c : Bytes) (epoch seen : ℕ)
      → Agrees c
      → c.phase ≡ phase_idle
      → length c2s ≡ 32
      → length s2c ≡ 32
      → (manager.stage_epoch c.epoch_manager c2s s2c).1 ≡ ok epoch
      → epoch ≤ seen
      → (c' : StateMachine M) × (observe_peer_epoch manager
            (activate_send_epoch manager (start_rekey manager c c2s s2c).0 epoch)
            seen
          ≡ c')
        × (epoch ≡ c.current.epoch + 1)
        × (c'.phase ≡ phase_idle)
        × (c'.current ≡ record { c2s = c2s; s2c = s2c; epoch = epoch })
        × Agrees c'
  transition_completes c c2s s2c epoch seen v p k l e later =
      let idle : laws.Idle c.epoch_manager c.current.epoch =
        subst (λ (q : TransitionPhase). AgreesAt q c) p v.agrees in
      let (next, staged) = laws.stage_ok c.epoch_manager c.current.epoch epoch c2s s2c idle e in
      let m : M = (manager.stage_epoch c.epoch_manager c2s s2c).0 in
      let s : StateMachine M = staging manager c m c2s s2c epoch in
      let started : start_rekey manager c c2s s2c ≡ (s, ok epoch) =
        start_staged manager c c2s s2c k l p v.clean
        ∙ ap (λ (r : Result ℕ). staged_result manager c c2s s2c (m, r)) e in
      let retiring : laws.Retiring (manager.promote_send_epoch m epoch) epoch =
        rw next (laws.promote_staged m c.current.epoch staged) in
      let (rests, made) = confirmed s epoch seen refl retiring refl later in
      let finished : StateMachine M =
        observe_peer_epoch manager (activate_send_epoch manager s epoch) seen in
      let first : StateMachine M = (start_rekey manager c c2s s2c).0 in
      let whole : Agrees
          (observe_peer_epoch manager (activate_send_epoch manager first epoch) seen) =
        unfold step in
        step-Agrees (activate_send_epoch manager first epoch) (observe seen)
          (step-Agrees first (activate epoch) (step-Agrees c (start c2s s2c) v)) in
      (finished, rw started refl, next, rests, made, rw started at whole)
