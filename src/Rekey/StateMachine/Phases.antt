-- ===== src/Rekey/StateMachine/Phases.antt =====
-- The control plane by itself, over any epoch manager.
use tun_go.Base.{
  ℕ, ◌≡◌, ◌≢◌, refl, ap, ◌∙◌, ◌⊎◌, inl, inr, [], ◌∷◌, ◌++◌, false, if◌then◌else◌, Bytes, length,
  replicate, length-append, length-take, copy_at, copy_at-fills, Result, Error, ok, err, arith, ◌≤◌,
  ℕ_discrete, dec_le, bad_key_size, rekey_in_progress,
}
use tun_go.Core.{zero_bytes}
use tun_go.Rekey.StateMachine.{
  EpochManager, TransitionPhase, phase_idle, phase_staged, phase_retiring, StateMachine,
  new_state_machine, start_rekey, activate_staged_locked, clear_staged_locked, activate_send_epoch,
  retire_previous_epoch_locked, observe_peer_epoch, Call, start, activate, observe, step,
  resize_key, is_idle, is_retiring,
}

zero_bytes_lem : (b : Bytes) → zero_bytes b ≡ replicate (length b) 0
unfolding zero_bytes
zero_bytes_lem [] = refl
zero_bytes_lem (x ∷ b) = ap (◌∷◌ 0) (zero_bytes_lem b)

length-resize_key : (key : Bytes) → length (resize_key key) ≡ 32
unfolding resize_key
length-resize_key key =
    omega (arith, length-take 32 (key ++ replicate 32 0), length-append key (replicate 32 0))

-- Whatever keys stood there, 32 zeros are left.
wiped : (key : Bytes) → zero_bytes (resize_key key) ≡ replicate 32 0
wiped key = zero_bytes_lem (resize_key key) ∙ ap (λ (n : ℕ). replicate n 0) (length-resize_key key)

-- A key of 32 bytes copied over a buffer of 32 bytes.
copies : (key buf : Bytes) → length key ≡ 32 → length buf ≡ 32 → copy_at 0 key buf ≡ key
copies key buf k b = copy_at-fills 0 key buf (omega arith)

module _ {M : Type 0} where
  -- The staged buffers keep their size, and hold keys only while an epoch is staged.
  pub record IsClean (c : StateMachine M) : Type 0 where
    pub c2s_size : length c.staged.c2s ≡ 32
    pub s2c_size : length c.staged.s2c ≡ 32
    pub wiped_c2s : c.phase ≢ phase_staged → c.staged.c2s ≡ replicate 32 0
    pub wiped_s2c : c.phase ≢ phase_staged → c.staged.s2c ≡ replicate 32 0

  pub new_state_machine-IsClean : (m : M) (c2s s2c : Bytes) → IsClean (new_state_machine m c2s s2c)
  unfolding new_state_machine
  new_state_machine-IsClean m c2s s2c = record {
    c2s_size = refl;
    s2c_size = refl;
    wiped_c2s = λ _. refl;
    wiped_s2c = λ _. refl;
  }

module _ {M : Type 0} (manager : EpochManager M) where
  retire-IsClean :
      (c : StateMachine M)
      → c.phase ≢ phase_staged
      → IsClean c
      → IsClean (retire_previous_epoch_locked manager c)
  unfolding retire_previous_epoch_locked
  retire-IsClean c not_staged v = ground arith

  -- The machine with the staged keys made current, before the retirement is tried.
  abbrev pub promoted : StateMachine M → StateMachine M
  promoted c = record {
    epoch_manager = manager.promote_send_epoch c.epoch_manager c.staged.epoch;
    current = c.staged;
    staged = record { c2s = replicate 32 0; s2c = replicate 32 0; epoch = c.current.epoch };
    max_observed_peer_epoch = c.max_observed_peer_epoch;
    phase = phase_retiring;
  }

  -- `ActivateSendEpoch` acts on the staged epoch in the staged phase only.
  pub activate_staged :
      (c : StateMachine M)
      → c.phase ≡ phase_staged
      → activate_send_epoch manager c c.staged.epoch
        ≡ retire_previous_epoch_locked manager (promoted c)
  unfolding activate_send_epoch activate_staged_locked clear_staged_locked
  activate_staged c e = ground (arith, wiped c.current.c2s, wiped c.current.s2c)

  pub activate_ignored :
      (c : StateMachine M) (epoch : ℕ)
      → (c.phase ≢ phase_staged) ⊎ (epoch ≢ c.staged.epoch)
      → activate_send_epoch manager c epoch ≡ c
  unfolding activate_send_epoch activate_staged_locked
  activate_ignored c epoch other = ground arith

  phase_dec : (p : TransitionPhase) → (p ≡ phase_staged) ⊎ (p ≢ phase_staged)
  phase_dec phase_idle = inr (λ e. cc)
  phase_dec phase_staged = inl refl
  phase_dec phase_retiring = inr (λ e. cc)

  pub activate_cases :
      (c : StateMachine M) (epoch : ℕ)
      → (activate_send_epoch manager c epoch ≡ c)
        ⊎ ((c.phase ≡ phase_staged)
            × (epoch ≡ c.staged.epoch)
            × (activate_send_epoch manager c epoch
                ≡ retire_previous_epoch_locked manager (promoted c)))
  activate_cases c epoch = elim (phase_dec c.phase) [
    | inr p ↦ inl (activate_ignored c epoch (inl p))
    | inl p ↦ elim (ℕ_discrete epoch c.staged.epoch) [
      | no q ↦ inl (activate_ignored c epoch (inr q))
      | yes q ↦ inr (p, q, rw q (activate_staged c p))
    ]
  ]

  pub promoted-IsClean : (c : StateMachine M) → IsClean (promoted c)
  promoted-IsClean c = record {
    c2s_size = refl;
    s2c_size = refl;
    wiped_c2s = λ _. refl;
    wiped_s2c = λ _. refl;
  }

  activate-IsClean :
      (c : StateMachine M) (epoch : ℕ) → IsClean c → IsClean (activate_send_epoch manager c epoch)
  activate-IsClean c epoch v = elim (activate_cases c epoch) [
    | inl e ↦ rw e v
    | inr (_, _, e) ↦ rw e (retire-IsClean (promoted c) (λ p. cc) (promoted-IsClean c))
  ]

  three_phases : (p : TransitionPhase) → (p ≡ phase_retiring) ⊎ (is_retiring p ≡ false)
  three_phases phase_idle = inr refl
  three_phases phase_staged = inr refl
  three_phases phase_retiring = inl refl

  pub retire_cases :
      (c : StateMachine M)
      → (retire_previous_epoch_locked manager c ≡ c)
        ⊎ ((c.phase ≡ phase_retiring)
            × (c.current.epoch ≤ c.max_observed_peer_epoch)
            × (retire_previous_epoch_locked manager c ≡ record c {
              epoch_manager = (manager.retire_previous_epoch c.epoch_manager).0;
              phase =
                  if (manager.retire_previous_epoch c.epoch_manager).1
                  then phase_idle
                  else phase_retiring;
            }))
  unfolding retire_previous_epoch_locked
  retire_cases c = elim (three_phases c.phase) [
    | inr p ↦ inl (ground arith)
    | inl p ↦ elim (dec_le c.current.epoch c.max_observed_peer_epoch) [
      | yes q ↦ inr (p, q, ground arith)
      | no q ↦ inl (ground arith)
    ]
  ]

  idle_dec : (p : TransitionPhase) → (p ≡ phase_idle) ⊎ (is_idle p ≡ false)
  idle_dec phase_idle = inl refl
  idle_dec phase_staged = inr refl
  idle_dec phase_retiring = inr refl

  -- The machine with an epoch staged.
  abbrev pub staging : StateMachine M → M → Bytes → Bytes → ℕ → StateMachine M
  staging c m c2s s2c epoch = record c {
    epoch_manager = m;
    staged = record { c2s = c2s; s2c = s2c; epoch = epoch };
    phase = phase_staged;
  }

  abbrev pub staged_result :
      StateMachine M → Bytes → Bytes → M × Result ℕ → StateMachine M × Result ℕ
  staged_result c c2s s2c (m, err e) = (record c { epoch_manager = m }, err e)
  staged_result c c2s s2c (m, ok epoch) = (staging c m c2s s2c epoch, ok epoch)

  pub start_staged :
      (c : StateMachine M) (c2s s2c : Bytes)
      → length c2s ≡ 32
      → length s2c ≡ 32
      → c.phase ≡ phase_idle
      → IsClean c
      → start_rekey manager c c2s s2c
        ≡ staged_result c c2s s2c (manager.stage_epoch c.epoch_manager c2s s2c)
  unfolding start_rekey
  start_staged c c2s s2c a b p v = go (manager.stage_epoch c.epoch_manager c2s s2c) refl
    where
      go :
          (r : M × Result ℕ)
          → manager.stage_epoch c.epoch_manager c2s s2c ≡ r
          → start_rekey manager c c2s s2c ≡ staged_result c c2s s2c r
      go (m, err e) q = ground (arith, a, b, p)
      go (m, ok epoch) q = ground (
        arith,
        a,
        b,
        p,
        copies c2s c.staged.c2s a v.c2s_size,
        copies s2c c.staged.s2c b v.s2c_size,
      )

  -- `StartRekey` refuses, and changes nothing, or the epoch manager decides.
  pub start_cases :
      (c : StateMachine M) (c2s s2c : Bytes)
      → IsClean c
      → ((e : Error) × (start_rekey manager c c2s s2c ≡ (c, err e)))
        ⊎ ((c.phase ≡ phase_idle)
            × (length c2s ≡ 32)
            × (length s2c ≡ 32)
            × (start_rekey manager c c2s s2c
                ≡ staged_result c c2s s2c (manager.stage_epoch c.epoch_manager c2s s2c)))
  unfolding start_rekey
  start_cases c c2s s2c v = elim (ℕ_discrete (length c2s) 32) [
    | no n ↦ inl (bad_key_size, ground arith)
    | yes a ↦ elim (ℕ_discrete (length s2c) 32) [
      | no n ↦ inl (bad_key_size, ground arith)
      | yes b ↦ elim (idle_dec c.phase) [
        | inr p ↦ inl (rekey_in_progress, ground arith)
        | inl p ↦ inr (p, a, b, start_staged c c2s s2c a b p v)
      ]
    ]
  ]

  pub staged_result-IsClean :
      (c : StateMachine M) (c2s s2c : Bytes) (r : M × Result ℕ)
      → length c2s ≡ 32
      → length s2c ≡ 32
      → IsClean c
      → IsClean (staged_result c c2s s2c r).0
  staged_result-IsClean c c2s s2c (m, err e) a b v = record {
    c2s_size = v.c2s_size;
    s2c_size = v.s2c_size;
    wiped_c2s = v.wiped_c2s;
    wiped_s2c = v.wiped_s2c;
  }
  staged_result-IsClean c c2s s2c (m, ok epoch) a b v = record {
    c2s_size = a;
    s2c_size = b;
    wiped_c2s = λ p. absurd (p refl);
    wiped_s2c = λ p. absurd (p refl);
  }

  start-IsClean :
      (c : StateMachine M) (c2s s2c : Bytes) → IsClean c → IsClean (start_rekey manager c c2s s2c).0
  start-IsClean c c2s s2c v = elim (start_cases c c2s s2c v) [
    | inl (e, q) ↦ rw q v
    | inr (_, a, b, q) ↦
        rw q (staged_result-IsClean c c2s s2c (manager.stage_epoch c.epoch_manager c2s s2c) a b v)
  ]

  observe-IsClean :
      (c : StateMachine M) (epoch : ℕ) → IsClean c → IsClean (observe_peer_epoch manager c epoch)
  unfolding observe_peer_epoch retire_previous_epoch_locked
  observe-IsClean c epoch v = ground arith

  -- Every call keeps the staged buffers at 32 bytes each, and all zero outside the staged phase.
  pub step-IsClean : (c : StateMachine M) (call : Call) → IsClean c → IsClean (step manager c call)
  unfolding step
  step-IsClean c (start c2s s2c) v = start-IsClean c c2s s2c v
  step-IsClean c (activate epoch) v = activate-IsClean c epoch v
  step-IsClean c (observe epoch) v = observe-IsClean c epoch v
