-- ===== src/Rekey/StateMachine.antt =====
-- src/internal/protocol/chacha20/rekey/state_machine.go. The mutex makes each method one step; a method
-- returns the new machine, whose `epoch_manager` field is the state behind that interface.
pub mod Phases
pub mod OverUdp
pub mod Complete
use tun_go.Base.{
  ℕ, ◌+◌, List, [], ◌∷◌, ◌++◌, Bool, true, false, ◌&&◌, ◌||◌, not, ltb, ◌==◌, if◌then◌else◌, Bytes,
  length, take, replicate, copy_at, max, Result, ok, err, bad_key_size, rekey_in_progress,
}
use tun_go.Aead.{key_size}
use tun_go.Core.{zero_bytes}

-- The interface `EpochManager`, over the states `M` of what implements it.
pub record EpochManager (M : Type 0) : Type 0 where
  pub stage_epoch : M → Bytes → Bytes → M × Result ℕ
  pub promote_send_epoch : M → ℕ → M
  pub retire_previous_epoch : M → M × Bool

pub record Keys : Type 0 where
  pub c2s : Bytes
  pub s2c : Bytes
  pub epoch : ℕ  -- uint16

pub data TransitionPhase : Type 0 where
  phase_idle phase_staged phase_retiring : TransitionPhase

pub record StateMachine (M : Type 0) : Type 0 where
  pub epoch_manager : M
  pub current : Keys
  pub staged : Keys
  pub max_observed_peer_epoch : ℕ  -- uint16
  pub phase : TransitionPhase

abbrev pub is_idle : TransitionPhase → Bool
is_idle phase_idle = true
is_idle phase_staged = false
is_idle phase_retiring = false

abbrev pub is_staged : TransitionPhase → Bool
is_staged phase_idle = false
is_staged phase_staged = true
is_staged phase_retiring = false

abbrev pub is_retiring : TransitionPhase → Bool
is_retiring phase_idle = false
is_retiring phase_staged = false
is_retiring phase_retiring = true

-- `cloneKey` copies the bytes; its spare capacity up to 32 bytes holds zeros.
unfoldable pub clone_key : Bytes → Bytes
clone_key key = copy_at 0 key (replicate (length key) 0)

-- `key[:KeySize]`, which may reach into that capacity.
unfoldable pub resize_key : Bytes → Bytes
resize_key key = take key_size (key ++ replicate key_size 0)

module _ {M : Type 0} where
  unfoldable pub new_state_machine : M → Bytes → Bytes → StateMachine M
  new_state_machine m c2s s2c = record {
    epoch_manager = m;
    current = record { c2s = clone_key c2s; s2c = clone_key s2c; epoch = 0 };
    staged = record { c2s = replicate key_size 0; s2c = replicate key_size 0; epoch = 0 };
    max_observed_peer_epoch = 0;
    phase = phase_idle;
  }

  unfoldable pub current_keys : StateMachine M → Bytes × Bytes
  current_keys c = (c.current.c2s, c.current.s2c)

  unfoldable pub ready_for_rekey : StateMachine M → Bool
  ready_for_rekey c = is_idle c.phase

  unfoldable pub send_epoch : StateMachine M → ℕ
  send_epoch c = c.current.epoch

  unfoldable pub clear_staged_locked : StateMachine M → StateMachine M
  clear_staged_locked c = record c {
    staged = record (c.staged) {
      c2s = zero_bytes (resize_key c.staged.c2s);
      s2c = zero_bytes (resize_key c.staged.s2c);
    };
  }

  -- Swaps the staged keys in. The flag says whether it did.
  unfoldable pub activate_staged_locked : StateMachine M → ℕ → StateMachine M × Bool
  activate_staged_locked c epoch =
      if not (is_staged c.phase) || not (epoch == c.staged.epoch) then (c, false) else (
        record (clear_staged_locked (record c { current = c.staged; staged = c.current })) {
          phase = phase_retiring;
        },
        true,
      )

-- The calls that change the machine.
pub data Call : Type 0 where
  start : Bytes → Bytes → Call
  activate : ℕ → Call
  observe : ℕ → Call

module _ {M : Type 0} (manager : EpochManager M) where
  unfoldable pub start_rekey : StateMachine M → Bytes → Bytes → StateMachine M × Result ℕ
  start_rekey c c2s s2c =
      if not (length c2s == key_size) || not (length s2c == key_size)
      then (c, err bad_key_size)
      else if not (is_idle c.phase)
      then (c, err rekey_in_progress)
      else (let (m, staging) = manager.stage_epoch c.epoch_manager c2s s2c in
          elim staging [
            | err e ↦ (record c { epoch_manager = m }, err e)
            | ok epoch ↦ (
              record c {
                epoch_manager = m;
                staged = record {
                  c2s = copy_at 0 c2s c.staged.c2s;
                  s2c = copy_at 0 s2c c.staged.s2c;
                  epoch = epoch;
                };
                phase = phase_staged;
              },
              ok epoch,
            )
          ])

  unfoldable pub retire_previous_epoch_locked : StateMachine M → StateMachine M
  retire_previous_epoch_locked c =
      if not (is_retiring c.phase) || ltb c.max_observed_peer_epoch c.current.epoch
      then c
      else (let (m, retired) = manager.retire_previous_epoch c.epoch_manager in
          record c { epoch_manager = m; phase = if retired then phase_idle else c.phase })

  unfoldable pub activate_send_epoch : StateMachine M → ℕ → StateMachine M
  activate_send_epoch c epoch =
      let (c', activated) = activate_staged_locked c epoch in
      if activated
      then retire_previous_epoch_locked
          (record c' { epoch_manager = manager.promote_send_epoch c'.epoch_manager epoch })
      else c'

  unfoldable pub observe_peer_epoch : StateMachine M → ℕ → StateMachine M
  observe_peer_epoch c epoch =
      retire_previous_epoch_locked
        (record c { max_observed_peer_epoch = max c.max_observed_peer_epoch epoch })

  unfoldable pub step : StateMachine M → Call → StateMachine M
  step c (start c2s s2c) = (start_rekey c c2s s2c).0
  step c (activate epoch) = activate_send_epoch c epoch
  step c (observe epoch) = observe_peer_epoch c epoch
