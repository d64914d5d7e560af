-- ===== src/Rekey/StateMachine/OverUdp.antt =====
-- The control plane over the UDP crypto: `udp.Crypto` as the state machine's `EpochManager`.
use tun_go.Base.{
  ℕ, ◌+◌, ◌≡◌, ◌≢◌, refl, sym, ap, ◌∙◌, inl, inr, Bool, false, Bytes, length, Result, ok, err,
  arith, max, ◌<◌, subst, ℕ_discrete, leb, if◌then◌else◌, List, [], ◌∷◌,
}
use tun_go.Aead.{Aead, Laws}
use tun_go.Udp.Ring.{EpochEntry, oldest, len}
use tun_go.Udp.Ring.Order.{Consecutive}
use tun_go.Udp.Crypto
use tun_go.Udp.Crypto.{
  Crypto, new_crypto, promote_send_epoch, retire_previous_epoch, would_evict_send,
}
use tun_go.Udp.Crypto.Epochs.{
  Inv, first_epoch, Stages, stage_epoch-Stages, promote-Inv, new_crypto-Inv,
}
use tun_go.Rekey.StateMachine.{
  EpochManager, phase_idle, phase_staged, StateMachine, start_rekey, retire_previous_epoch_locked,
  activate_send_epoch, observe_peer_epoch, Call, start, activate, observe, step, new_state_machine,
}
use tun_go.Rekey.StateMachine.Phases.{
  IsClean, activate_cases, retire_cases, promoted, start_cases, start_staged, staged_result,
  promoted-IsClean, staged_result-IsClean, new_state_machine-IsClean,
}

module _ {Cipher : Type 0} (a : Aead Cipher) where
  abbrev pub udp_manager : EpochManager (Crypto Cipher)
  udp_manager = record {
    stage_epoch = Crypto.stage_epoch a;
    promote_send_epoch = promote_send_epoch;
    retire_previous_epoch = retire_previous_epoch;
  }

module _ {Cipher : Type 0} where
  -- The two records of the send epoch agree; the newest epoch is the staged one while there is one,
  -- and the send epoch otherwise.
  pub record Joint (c : StateMachine (Crypto Cipher)) : Type 0 where
    pub clean : IsClean c
    pub valid : Inv c.epoch_manager
    pub sends : c.epoch_manager.send_epoch ≡ c.current.epoch
    pub staged_newest : c.phase ≡ phase_staged → c.staged.epoch ≡ c.epoch_manager.epoch_counter
    pub staged_next : c.phase ≡ phase_staged → c.current.epoch + 1 ≡ c.epoch_manager.epoch_counter
    pub settled : c.phase ≢ phase_staged → c.current.epoch ≡ c.epoch_manager.epoch_counter

  -- A full ring's oldest epoch is three behind the newest, so it is not a settled send epoch.
  no_eviction :
      (c : Crypto Cipher) → Inv c → c.send_epoch ≡ c.epoch_counter → would_evict_send c ≡ false
  unfolding would_evict_send oldest len
  no_eviction c v e = go c.ring.entries v.ordered refl
    where
      go :
          (es : List (EpochEntry Cipher))
          → Consecutive (first_epoch c) es
          → c.ring.entries ≡ es
          → would_evict_send c ≡ false
      go [] o p = rw p refl
      go (x ∷ es) o p = elim (ℕ_discrete (length c.ring.entries) 4) [
        | no room ↦ ground (arith, v.capacity_is, p, room)
        | yes full ↦ ground (arith, v.capacity_is, p, full, o.0, e, v.counted)
      ]

  settled-Joint :
      (c : StateMachine (Crypto Cipher))
      → c.phase ≢ phase_staged
      → IsClean c
      → Inv c.epoch_manager
      → c.epoch_manager.send_epoch ≡ c.current.epoch
      → c.current.epoch ≡ c.epoch_manager.epoch_counter
      → Joint c
  settled-Joint c p v w e f = record {
    clean = v;
    valid = w;
    sends = e;
    staged_newest = λ q. absurd (p q);
    staged_next = λ q. absurd (p q);
    settled = λ _. f;
  }

module _ {Cipher : Type 0} (a : Aead Cipher) where
  -- `NewStateMachine` over `NewCrypto`.
  pub new-Joint :
      (id c2s s2c : Bytes) (send recv : Cipher) (is_server : Bool)
      → Joint (new_state_machine (new_crypto id send recv is_server) c2s s2c)
  new-Joint id c2s s2c send recv is_server =
      settled-Joint (new_state_machine (new_crypto id send recv is_server) c2s s2c)
        (unfold new_state_machine in λ p. cc)
        (new_state_machine-IsClean (new_crypto id send recv is_server) c2s s2c)
        (unfold new_state_machine in new_crypto-Inv id send recv is_server)
        (unfold new_state_machine new_crypto in refl) (unfold new_state_machine new_crypto in refl)

  retire-Joint :
      (c : StateMachine (Crypto Cipher))
      → c.phase ≢ phase_staged
      → Joint c
      → Joint (retire_previous_epoch_locked (udp_manager a) c)
  unfolding retire_previous_epoch
  retire-Joint c p v = elim (retire_cases (udp_manager a) c) [
    | inl e ↦ rw e v
    | inr (_, _, e) ↦ rw e (
        settled-Joint (record c { phase = phase_idle }) (λ q. cc)
          (record {
            c2s_size = v.clean.c2s_size;
            s2c_size = v.clean.s2c_size;
            wiped_c2s = λ _. v.clean.wiped_c2s p;
            wiped_s2c = λ _. v.clean.wiped_s2c p;
          })
          v.valid v.sends (v.settled p))
  ]

  promoted-Joint :
      (c : StateMachine (Crypto Cipher))
      → c.phase ≡ phase_staged
      → Joint c
      → Joint (promoted (udp_manager a) c)
  promoted-Joint c p v =
      settled-Joint (promoted (udp_manager a) c) (λ q. cc) (promoted-IsClean (udp_manager a) c)
        (promote-Inv c.epoch_manager c.staged.epoch v.valid
          (omega (arith, v.staged_newest p, v.valid.some_session))
          (omega (arith, v.staged_newest p)))
        (unfold promote_send_epoch in refl) (unfold promote_send_epoch in v.staged_newest p)

  pub activate-Joint :
      (c : StateMachine (Crypto Cipher)) (epoch : ℕ)
      → Joint c
      → Joint (activate_send_epoch (udp_manager a) c epoch)
  activate-Joint c epoch v = elim (activate_cases (udp_manager a) c epoch) [
    | inl e ↦ rw e v
    | inr (p, _, e) ↦
        rw e (retire-Joint (promoted (udp_manager a) c) (λ q. cc) (promoted-Joint c p v))
  ]

  seen-Joint :
      (c : StateMachine (Crypto Cipher)) (epoch : ℕ)
      → Joint c
      → Joint (record c { max_observed_peer_epoch = epoch })
  seen-Joint c epoch v = record {
    clean = record {
      c2s_size = v.clean.c2s_size;
      s2c_size = v.clean.s2c_size;
      wiped_c2s = v.clean.wiped_c2s;
      wiped_s2c = v.clean.wiped_s2c;
    };
    valid = v.valid;
    sends = v.sends;
    staged_newest = v.staged_newest;
    staged_next = v.staged_next;
    settled = v.settled;
  }

  pub observe-Joint :
      (c : StateMachine (Crypto Cipher)) (epoch : ℕ)
      → Joint c
      → Joint (observe_peer_epoch (udp_manager a) c epoch)
  unfolding observe_peer_epoch
  observe-Joint c epoch v =
      let seen : StateMachine (Crypto Cipher) = record c {
        max_observed_peer_epoch = max c.max_observed_peer_epoch epoch;
      } in
      elim (retire_cases (udp_manager a) seen) [
        | inl e ↦ rw e (seen-Joint c (max c.max_observed_peer_epoch epoch) v)
        | inr (p, _, _) ↦
            retire-Joint seen (λ q. cc) (seen-Joint c (max c.max_observed_peer_epoch epoch) v)
      ]

  staged-Joint :
      (c : StateMachine (Crypto Cipher)) (c2s s2c : Bytes) (r : Crypto Cipher × Result ℕ)
      → length c2s ≡ 32
      → length s2c ≡ 32
      → c.phase ≡ phase_idle
      → Joint c
      → Stages a c.epoch_manager r
      → Joint (staged_result (udp_manager a) c c2s s2c r).0
  staged-Joint c c2s s2c (m, err e) k l p v st =
      subst (λ (x : Crypto Cipher). Joint (record c { epoch_manager = x })) (sym st) v
  staged-Joint c c2s s2c (m, ok epoch) k l p v (next, counted, kept, _, w) = record {
    clean = staged_result-IsClean (udp_manager a) c c2s s2c (m, ok epoch) k l v.clean;
    valid = w;
    sends = kept ∙ v.sends;
    staged_newest = λ _. sym counted;
    staged_next = λ _. ap (λ (n : ℕ). n + 1) (v.settled (λ q. cc)) ∙ sym next ∙ sym counted;
    settled = λ q. absurd (q refl);
  }

  pub start-Joint :
      (c : StateMachine (Crypto Cipher)) (c2s s2c : Bytes)
      → Joint c
      → Joint (start_rekey (udp_manager a) c c2s s2c).0
  start-Joint c c2s s2c v = elim (start_cases (udp_manager a) c c2s s2c v.clean) [
    | inl (e, q) ↦ rw q v
    | inr (p, k, l, q) ↦ rw q (
        staged-Joint c c2s s2c (Crypto.stage_epoch a c.epoch_manager c2s s2c) k l p v
          (stage_epoch-Stages a c.epoch_manager c2s s2c v.valid))
  ]

  -- Every call of the control plane keeps the joint invariant of the state machine and the UDP
  -- crypto.
  pub step-Joint :
      (c : StateMachine (Crypto Cipher)) (call : Call)
      → Joint c
      → Joint (step (udp_manager a) c call)
  unfolding step
  step-Joint c (start c2s s2c) v = start-Joint c c2s s2c v
  step-Joint c (activate epoch) v = activate-Joint c epoch v
  step-Joint c (observe epoch) v = observe-Joint c epoch v

  stage_epoch_ok :
      (c : Crypto Cipher) (c2s s2c : Bytes)
      → Laws a
      → c.epoch_counter < 65000
      → would_evict_send c ≡ false
      → length c2s ≡ 32
      → length s2c ≡ 32
      → (Crypto.stage_epoch a c c2s s2c).1 ≡ ok (c.epoch_counter + 1)
  unfolding Crypto.stage_epoch
  stage_epoch_ok c c2s s2c laws low safe k l =
      let send_key : Bytes = if c.is_server then s2c else c2s in
      let recv_key : Bytes = if c.is_server then c2s else s2c in
      let (send, e) = laws.new_sized send_key (ground (arith, k, l)) in
      let (recv, f) = laws.new_sized recv_key (ground (arith, k, l)) in
      let idle : leb 65000 c.epoch_counter ≡ false = ground arith in rw (idle, safe, e, f) refl

  -- In an idle machine in the joint invariant, below the last epoch, StartRekey with two keys of
  -- 32 bytes succeeds: it stages them as the epoch after the send epoch and leaves the current
  -- keys alone. No rekey is refused for fear of evicting the send epoch.
  pub start_rekey_succeeds :
      (c : StateMachine (Crypto Cipher)) (c2s s2c : Bytes)
      → Laws a
      → Joint c
      → c.phase ≡ phase_idle
      → c.current.epoch < 65000
      → length c2s ≡ 32
      → length s2c ≡ 32
      → ((start_rekey (udp_manager a) c c2s s2c).1 ≡ ok (c.current.epoch + 1))
        × ((start_rekey (udp_manager a) c c2s s2c).0.phase ≡ phase_staged)
        × ((start_rekey (udp_manager a) c c2s s2c).0.current ≡ c.current)
        × ((start_rekey (udp_manager a) c c2s s2c).0.staged
            ≡ record { c2s = c2s; s2c = s2c; epoch = c.current.epoch + 1 })
  start_rekey_succeeds c c2s s2c laws v p low k l =
      let same : c.current.epoch ≡ c.epoch_manager.epoch_counter = v.settled (λ q. cc) in
      let e : (Crypto.stage_epoch a c.epoch_manager c2s s2c).1
          ≡ ok (c.epoch_manager.epoch_counter + 1) =
        stage_epoch_ok c.epoch_manager c2s s2c laws (omega arith)
          (no_eviction c.epoch_manager v.valid (v.sends ∙ same)) k l in
      rw (start_staged (udp_manager a) c c2s s2c k l p v.clean, e)
        (
          ap (λ (n : ℕ). ok (n + 1)) (sym same),
          refl,
          refl,
          ap (λ (n : ℕ). record { c2s = c2s; s2c = s2c; epoch = n + 1 }) (sym same),
        )
