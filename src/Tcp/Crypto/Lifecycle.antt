-- ===== src/Tcp/Crypto/Lifecycle.antt =====
-- The epoch transitions of `tcp.Crypto`, and that it obeys the laws of an epoch manager.
use tun_go.Base.{
  ℕ, ◌+◌, ◌≤◌, ◌<◌, ◌≡◌, refl, sym, ap, ◌∙◌, true, false, none, some, Option-cases, inl, inr, Bytes,
  length, Result, Error, ok, err, epoch_exhausted, bad_key_size, rekey_refused, ◌⊎◌, arith, leb,
  if◌then◌else◌, Bool-cases,
}
use tun_go.Aead.{Aead}
use tun_go.Tcp.Crypto.{
  Crypto, EpochSession, zeroize_at, no_epoch_session, stage_epoch, install, promote_send_epoch,
  retire_previous_epoch, session_for,
}
use tun_go.Rekey.StateMachine.{EpochManager}
use tun_go.Rekey.Manager.{Lawful}

abbrev pub session_at : ℕ → ℕ → EpochSession
session_at epoch p = record { epoch = epoch; session = some p }

module _ {Cipher : Type 0} where
  -- One session receives and sends.
  pub record Idle (c : Crypto Cipher) (e : ℕ) : Type 0 where
    pub pointer : ℕ
    pub newest : c.recv_newest ≡ session_at e pointer
    pub alone : c.recv_previous.session ≡ none
    pub sends : c.send ≡ session_at e pointer
    pub counted : c.epoch_counter ≡ e

  -- A session of the next epoch receives too.
  pub record Staged (c : Crypto Cipher) (e : ℕ) : Type 0 where
    pub pointer : ℕ
    pub next_pointer : ℕ
    pub newest : c.recv_newest ≡ session_at (e + 1) next_pointer
    pub previous : c.recv_previous ≡ session_at e pointer
    pub sends : c.send ≡ session_at e pointer
    pub counted : c.epoch_counter ≡ e + 1

  -- The newest session sends, and the previous one still receives.
  pub record Retiring (c : Crypto Cipher) (e : ℕ) : Type 0 where
    pub pointer : ℕ
    pub old_pointer : ℕ
    pub newest : c.recv_newest ≡ session_at e pointer
    pub previous : c.recv_previous.session ≡ some old_pointer
    pub sends : c.send ≡ session_at e pointer
    pub counted : c.epoch_counter ≡ e

  promote_newest :
      (c : Crypto Cipher) (epoch p : ℕ)
      → c.recv_newest ≡ session_at epoch p
      → promote_send_epoch c epoch ≡ record c { send = c.recv_newest }
  unfolding promote_send_epoch session_for
  promote_newest c epoch p e =
      let own : c.recv_newest.epoch ≡ epoch = ap (λ (x : EpochSession). x.epoch) e in
      let live : c.recv_newest.session ≡ some p = ap (λ (x : EpochSession). x.session) e in
      ground arith

  pub promote-Retiring :
      (c : Crypto Cipher) (e : ℕ) → Staged c e → Retiring (promote_send_epoch c (e + 1)) (e + 1)
  promote-Retiring c e v = rw (promote_newest c (e + 1) v.next_pointer v.newest) (record {
    pointer = v.next_pointer;
    old_pointer = v.pointer;
    newest = v.newest;
    previous = ap (λ (x : EpochSession). x.session) v.previous;
    sends = v.newest;
    counted = v.counted;
  })

  retire_newest :
      (c : Crypto Cipher) (p : ℕ)
      → c.recv_previous.session ≡ some p
      → c.send ≡ c.recv_newest
      → (k : ℕ) → c.recv_newest.session ≡ some k
      → retire_previous_epoch c ≡ (
        record c { sessions = zeroize_at (some p) c.sessions; recv_previous = no_epoch_session },
        true,
      )
  unfolding retire_previous_epoch
  retire_newest c p e f k g =
      let epochs : c.send.epoch ≡ c.recv_newest.epoch = ap (λ (x : EpochSession). x.epoch) f in
      let pointers : c.send.session ≡ some k = ap (λ (x : EpochSession). x.session) f ∙ g in
      rw (e, retire_previous_epoch) (ground arith)

  pub retire-Idle :
      (c : Crypto Cipher) (e : ℕ)
      → Retiring c e
      → ((retire_previous_epoch c).1 ≡ true) × Idle (retire_previous_epoch c).0 e
  retire-Idle c e v =
      let done : retire_previous_epoch c ≡ (
        record c {
          sessions = zeroize_at (some v.old_pointer) c.sessions;
          recv_previous = no_epoch_session;
        },
        true,
      ) =
        retire_newest c v.old_pointer v.previous (v.sends ∙ sym v.newest) v.pointer
          (ap (λ (x : EpochSession). x.session) v.newest) in
      rw done (
        refl,
        record {
          pointer = v.pointer;
          newest = v.newest;
          alone = refl;
          sends = v.sends;
          counted = v.counted;
        },
      )

module _ {Cipher : Type 0} (a : Aead Cipher) where
  abbrev pub tcp_manager : EpochManager (Crypto Cipher)
  tcp_manager = record {
    stage_epoch = stage_epoch a;
    promote_send_epoch = promote_send_epoch;
    retire_previous_epoch = retire_previous_epoch;
  }

  module _ (c : Crypto Cipher) (c2s s2c : Bytes) (alone : c.recv_previous.session ≡ none) where
    abbrev send_key : Bytes
    send_key = if c.is_server then s2c else c2s

    abbrev recv_key : Bytes
    recv_key = if c.is_server then c2s else s2c

    stage_exhausted :
        leb 65000 c.epoch_counter ≡ true → stage_epoch a c c2s s2c ≡ (c, err epoch_exhausted)
    unfolding stage_epoch
    stage_exhausted e = ground arith

    stage_bad_send :
        leb 65000 c.epoch_counter ≡ false
        → a.new send_key ≡ none
        → stage_epoch a c c2s s2c ≡ (c, err bad_key_size)
    unfolding stage_epoch
    stage_bad_send e f = ground arith

    stage_bad_recv :
        leb 65000 c.epoch_counter ≡ false
        → (send : Cipher) → a.new send_key ≡ some send
        → a.new recv_key ≡ none
        → stage_epoch a c c2s s2c ≡ (c, err bad_key_size)
    unfolding stage_epoch
    stage_bad_recv e send f g = ground arith

    stage_installs :
        leb 65000 c.epoch_counter ≡ false
        → (send recv : Cipher) → a.new send_key ≡ some send
        → a.new recv_key ≡ some recv
        → stage_epoch a c c2s s2c ≡ (install c send recv, ok (c.epoch_counter + 1))
    unfolding stage_epoch
    stage_installs e send recv f g = ground arith

    stage_cases :
        ((x : Error) × (stage_epoch a c c2s s2c ≡ (c, err x)))
        ⊎ ((send : Cipher) × (recv : Cipher) × (c.epoch_counter < 65000)
            × (stage_epoch a c c2s s2c ≡ (install c send recv, ok (c.epoch_counter + 1))))
    stage_cases = elim (Bool-cases (leb 65000 c.epoch_counter)) [
      | inl e ↦ inl (epoch_exhausted, stage_exhausted e)
      | inr e ↦ elim (Option-cases (a.new send_key)) [
        | inl f ↦ inl (bad_key_size, stage_bad_send e f)
        | inr (send, f) ↦ elim (Option-cases (a.new recv_key)) [
          | inl g ↦ inl (bad_key_size, stage_bad_recv e send f g)
          | inr (recv, g) ↦ inr (send, recv, ground arith, stage_installs e send recv f g)
        ]
      ]
    ]

  -- What a call of `StageEpoch` between transitions may do.
  abbrev pub StagesNext : Crypto Cipher → ℕ → Crypto Cipher × Result ℕ → Type 0
  StagesNext c e (c', ok epoch) = (epoch ≡ e + 1) × (epoch ≤ 65000) × Staged c' e
  StagesNext c e (c', err x) = c' ≡ c

  install-Staged :
      (c : Crypto Cipher) (e : ℕ) (send recv : Cipher) → Idle c e → Staged (install c send recv) e
  unfolding install
  install-Staged c e send recv v = record {
    pointer = v.pointer;
    next_pointer = length c.sessions;
    newest = ap (λ (n : ℕ). session_at (n + 1) (length c.sessions)) v.counted;
    previous = v.newest;
    sends = v.sends;
    counted = ap (λ (n : ℕ). n + 1) v.counted;
  }

  -- Between transitions tcp.Crypto.StageEpoch either fails and changes nothing, or returns the
  -- next epoch (at most 65000), receives with its session beside the previous one, and still sends
  -- with the old one.
  pub stage_epoch-StagesNext :
      (c : Crypto Cipher) (e : ℕ) (c2s s2c : Bytes)
      → Idle c e
      → StagesNext c e (stage_epoch a c c2s s2c)
  stage_epoch-StagesNext c e c2s s2c v = elim (stage_cases c c2s s2c v.alone) [
    | inl (x, q) ↦ rw q refl
    | inr (send, recv, low, q) ↦
        rw q (ap (λ (n : ℕ). n + 1) v.counted, omega arith, install-Staged c e send recv v)
  ]

  -- During a transition it is refused.
  pub stage_epoch_refused :
      (c : Crypto Cipher) (c2s s2c : Bytes) (p : ℕ)
      → c.recv_previous.session ≡ some p
      → stage_epoch a c c2s s2c ≡ (c, err rekey_refused)
  unfolding stage_epoch
  stage_epoch_refused c c2s s2c p e = ground arith

  pub next_ok :
      (c : Crypto Cipher) (e epoch : ℕ) (r : Crypto Cipher × Result ℕ)
      → StagesNext c e r
      → r.1 ≡ ok epoch
      → (epoch ≡ e + 1) × Staged r.0 e
  next_ok c e epoch (c', ok x) (n, _, s) q = let same : epoch ≡ x = cc in (same ∙ n, s)
  next_ok c e epoch (c', err x) s q = absurd (cc)

  pub next_err :
      (c : Crypto Cipher) (e : ℕ) (x : Error) (r : Crypto Cipher × Result ℕ)
      → Idle c e
      → StagesNext c e r
      → r.1 ≡ err x
      → Idle r.0 e
  next_err c e x (c', ok y) v s q = absurd (cc)
  next_err c e x (c', err y) v s q = rw s v

  -- `tcp.Crypto` obeys the laws of an epoch manager.
  unfoldable pub tcp_lawful : Lawful tcp_manager
  tcp_lawful = record {
    Idle = Idle;
    Staged = Staged;
    Retiring = Retiring;
    stage_ok = λ c e epoch c2s s2c v q.
        next_ok c e epoch (stage_epoch a c c2s s2c) (stage_epoch-StagesNext c e c2s s2c v) q;
    stage_err = λ c e x c2s s2c v q.
        next_err c e x (stage_epoch a c c2s s2c) v (stage_epoch-StagesNext c e c2s s2c v) q;
    promote_staged = promote-Retiring;
    retire_done = retire-Idle;
  }
