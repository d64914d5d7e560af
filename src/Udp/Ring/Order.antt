-- ===== src/Udp/Ring/Order.antt =====
-- A ring whose entries stand for consecutive epochs, each with the session of that epoch.
use tun_go.Base.{
  ℕ, suc, ◌+◌, ◌≤◌, ◌<◌, ◌≡◌, refl, sym, ◌∙◌, subst, List, [], ◌∷◌, ◌++◌, Option, none, some,
  ==_iff, ==_ne, length, drop, arith, ℕ_discrete,
}
use tun_go.Udp.Session.{Session}
use tun_go.Udp.Ring.{EpochEntry, find_entry, update_entry}

module _ {Cipher : Type 0} where
  abbrev pub Holds : ℕ → Option (Session Cipher) → Type 0
  Holds k none = ⊥
  Holds k (some s) = s.epoch ≡ k

  abbrev pub Consecutive : ℕ → List (EpochEntry Cipher) → Type 0
  Consecutive k [] = Unit
  Consecutive k (e ∷ es) = (e.epoch ≡ k) × Holds k e.session × Consecutive (suc k) es

  pub Consecutive-append :
      (k : ℕ) (es : List (EpochEntry Cipher)) (e : EpochEntry Cipher)
      → Consecutive k es
      → e.epoch ≡ k + length es
      → Holds (k + length es) e.session
      → Consecutive k (es ++ (e ∷ []))
  Consecutive-append k [] e c p h =
      (omega arith, subst (λ (j : ℕ). Holds j e.session) (omega arith) h, tt)
  Consecutive-append k (f ∷ es) e c p h = (
    c.0,
    c.1,
    Consecutive-append (suc k) es e c.2 (omega arith)
        (subst (λ (j : ℕ). Holds j e.session) (omega arith) h),
  )

  pub Consecutive-drop :
      (k : ℕ) (es : List (EpochEntry Cipher))
      → Consecutive k es
      → 0 < length es
      → Consecutive (suc k) (drop 1 es)
  Consecutive-drop k [] c h = absurd (omega arith)
  Consecutive-drop k (e ∷ es) c h = c.2

  session_of :
      (k : ℕ) (o : Option (Session Cipher))
      → Holds k o
      → (s : Session Cipher) × (o ≡ some s) × (s.epoch ≡ k)
  session_of k none h = absurd h
  session_of k (some s) h = (s, refl, h)

  -- Every epoch of the range is found, with its own session.
  pub resolve_in :
      (k epoch : ℕ) (es : List (EpochEntry Cipher))
      → Consecutive k es
      → k ≤ epoch
      → epoch < k + length es
      → (s : Session Cipher) × (e : EpochEntry Cipher) × (find_entry epoch es ≡ some e)
        × (e.session ≡ some s)
        × (s.epoch ≡ epoch)
  unfolding find_entry
  resolve_in k epoch [] c lo hi = absurd (omega arith)
  resolve_in k epoch (e ∷ es) c lo hi = elim (ℕ_discrete e.epoch epoch) [
    | yes p ↦
        let (s, held, own) = session_of k e.session c.1 in (s, e, ground arith, held, ground arith)
    | no p ↦
        let (s, f, found, held, own) =
          resolve_in (suc k) epoch es c.2 (ground arith) (omega arith) in
        (s, f, ground arith, held, own)
  ]

  pub resolve_out :
      (k epoch : ℕ) (es : List (EpochEntry Cipher))
      → Consecutive k es
      → epoch < k
      → find_entry epoch es ≡ none
  unfolding find_entry
  resolve_out k epoch [] c h = refl
  resolve_out k epoch (e ∷ es) c h = ground (arith, resolve_out (suc k) epoch es c.2)

  pub length-update_entry :
      (epoch : ℕ) (s : Session Cipher) (es : List (EpochEntry Cipher))
      → length (update_entry epoch s es) ≡ length es
  unfolding update_entry
  length-update_entry epoch s [] = refl
  length-update_entry epoch s (e ∷ es) = ground (arith, length-update_entry epoch s es)

  pub update_entry-Consecutive :
      (k epoch : ℕ) (s : Session Cipher) (es : List (EpochEntry Cipher))
      → s.epoch ≡ epoch
      → Consecutive k es
      → Consecutive k (update_entry epoch s es)
  unfolding update_entry
  update_entry-Consecutive k epoch s [] p c = c
  update_entry-Consecutive k epoch s (e ∷ es) p c = elim (ℕ_discrete e.epoch epoch) [
    | yes q ↦ rw ((==_iff e.epoch epoch).1 q) (c.0, p ∙ (sym q ∙ c.0), c.2)
    | no q ↦
        rw (==_ne e.epoch epoch q) (c.0, c.1, update_entry-Consecutive (suc k) epoch s es p c.2)
  ]
