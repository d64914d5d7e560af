-- ===== src/Udp/Ring.antt =====
-- src/internal/protocol/chacha20/udp/epoch_ring.go: the bounded FIFO of sessions by epoch. The lock
-- makes each method one step. A session that leaves the ring is zeroized first and returned here,
-- since a holder of the pointer still sees it.
pub mod Order
use tun_go.Base.{
  ℕ, ◌+◌, List, [], ◌∷◌, ◌++◌, Bool, true, false, Option, none, some, ◌==◌, if◌then◌else◌, length,
  map, drop,
}
use mathlib.Core.Option
use tun_go.Udp.Session.{Session, zeroize}

module _ (Cipher : Type 0) where
  pub record EpochEntry : Type 0 where
    pub epoch : ℕ  -- uint16
    pub session : Option (Session Cipher)  -- a pointer, which may be nil

  pub record EpochRing : Type 0 where
    pub capacity : ℕ
    pub entries : List EpochEntry

module _ {Cipher : Type 0} where
  unfoldable pub new_epoch_ring : ℕ → ℕ → Option (Session Cipher) → EpochRing Cipher
  new_epoch_ring capacity epoch none = record { capacity = capacity; entries = [] }
  new_epoch_ring capacity epoch (some s) = record {
    capacity = capacity;
    entries = record { epoch = epoch; session = some s } ∷ [];
  }

  -- `entries[len(entries)-1]`
  abbrev pub last_entry : List (EpochEntry Cipher) → Option (EpochEntry Cipher)
  last_entry [] = none
  last_entry (e ∷ []) = some e
  last_entry (e ∷ f ∷ es) = last_entry (f ∷ es)

  unfoldable pub current : EpochRing Cipher → ℕ
  current r = elim (last_entry r.entries) [ none ↦ 0 | some e ↦ e.epoch ]

  unfoldable pub find_entry : ℕ → List (EpochEntry Cipher) → Option (EpochEntry Cipher)
  find_entry epoch [] = none
  find_entry epoch (e ∷ es) = if e.epoch == epoch then some e else find_entry epoch es

  -- The session, if an entry has that epoch.
  unfoldable pub resolve : EpochRing Cipher → ℕ → Option (Option (Session Cipher))
  resolve r epoch = Option.map (λ e. e.session) (find_entry epoch r.entries)

  -- What the zeroized oldest entry holds.
  unfoldable pub evicted : List (EpochEntry Cipher) → Option (Session Cipher)
  evicted [] = none
  evicted (e ∷ es) = Option.map zeroize e.session

  -- Appends, at capacity after the oldest entry is zeroized and dropped. The second part is the
  -- session that was dropped.
  unfoldable pub insert :
      EpochRing Cipher → ℕ → Option (Session Cipher) → EpochRing Cipher × Option (Session Cipher)
  insert r epoch s =
      let entry : EpochEntry Cipher = record { epoch = epoch; session = s } in
      if length r.entries == r.capacity
      then (record r { entries = drop 1 r.entries ++ (entry ∷ []) }, evicted r.entries)
      else (record r { entries = r.entries ++ (entry ∷ []) }, none)

  unfoldable pub resolve_current : EpochRing Cipher → Option (Option (Session Cipher))
  resolve_current r = Option.map (λ e. e.session) (last_entry r.entries)

  unfoldable pub oldest : EpochRing Cipher → Option ℕ
  oldest r = elim r.entries [ [] ↦ none | e ∷ es ↦ some e.epoch ]

  unfoldable pub len : EpochRing Cipher → ℕ
  len r = length r.entries

  unfoldable pub zeroize_entry : EpochEntry Cipher → EpochEntry Cipher
  zeroize_entry e = record e { session = Option.map zeroize e.session }

  -- The loop of `Remove`: the entries that stay, and the zeroized session.
  unfoldable pub remove_entry :
      ℕ → List (EpochEntry Cipher) → List (EpochEntry Cipher) × Option (EpochEntry Cipher)
  remove_entry epoch [] = ([], none)
  remove_entry epoch (e ∷ es) =
      let (rest, gone) = remove_entry epoch es in
      if e.epoch == epoch then (es, some (zeroize_entry e)) else (e ∷ rest, gone)

  unfoldable pub remove : EpochRing Cipher → ℕ → EpochRing Cipher × Bool
  remove r epoch =
      let (es, gone) = remove_entry epoch r.entries in
      (record r { entries = es }, elim gone [ none ↦ false | some e ↦ true ])

  -- The sessions after the loop, and the empty ring.
  unfoldable pub zeroize_all : EpochRing Cipher → List (EpochEntry Cipher) × EpochRing Cipher
  zeroize_all r = (map zeroize_entry r.entries, record r { entries = [] })

  -- A method called on the session behind a pointer of the ring changes it in place.
  unfoldable pub update_entry :
      ℕ → Session Cipher → List (EpochEntry Cipher) → List (EpochEntry Cipher)
  update_entry epoch s [] = []
  update_entry epoch s (e ∷ es) =
      if e.epoch == epoch then record e { session = some s } ∷ es else e ∷ update_entry epoch s es

  unfoldable pub update_last : Session Cipher → List (EpochEntry Cipher) → List (EpochEntry Cipher)
  update_last s [] = []
  update_last s (e ∷ []) = record e { session = some s } ∷ []
  update_last s (e ∷ f ∷ es) = e ∷ update_last s (f ∷ es)
