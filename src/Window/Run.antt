-- ===== src/Window/Run.antt =====
-- A whole run of arriving nonces through the replay windows.
use tun_go.Base.{
  ℕ, suc, ◌+◌, ◌≤◌, ◌<◌, ◌≡◌, refl, ap, ◌∙◌, List, [], ◌∷◌, true, false, Bool-cases, Option-cases,
  inl, inr, length, length-append, none, some, arith, All, ok, err,
}
use tun_go.Window.{
  SlidingWindowEntry, SlidingWindow, new_sliding_window, find_win, check, accept, accept_in,
  accept_win, fresh_win,
}
use tun_go.Window.Replay.{admissible, contains}
use tun_go.Window.Table.{
  Arrival, lows, Tracks, Keeps, check-Tracks, accept-Tracks, accept_found, accept_new, evict_short,
  waiting, waiting-pos, waiting_mono, waiting-lt,
}

-- What `udp.Session.Decrypt` does with the nonces of packets that authenticate: `Check`, then
-- `Accept`. The result lists what was accepted, the last one first.
unfoldable pub receive : SlidingWindow → List Arrival → List Arrival → List Arrival
receive s h [] = h
receive s h ((l, j) ∷ rest) = elim (check s l j) [
  | ok _ ↦ receive (accept s l j) ((l, j) ∷ h) rest
  | err _ ↦ receive s h rest
]

-- The specification: every high counter has its own history.
unfoldable pub receive_spec : List Arrival → List Arrival → List Arrival
receive_spec h [] = h
receive_spec h ((l, j) ∷ rest) = elim (admissible (lows j h) l) [
  | true ↦ receive_spec ((l, j) ∷ h) rest
  | false ↦ receive_spec h rest
]

-- Every arrival's high counter is one of the listed ones.
abbrev pub HighsIn : List ℕ → List Arrival → Type 0
HighsIn ks = All (λ a. contains a.1 ks ≡ true)

-- There is a free place for every listed high counter that has no window.
abbrev Room : List ℕ → SlidingWindow → Type 0
Room ks s = length s.wins + waiting ks s.wins ≤ 4

length-accept_in : (l j : ℕ) (ws : List SlidingWindowEntry) → length (accept_in l j ws) ≡ length ws
unfolding accept_in
length-accept_in l j [] = refl
length-accept_in l j (w ∷ ws) = ground (arith, length-accept_in l j ws)

length-accept_found :
    (s : SlidingWindow) (l j : ℕ) {w : SlidingWindowEntry}
    → find_win j s.wins ≡ some w
    → length (accept s l j).wins ≡ length s.wins
length-accept_found s l j e = unfold accept in rw (e, accept) (length-accept_in l j s.wins)

length-accept_new :
    (s : SlidingWindow) (l j : ℕ)
    → find_win j s.wins ≡ none
    → length s.wins < 4
    → length (accept s l j).wins ≡ length s.wins + 1
length-accept_new s l j e short =
    unfold accept in rw (e, accept, evict_short s.wins short) (length-append s.wins _)

accept_absent :
    (s : SlidingWindow) (l j k : ℕ)
    → Keeps s j
    → find_win k (accept s l j).wins ≡ none
    → find_win k s.wins ≡ none
accept_absent s l j k keeps e = elim (Option-cases (find_win j s.wins)) [
  | inl f ↦ ground (arith, accept_new s l j k f (keeps f))
  | inr (w, f) ↦ ground (arith, accept_found s l j k f)
]

accept-Room :
    (ks : List ℕ) (s : SlidingWindow) (l j : ℕ)
    → contains j ks ≡ true
    → Room ks s
    → Keeps s j × Room ks (accept s l j)
accept-Room ks s l j c room = (
  keeps,
  elim (Option-cases (find_win j s.wins)) [
    | inl e ↦ omega (
      arith,
      length-accept_new s l j e (keeps e),
      waiting-lt ks j s.wins (accept s l j).wins {v = accept_win (fresh_win j) l} absent c e
          (accept_new s l j j e (keeps e) ∙ ground arith),
    )
    | inr (w, e) ↦
        omega
          (arith, length-accept_found s l j e, waiting_mono ks s.wins (accept s l j).wins absent)
  ],
)
  where
    keeps : Keeps s j
    keeps e = omega (arith, waiting-pos ks j s.wins c e)

    absent : (k : ℕ) → find_win k (accept s l j).wins ≡ none → find_win k s.wins ≡ none
    absent k = accept_absent s l j k keeps

receive_agrees :
    (ks : List ℕ) (s : SlidingWindow) (h rest : List Arrival)
    → HighsIn ks rest
    → Tracks s.wins h
    → Room ks s
    → receive s h rest ≡ receive_spec h rest
unfolding receive receive_spec
receive_agrees ks s h [] hs t room = refl
receive_agrees ks s h ((l, j) ∷ rest) hs t room = elim (Bool-cases (admissible (lows j h) l)) [
  | inl e ↦
      let (keeps, room') = accept-Room ks s l j hs.0 room in
      ground (
        arith,
        check-Tracks s h l j t,
        receive_agrees ks (accept s l j) ((l, j) ∷ h) rest hs.1 (accept-Tracks s h l j t keeps)
            room',
      )
  | inr e ↦ ground (arith, check-Tracks s h l j t, receive_agrees ks s h rest hs.1 t room)
]

none_waits : (ks : List ℕ) → waiting ks [] ≡ length ks
unfolding waiting find_win
none_waits [] = refl
none_waits (k ∷ ks) = ap suc (none_waits ks)

pub new-Tracks : Tracks new_sliding_window.wins []
unfolding new_sliding_window find_win lows
new-Tracks = record { held = λ j w e. cc; missing = λ j e. refl }

-- Over any sequence of authentic arrivals that use at most four high counters, in any order and
-- with any repetitions, the bitmap windows accept exactly the arrivals that the list specification
-- accepts: those not accepted before and less than 1024 behind the newest accepted nonce of their
-- high counter.
pub receive_refines :
    (ks : List ℕ) (rest : List Arrival)
    → length ks ≤ 4
    → HighsIn ks rest
    → receive new_sliding_window [] rest ≡ receive_spec [] rest
receive_refines ks rest few hs =
    receive_agrees ks new_sliding_window [] rest hs new-Tracks
      (unfold new_sliding_window in omega (arith, none_waits ks))

-- No nonce stands twice in the list.
abbrev pub NoReplay : List Arrival → Type 0
NoReplay [] = Unit
NoReplay ((l, j) ∷ h) = (contains l (lows j h) ≡ false) × NoReplay h

receive_spec-NoReplay : (h rest : List Arrival) → NoReplay h → NoReplay (receive_spec h rest)
unfolding receive_spec
receive_spec-NoReplay h [] n = n
receive_spec-NoReplay h ((l, j) ∷ rest) n = elim (Bool-cases (admissible (lows j h) l)) [
  | inl e ↦
      rw (e, receive_spec)
        (receive_spec-NoReplay ((l, j) ∷ h) rest (unfold admissible in ground arith, n))
  | inr e ↦ rw (e, receive_spec) (receive_spec-NoReplay h rest n)
]

-- Over any sequence of authentic arrivals that use at most four high counters, no nonce is ever
-- accepted twice.
pub receive-NoReplay :
    (ks : List ℕ) (rest : List Arrival)
    → length ks ≤ 4
    → HighsIn ks rest
    → NoReplay (receive new_sliding_window [] rest)
receive-NoReplay ks rest few hs =
    rw (receive_refines ks rest few hs) (receive_spec-NoReplay [] rest tt)
