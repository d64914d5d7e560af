-- ===== src/Window/Table.antt =====
-- The windows of all high counters together.
use tun_go.Base.{
  ℕ, suc, ◌≤◌, ◌<◌, ◌≡◌, subst₂, subst, refl, sym, ap, ◌∙◌, ◌≢◌, List, [], ◌∷◌, ◌++◌, true, ◌==◌,
  if◌then◌else◌, Option-cases, inl, inr, length, none, some, arith, ℕ_discrete, ok, err,
  non_unique_nonce,
}
use tun_go.Window.{
  SlidingWindowEntry, SlidingWindow, find_win, check, accept, accept_in, accept_win, fresh_win,
  evict,
}
use tun_go.Window.Replay.{
  Repr, admissible, contains, fresh_win-Repr, check_win-Repr, accept_win-Repr,
}

-- An arrival is the nonce's low and high counter.
abbrev pub Arrival : Type 0
Arrival = ℕ × ℕ

-- The low counters accepted under one high counter.
unfoldable pub lows : ℕ → List Arrival → List ℕ
lows high [] = []
lows high ((l, j) ∷ rest) = if j == high then l ∷ lows high rest else lows high rest

pub record Tracks (ws : List SlidingWindowEntry) (h : List Arrival) : Type 0 where
  pub held : (j : ℕ) (w : SlidingWindowEntry) → find_win j ws ≡ some w → Repr w (lows j h)
  pub missing : (j : ℕ) → find_win j ws ≡ none → lows j h ≡ []

accept_win_high : (w : SlidingWindowEntry) (l : ℕ) → (accept_win w l).high ≡ w.high
unfolding accept_win
accept_win_high w l = ground arith

find_win_high :
    (j : ℕ) (ws : List SlidingWindowEntry) {w : SlidingWindowEntry}
    → find_win j ws ≡ some w
    → w.high ≡ j
unfolding find_win
find_win_high j [] e = cc
find_win_high j (v ∷ ws) {w} e = ground (arith, find_win_high j ws {w = w})

find_win-accept_in :
    (l j k : ℕ) (ws : List SlidingWindowEntry)
    → find_win k (accept_in l j ws) ≡ (
        if j == k
        then elim (find_win j ws) [ none ↦ none | some w ↦ some (accept_win w l) ]
        else find_win k ws)
unfolding find_win accept_in
find_win-accept_in l j k [] = ground arith
find_win-accept_in l j k (w ∷ ws) = ground (arith, find_win-accept_in l j k ws, accept_win_high w l)

find_win-append :
    (k : ℕ) (ws : List SlidingWindowEntry) (w : SlidingWindowEntry)
    → find_win k (ws ++ (w ∷ []))
      ≡ elim (find_win k ws) [ none ↦ if w.high == k then some w else none | some v ↦ some v ]
unfolding find_win
find_win-append k [] w = refl
find_win-append k (v ∷ ws) w = ground (arith, find_win-append k ws w)

admissible_nil : (l : ℕ) → admissible [] l ≡ true
unfolding admissible
admissible_nil l = ground arith

-- `Check` accepts exactly the nonces that the history of their high counter admits.
pub check-Tracks :
    (s : SlidingWindow) (h : List Arrival) (l j : ℕ)
    → Tracks s.wins h
    → check s l j ≡ (if admissible (lows j h) l then ok tt else err non_unique_nonce)
check-Tracks s h l j t = elim (Option-cases (find_win j s.wins)) [
  | inl e ↦ unfold check in rw (t.missing j e, admissible_nil l) (rw (e, check))
  | inr (w, e) ↦ unfold check in rw (e, check) (check_win-Repr w (lows j h) l (t.held j w e))
]

-- A call of `Accept` that drops no window.
abbrev pub Keeps : SlidingWindow → ℕ → Type 0
Keeps s j = find_win j s.wins ≡ none → length s.wins < 4

pub accept_found :
    (s : SlidingWindow) (l j k : ℕ) {w : SlidingWindowEntry}
    → find_win j s.wins ≡ some w
    → find_win k (accept s l j).wins ≡ (if j == k then some (accept_win w l) else find_win k s.wins)
accept_found s l j k {w} e =
    unfold accept in rw (e, accept) (find_win-accept_in l j k s.wins ∙ rw e)

pub evict_short : (ws : List SlidingWindowEntry) → length ws < 4 → evict ws ≡ ws
unfolding evict
evict_short ws h = ground arith

pub accept_new :
    (s : SlidingWindow) (l j k : ℕ)
    → find_win j s.wins ≡ none
    → length s.wins < 4
    → find_win k (accept s l j).wins
      ≡ (if j == k then some (accept_win (fresh_win j) l) else find_win k s.wins)
accept_new s l j k e short =
    unfold accept in
    rw (e, accept)
      (ap (λ ws. find_win k (ws ++ (accept_win (fresh_win j) l ∷ []))) (evict_short s.wins short)
        ∙ ground (
          arith,
          find_win-append k s.wins (accept_win (fresh_win j) l),
          accept_win_high (fresh_win j) l,
          ap (λ (i : ℕ). find_win i s.wins) {x = j} {y = k},
        ))

lows_same : (l j k : ℕ) (h : List Arrival) → j ≡ k → l ∷ lows j h ≡ lows k ((l, j) ∷ h)
unfolding lows
lows_same l j k h p = ground (arith, ap (λ (i : ℕ). lows i h) p)

lows_other : (l j k : ℕ) (h : List Arrival) → j ≢ k → lows k h ≡ lows k ((l, j) ∷ h)
unfolding lows
lows_other l j k h p = ground arith

-- One window gained a nonce, and the others are as they were.
gain-Tracks :
    (ws ws' : List SlidingWindowEntry) (h : List Arrival) (l j : ℕ) (w0 : SlidingWindowEntry)
    → Repr w0 (lows j h)
    → Tracks ws h
    → ((k : ℕ) → find_win k ws' ≡ (if j == k then some (accept_win w0 l) else find_win k ws))
    → Tracks ws' ((l, j) ∷ h)
gain-Tracks ws ws' h l j w0 r t new = record {
  held = λ k w e. elim (ℕ_discrete j k) [
    | yes p ↦
        let same : accept_win w0 l ≡ w = ground (arith, new k) in
        subst₂ Repr same (lows_same l j k h p) (accept_win-Repr w0 (lows j h) l r)
    | no p ↦ subst (Repr w) (lows_other l j k h p) (t.held k w (ground (arith, new k)))
  ];
  missing = λ k e. elim (ℕ_discrete j k) [
    | yes p ↦ ground (arith, new k)
    | no p ↦ sym (lows_other l j k h p) ∙ t.missing k (ground (arith, new k))
  ];
}

pub accept-Tracks :
    (s : SlidingWindow) (h : List Arrival) (l j : ℕ)
    → Tracks s.wins h
    → Keeps s j
    → Tracks (accept s l j).wins ((l, j) ∷ h)
accept-Tracks s h l j t keeps = elim (Option-cases (find_win j s.wins)) [
  | inl e ↦
      gain-Tracks s.wins _ h l j (fresh_win j) (rw (t.missing j e) (fresh_win-Repr j)) t
        (λ k. accept_new s l j k e (keeps e))
  | inr (w, e) ↦ gain-Tracks s.wins _ h l j w (t.held j w e) t (λ k. accept_found s l j k e)
]

-- The same nonce again is refused.
pub check_accepted :
    (s : SlidingWindow) (h : List Arrival) (l j : ℕ)
    → Tracks s.wins h
    → Keeps s j
    → check (accept s l j) l j ≡ err non_unique_nonce
check_accepted s h l j t keeps =
    check-Tracks (accept s l j) ((l, j) ∷ h) l j (accept-Tracks s h l j t keeps)
    ∙ unfold admissible lows contains in ground arith

-- How many of the listed high counters have no window yet.
unfoldable pub waiting : List ℕ → List SlidingWindowEntry → ℕ
waiting [] ws = 0
waiting (k ∷ ks) ws = elim (find_win k ws) [ none ↦ suc (waiting ks ws) | some w ↦ waiting ks ws ]

pub waiting_mono :
    (ks : List ℕ) (ws ws' : List SlidingWindowEntry)
    → ((k : ℕ) → find_win k ws' ≡ none → find_win k ws ≡ none)
    → waiting ks ws' ≤ waiting ks ws
unfolding waiting
waiting_mono [] ws ws' sub = omega arith
waiting_mono (k ∷ ks) ws ws' sub = ground (arith, waiting_mono ks ws ws' sub, sub k)

pub waiting-lt :
    (ks : List ℕ) (j : ℕ) (ws ws' : List SlidingWindowEntry) {v : SlidingWindowEntry}
    → ((k : ℕ) → find_win k ws' ≡ none → find_win k ws ≡ none)
    → contains j ks ≡ true
    → find_win j ws ≡ none
    → find_win j ws' ≡ some v
    → waiting ks ws' < waiting ks ws
unfolding waiting contains
waiting-lt [] j ws ws' sub c e f = cc
waiting-lt (k ∷ ks) j ws ws' {v} sub c e f = elim (ℕ_discrete j k) [
  | yes p ↦ ground (
    arith,
    waiting_mono ks ws ws' sub,
    ap (λ (i : ℕ). find_win i ws) p,
    ap (λ (i : ℕ). find_win i ws') p,
  )
  | no p ↦ ground (arith, waiting-lt ks j ws ws' {v = v} sub (ground arith) e f, sub k)
]

pub waiting-pos :
    (ks : List ℕ) (j : ℕ) (ws : List SlidingWindowEntry)
    → contains j ks ≡ true
    → find_win j ws ≡ none
    → 0 < waiting ks ws
unfolding waiting contains
waiting-pos [] j ws c e = cc
waiting-pos (k ∷ ks) j ws c e = elim (ℕ_discrete j k) [
  | yes p ↦ ground (arith, ap (λ (i : ℕ). find_win i ws) p)
  | no p ↦ ground (arith, waiting-pos ks j ws)
]
