-- ===== src/Window/Tests.antt =====
-- Runs of the replay windows, and their theorems at concrete arrivals.
use tun_go.Base.{ℕ, ◌-◌, ◌^◌, ◌≡◌, refl, List, [], ◌∷◌, replicate, ok, err, non_unique_nonce, arith}
use tun_go.Window.{
  SlidingWindowEntry, new_sliding_window, check, accept, check_win, accept_win, fresh_win,
  shift_bitmap, find_win, accept_in, evict, zeroize,
}
use tun_go.Window.Replay.{
  Repr, admissible, fresh_win-Repr, check_win-Repr, accept_win-Repr, contains,
}
use tun_go.Window.Table.{Arrival}
use tun_go.Window.Run.{receive, receive_spec, receive_refines, HighsIn, NoReplay, receive-NoReplay}

-- Out of order, repeated, far ahead, and too far behind.
abbrev arrivals : List Arrival
arrivals =
    (5, 0)
    ∷ (3, 0)
    ∷ (5, 0)
    ∷ (3, 0)
    ∷ (2000, 0)
    ∷ (976, 0)
    ∷ (977, 0)
    ∷ (977, 0)
    ∷ (0, 1)
    ∷ (0, 1)
    ∷ []

receives :
    receive new_sliding_window [] arrivals ≡ (0, 1) ∷ (977, 0) ∷ (2000, 0) ∷ (3, 0) ∷ (5, 0) ∷ []
unfolding receive new_sliding_window check accept check_win accept_win find_win accept_in evict
    shift_bitmap
receives = refl

forgets_the_oldest :
    check (accept (accept (accept (accept (accept new_sliding_window 7 0) 7 1) 7 2) 7 3) 7 4) 7 0
    ≡ ok tt
unfolding new_sliding_window check accept check_win accept_win find_win accept_in evict shift_bitmap
forgets_the_oldest = refl

zeroizes : (zeroize (accept new_sliding_window 7 2)).1 ≡ new_sliding_window
unfolding zeroize new_sliding_window
zeroizes = refl

abbrev ones : List ℕ
ones = replicate 16 (2 ^ 64 - 1)

abbrev seen_five : SlidingWindowEntry
seen_five = accept_win (fresh_win 0) 5

check_win-Repr_example : check_win seen_five 5 ≡ err non_unique_nonce
unfolding admissible
check_win-Repr_example =
    check_win-Repr seen_five (5 ∷ []) 5 (accept_win-Repr (fresh_win 0) [] 5 (fresh_win-Repr 0))

accept_win-Repr_example : Repr (accept_win (fresh_win 0) 5) (5 ∷ [])
accept_win-Repr_example = accept_win-Repr (fresh_win 0) [] 5 (fresh_win-Repr 0)

highs_listed : HighsIn (0 ∷ 1 ∷ []) arrivals
unfolding contains
highs_listed = (refl, (refl, (refl, (refl, (refl, (refl, (refl, (refl, (refl, (refl, tt))))))))))

receive_refines_example : receive new_sliding_window [] arrivals ≡ receive_spec [] arrivals
receive_refines_example = receive_refines (0 ∷ 1 ∷ []) arrivals (omega arith) highs_listed

receive-NoReplay_example : NoReplay (receive new_sliding_window [] arrivals)
receive-NoReplay_example = receive-NoReplay (0 ∷ 1 ∷ []) arrivals (omega arith) highs_listed
