-- ===== src/Server/Tests.antt =====
-- A queue of two slots, filled, drained and closed.
use tun_go.Base.{
  ◌≡◌, refl, [], ◌∷◌, ◌++◌, ◌⊎◌, inl, inr, true, false, some, Bytes, replicate, length, take, ok,
  arith,
}
use tun_go.Server.RegistrationQueue.{
  RegistrationQueue, new_registration_queue, enqueue, read_into, close,
}
use tun_go.Server.RegistrationQueue.Unread.{Inv, contents, new-Inv, unread}
use tun_go.Server.RegistrationQueue.Enqueue.{dropped, enqueue-contents}
use tun_go.Server.RegistrationQueue.Fifo.{read_into_first}

abbrev queue : RegistrationQueue
queue = new_registration_queue 2

queue-Inv : Inv queue
queue-Inv = new-Inv 2 (omega arith)

abbrev packet : Bytes
packet = 5 ∷ 6 ∷ 7 ∷ []

enqueue-contents_example :
    Inv (enqueue queue packet)
    × (((dropped queue packet ≡ true) × (enqueue queue packet ≡ queue))
        ⊎ ((dropped queue packet ≡ false)
            × (contents (enqueue queue packet) ≡ contents queue ++ (packet ∷ []))
            × ((enqueue queue packet).closed ≡ false)
            × (length (enqueue queue packet).queue ≡ length queue.queue)
            × ((enqueue queue packet).head ≡ queue.head)))
enqueue-contents_example = enqueue-contents queue packet queue-Inv

one_waits : contents (enqueue queue packet) ≡ packet ∷ []
unfolding new_registration_queue unread
one_waits = elim enqueue-contents_example.1 [ inl (full, e) ↦ absurd (cc) | inr r ↦ r.1 ]

read_into_first_example :
    (q' : RegistrationQueue) × (dst' : Bytes) × (read_into (enqueue queue packet) (replicate 9 0)
      ≡ some (q', dst', ok 3))
    × Inv q'
    × (contents q' ≡ [])
    × (take 3 dst' ≡ packet)
read_into_first_example =
    read_into_first (enqueue queue packet) (replicate 9 0) {p = packet} {ps = []}
      enqueue-contents_example.0 one_waits (omega arith)

nothing_waits : contents (close queue) ≡ []
unfolding close new_registration_queue unread
nothing_waits = refl
