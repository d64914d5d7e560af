-- ===== src/Server/RegistrationQueue.antt =====
-- src/internal/server/udp/registration_queue.go and registration_packet.go: the bounded ring of
-- datagrams of one registering client. The mutex makes each method one step; a `ReadInto` that waits
-- on the condition variable lets go of it, and so is no step.
pub mod Unread
pub mod Enqueue
pub mod Fifo
use tun_go.Base.{
  ℕ, ◌+◌, ◌-◌, ◌%◌, List, Bool, true, false, ◌&&◌, not, Option, none, some, ltb, ◌==◌,
  if◌then◌else◌, Bytes, length, take, replicate, get_or, set, copy_at, Result, ok, err, eof,
  short_buffer,
}

-- `settings.DefaultEthernetMTU + settings.UDPChacha20Overhead`
abbrev pub registration_packet_size : ℕ
registration_packet_size = 1500 + (16 + 12 + 8)

pub record RegistrationPacket : Type 0 where
  pub n : ℕ
  pub buffer : Bytes

pub record RegistrationQueue : Type 0 where
  pub queue : List RegistrationPacket
  pub head : ℕ
  pub tail : ℕ
  pub count : ℕ
  pub closed : Bool

unfoldable pub empty_packet : RegistrationPacket
empty_packet = record { n = 0; buffer = replicate registration_packet_size 0 }

unfoldable pub new_registration_queue : ℕ → RegistrationQueue
new_registration_queue capacity = record {
  queue = replicate capacity empty_packet;
  head = 0;
  tail = 0;
  count = 0;
  closed = false;
}

-- An index is in range wherever the code takes a slot.
unfoldable pub slot : RegistrationQueue → ℕ → RegistrationPacket
slot q i = get_or q.queue i empty_packet

unfoldable pub enqueue : RegistrationQueue → Bytes → RegistrationQueue
enqueue q pkt =
    if q.closed
    then q
    else if q.count == length q.queue
    then q
    else if ltb (length (slot q q.tail).buffer) (length pkt)
    then q
    else record q {
      queue =
          set q.queue q.tail
            (record { n = length pkt; buffer = copy_at 0 pkt (slot q q.tail).buffer });
      tail = (q.tail + 1) % length q.queue;
      count = q.count + 1;
    }

-- The queue, `dst` and the result afterwards, or nothing while it waits.
unfoldable pub read_into : RegistrationQueue → Bytes → Option (RegistrationQueue × Bytes × Result ℕ)
read_into q dst =
    if q.count == 0 && not q.closed
    then none
    else if q.count == 0 && q.closed
    then some (q, dst, err eof)
    else if ltb (length dst) (slot q q.head).n
    then some (q, dst, err short_buffer)
    else some (
      record q { head = (q.head + 1) % length q.queue; count = q.count - 1 },
      copy_at 0 (take (slot q q.head).n (slot q q.head).buffer) dst,
      ok (slot q q.head).n,
    )

unfoldable pub close : RegistrationQueue → RegistrationQueue
close q = if q.closed then q else record q { closed = true }
