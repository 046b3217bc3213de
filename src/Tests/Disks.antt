-- ===== src/Tests/Disks.antt =====
-- Runs of the theorems on uart.c, rtc.c, pci_host.c, the clock of util.c and the virtio disk.
use xemu.Base.{
  ℕ, ◌+◌, ◌*◌, ◌%◌, ◌^◌, ◌<◌, ◌≤◌, ◌≡◌, refl, arith, true, false, ◌||◌, ◌==◌, if◌then◌else◌, [],
  ◌∷◌, none, some, Returns, ok, pure,
}
use xemu.Space.{no_params, as_read_blob, to_bytes, from_bytes, drop}
use xemu.Rtc.{Rtc}
use xemu.Plic.{Plic, plic_init, plic_signal}
use xemu.Uart.{Port, has, uart_init, uart_read, routine}
use xemu.Uart.Receive.{uart_read-routine}
use xemu.Ram.{Ram, ram_read, ram_write, load_le, store_le, modified, is_lr_sc}
use xemu.Virtio.{Vring, Vqueue, VqRequest, Memory}
use xemu.Virtio.Queue.{
  vring_init, vqueue_pop, desc_of, vring_avail_idx, vring_avail_ring, vring_used_write,
}
use xemu.Virtio.Layout.{vring_init_layout}
use xemu.VirtioMmio.{virtio_mmio_write}
use xemu.VirtioBlk.{DiskFile, VirtioBlk, do_request}
use xemu.VirtioBlk.Steps.{
  Engine, Reachable, here, after, register, pop, hand_over, take, work, with_vq, pending, idle,
  Reachable-pending,
}
use xemu.VirtioBlk.Indices.{in_flight, Reachable-indices}

abbrev rtc : Rtc
rtc = record { time_high = 9; alarm_next = 0; alarm_running = 0; now = 1700000000123456789 }

-- The port of source 10 with the receive interrupt enabled.
abbrev port : Port
port = record { uart = record (uart_init 10) { ier = 1 }; plic = plic_init; output = [] }

abbrev signalled : Plic
signalled = record plic_init { pending = 0x400 ∷ 0 ∷ 0 ∷ 0 ∷ 0 ∷ [] }

port_signal : plic_signal 10 plic_init ≡ ok (tt, signalled)
unfolding plic_signal plic_init
port_signal = refl

uart_read-routine_example :
    Returns
      (λ (goes_on, t).
        (goes_on ≡ true)
        × (t.plic ≡ signalled)
        × (t.uart.iir ≡ 0x04)
        × (has t.uart.lsr 1 ≡ true)
        × Returns
            (λ (b, u). (b ≡ 65) × (has u.uart.lsr 1 ≡ false) × (u.uart.iir ≡ 0x01))
            (uart_read 0 1 no_params t))
      (routine 65 port)
unfolding uart_init
uart_read-routine_example =
    uart_read-routine 65 1 port signalled (omega arith) (λ e. omega (arith, e)) refl refl
      port_signal

abbrev ring : Vring
ring = record { num = 8; align = 4096; desc = 0; avail = 0; used = 0 }

vring_init_layout_example :
    Returns
      (λ r.
        (r.desc ≡ 0x80000 * 2 ^ 12)
        × (r.avail ≡ r.desc + 8 * 16)
        × (r.avail + (4 + 2 * 8) ≤ r.used)
        × (r.used < r.avail + (4 + 2 * 8) + 4096)
        × (r.used % 4096 ≡ 0))
      (vring_init ring 0x80000 12)
vring_init_layout_example =
    vring_init_layout ring 0x80000 12 (omega arith) (omega arith) (omega arith) (omega arith)

abbrev disk : DiskFile
disk = record { contents = λ j. j; size = 1024 }

-- A queue of two entries in 256 bytes of memory: one request, of a header that asks for a flush and a
-- byte for the status, in an indirect table.
abbrev byte_at : ℕ → ℕ
byte_at j =
    if j == 64
    then 160
    else if j == 72
    then 32
    else if j == 76
    then 4
    else if j == 98
    then 1
    else if j == 160
    then 200
    else if j == 168
    then 16
    else if j == 172 || j == 174
    then 1
    else if j == 176
    then 224
    else if j == 184
    then 1
    else if j == 188
    then 2
    else if j == 200
    then 4
    else 0

abbrev memory : Ram
memory = record { mem = byte_at; mem_size = 256 }

abbrev reach : Memory Ram
reach = record { read_nommu = ram_read; write_nommu = ram_write; signal = λ id. pure tt }

abbrev ready_queue : Vqueue
ready_queue = record {
  vring = record { num = 2; align = 16; desc = 64; avail = 96; used = 128 };
  last_avail_idx = 0;
  used_idx = 0;
}

abbrev ready : VirtioBlk
ready = record {
  vdev = record {
    id = 2;
    irq_num = 1;
    isr = 0;
    host_features_sel = false;
    guest_features = 0;
    guest_features_sel = false;
    guest_page_shift = 12;
    queue_sel = 0;
    status = 7;
    vq = ready_queue;
    config = [];
  };
  file = some disk;
}

abbrev flush : VqRequest
flush = record {
  index = 0;
  in_len = 1;
  iov = record { base = 200; len = 16; flags = 1 } ∷ record { base = 224; len = 1; flags = 2 } ∷ [];
}

abbrev moved_queue : Vqueue
moved_queue = record ready_queue { last_avail_idx = 1 }

abbrev ready_moved : VirtioBlk
ready_moved = with_vq ready moved_queue

pops_flush : vqueue_pop reach ready.vdev ready_queue memory ≡ ok ((some flush, moved_queue), memory)
unfolding vqueue_pop desc_of as_read_blob ram_read load_le to_bytes vring_avail_idx vring_avail_ring
pops_flush = refl

abbrev carried : VirtioBlk × Ram
carried = elim (do_request reach ready_moved flush memory) [ ok r ↦ r | _ ↦ (ready_moved, memory) ]

does_flush : do_request reach ready_moved flush memory ≡ ok carried
unfolding do_request as_read_blob ram_read load_le to_bytes from_bytes drop ram_write store_le
    modified is_lr_sc vring_used_write
does_flush = refl

notifies : virtio_mmio_write (some ready.vdev) 0x050 0 4 ≡ ok (some ready.vdev, true)
unfolding virtio_mmio_write
notifies = refl

-- The guest notifies the disk, the request is popped, handed over, taken and carried out.
abbrev at_end : Engine Ram
at_end = record {
  machine = carried.1;
  blk = carried.0;
  notified = true;
  held = none;
  slot = none;
  working = none;
  popped = flush ∷ [];
  completed = flush ∷ [];
}

run : Reachable reach (idle memory ready) at_end
run =
    let e0 = idle memory ready in
    let e1 = record e0 { notified = true } in
    let e2 = record e1 { blk = ready_moved; held = some flush; popped = flush ∷ [] } in
    let e3 = record e2 { held = none; slot = some flush } in
    let e4 = record e3 { slot = none; working = some flush } in
    after e0 e4 at_end
      (after e0 e3 e4
        (after e0 e2 e3
          (after e0 e1 e2
            (after e0 e0 e1 (here e0) (register e0 0x050 0 4 ready.vdev true refl notifies))
            (pop e1 flush moved_queue memory refl refl pops_flush))
          (hand_over e2 flush refl refl))
        (take e3 flush refl refl))
      (work e4 flush carried.0 carried.1 refl does_flush)

Reachable-pending_example : at_end.popped ≡ pending at_end
Reachable-pending_example = Reachable-pending reach memory ready at_end run

Reachable-indices_example :
    ((carried.0.vdev.vq.used_idx + in_flight at_end) % 2 ^ 16 ≡ carried.0.vdev.vq.last_avail_idx)
    × (in_flight at_end ≤ 3)
Reachable-indices_example = Reachable-indices reach memory ready at_end refl refl run
