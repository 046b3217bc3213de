-- ===== src/Tests/Requests.antt =====
-- A run of the theorem on the write requests of virtio_blk.c, in the RAM of the whole machine.
use xemu.Base.{ℕ, ◌==◌, if◌then◌else◌, ◌≡◌, List, [], ◌∷◌, ok, some, pure, refl, inl, arith}
use xemu.Space.{as_read_blob, from_bytes, drop}
use xemu.System.{Devices, system_bus}
use xemu.Virtio.{Iovec, VqRequest, Memory}
use xemu.VirtioBlk.{DiskFile, VirtioBlk, virtio_blk_init, disk_read, complete, do_request}
use xemu.VirtioBlk.Kept.{vector_bytes, do_request-disk_read}
use xemu.Blob.InRam.{flat_ram}
use xemu.Tests.Devices.{silent, started, small_disk}

-- In RAM a header that asks for a write to sector 1, and at 0x80000010 the byte 16 and zeros.
abbrev with_header : Devices (Unit {0})
with_header = record started {
  ram_state = record {
    mem = λ a. if a == 0 then 1 else if a == 8 then 1 else if a == 16 then 16 else 0;
    mem_size = 0x80000000;
  };
}

abbrev head : Iovec
head = record { base = 0x80000000; len = 16; flags = 1 }

abbrev bytes_to_write : Iovec
bytes_to_write = record { base = 0x80000010; len = 8; flags = 1 }

abbrev status : Iovec
status = record { base = 0x80000020; len = 1; flags = 2 }

abbrev write_request : VqRequest
write_request = record { index = 0; in_len = 1; iov = head ∷ bytes_to_write ∷ status ∷ [] }

abbrev blk : VirtioBlk
blk = record (virtio_blk_init small_disk 7) { file = some small_disk }

abbrev memory : Memory (Devices (Unit {0}))
memory = record {
  read_nommu = (system_bus silent).read_nommu;
  write_nommu = (system_bus silent).write_nommu;
  signal = λ n. pure tt;
}

do_request-disk_read_example :
    (bytes : List ℕ) × (file' : DiskFile) × (as_read_blob
        (memory.read_nommu)
        0x80000010
        8
        with_header
      ≡ ok (bytes, with_header))
    × (do_request memory blk write_request with_header
        ≡ complete memory (record blk { file = some file' }) write_request with_header)
    × (disk_read file' 512 8 ≡ ok bytes)
    × (disk_read file' 0 512 ≡ disk_read small_disk 0 512)
unfolding from_bytes drop
do_request-disk_read_example =
    do_request-disk_read (flat_ram silent) (omega arith) (λ n. pure tt) blk write_request 1 head
      bytes_to_write status small_disk with_header
      (1 ∷ 0 ∷ 0 ∷ 0 ∷ 0 ∷ 0 ∷ 0 ∷ 0 ∷ 1 ∷ 0 ∷ 0 ∷ 0 ∷ 0 ∷ 0 ∷ 0 ∷ 0 ∷ []) 0 512 refl refl refl refl
      refl
      (vector_bytes (flat_ram silent) (omega arith) head with_header refl refl (omega arith)
        (omega arith))
      refl refl (omega arith) refl (omega arith) (omega arith) (inl (omega arith)) (omega arith)
