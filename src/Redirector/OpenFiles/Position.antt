-- ===== src/Redirector/OpenFiles/Position.antt =====
-- The position in an open file after a read or a write.
use fujinet_msdos.Base.{
  ℕ, ◌+◌, ◌≤◌, ◌<◌, ◌≡◌, ◌⊎◌, refl, inl, inr, true, arith, u16, ◌==◌, Bool-cases, Bytes, take,
}
use fujinet_msdos.Redirector.State.{FujiFs, Redir, has_bits, fail}
use fujinet_msdos.Redirector.OpenFiles.{read_count, sought, read_file, write_file}

-- A file that the DOS can address to its end, with the position within it, and a count of 16 bits.
pub record IsPlaced {W : Type 0} (s : Redir W) : Type 0 where
  pub pos_within : s.sft.pos ≤ s.sft.size
  pub size_within : s.sft.size < 4294901760
  pub count_within : s.r.cx < 65536

-- The position has moved by the count that is returned, and lies within the file.
pub record Moved {W : Type 0} (s s' : Redir W) : Type 0 where
  pub pos_within : s'.sft.pos ≤ s'.sft.size
  pub pos_is : s'.sft.pos ≡ s.sft.pos + s'.r.cx
  pub count_within : s'.r.cx ≤ s.r.cx
  pub size_within : s.sft.size ≤ s'.sft.size

-- Either the call is refused and the entry of the file is as it was, or the position has moved.
pub data Ended {W : Type 0} (s s' : Redir W) : Type 0 where
  refused : s'.r.carry ≡ true → s'.sft ≡ s.sft → Ended s s'
  done : s'.r.carry ≡ s.r.carry → Moved s s' → Ended s s'

module _ {W : Type 0} (fs : FujiFs W) where
  count_lem :
      (s : Redir W)
      → IsPlaced s
      → (read_count s.sft s.r.cx ≤ s.r.cx) × (s.sft.pos + read_count s.sft s.r.cx ≤ s.sft.size)
  unfolding read_count
  count_lem s v =
      let p = v.pos_within in let q = v.size_within in let c = v.count_within in ground arith

  -- A read of a file with its position within its size, a size below 2^32 - 2^16 and a 16-bit
  -- count, from a host that gives no more than it is asked for: the size stays, and either the
  -- call fails and the entry of the file is as it was, or the position has moved by the count
  -- that is returned, no more than was asked for, and is still within the size.
  pub read_file-Ended :
      (s : Redir W)
      → IsPlaced s
      → ((w : W) (handle count : ℕ) → (fs.read w handle count).0 ≤ count)
      → Ended s (read_file fs s) × (s.sft.size ≡ (read_file fs s).sft.size)
  unfolding read_file fail
  read_file-Ended s v honest =
      let (within, fits) = count_lem s v in
      let count = read_count s.sft s.r.cx in
      let q = v.size_within in
      let c = v.count_within in
      let got = honest (sought fs s.sft s.world) s.sft.file_handle count in
      elim (Bool-cases (has_bits s.sft.open_mode 1)) [
        | inl closed ↦ (rw (read_file, closed) (refused refl refl), rw (read_file, closed) refl)
        | inr readable ↦ elim (Bool-cases (count == 0)) [
          | inl nothing ↦ (
            rw (read_file, readable, nothing)
                (done refl (record {
                  pos_within = v.pos_within;
                  pos_is = ground arith;
                  count_within = within;
                  size_within = omega arith;
                })),
            rw (read_file, readable, nothing) refl,
          )
          | inr some_count ↦ (
            rw (read_file, readable, some_count)
                (done refl (record {
                  pos_within = omega arith;
                  pos_is = omega arith;
                  count_within = omega arith;
                  size_within = omega arith;
                })),
            rw (read_file, readable, some_count) refl,
          )
        ]
      ]

  -- A write to a file with its position within its size, a size below 2^32 - 2^16 and a 16-bit
  -- count, to a host that returns 65535 or no more than it is given: either the call fails and
  -- the entry of the file is as it was, or the position has moved by the count that is returned,
  -- no more than was asked for, it is within the size, and the size is no smaller.
  pub write_file-Ended :
      (s : Redir W)
      → IsPlaced s
      → ((w : W) (handle count : ℕ) (content : Bytes)
          → ((fs.write w handle content count).0 ≡ 65535)
            ⊎ ((fs.write w handle content count).0 ≤ count))
      → Ended s (write_file fs s)
  unfolding write_file fail
  write_file-Ended s v honest =
      let p = v.pos_within in
      let q = v.size_within in
      let c = v.count_within in
      let got = honest (sought fs s.sft s.world) s.sft.file_handle s.r.cx (take s.r.cx s.dta) in
      elim (Bool-cases (has_bits s.sft.open_mode 3)) [
        | inr closed ↦ rw (write_file, closed) (refused refl refl)
        | inl writable ↦
            elim (Bool-cases (
              u16
                (fs.write (sought fs s.sft s.world) s.sft.file_handle (take s.r.cx s.dta) s.r.cx).0
              == 65535)) [
                | inl bad ↦ rw (write_file, writable, bad) (refused refl refl)
                | inr good ↦
                    rw (write_file, writable, good)
                      (done refl (record {
                        pos_within = ground arith;
                        pos_is = ground arith;
                        count_within = ground arith;
                        size_within = ground arith;
                      }))
              ]
      ]
