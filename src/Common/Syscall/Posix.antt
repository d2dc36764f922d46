-- ===== src/Common/Syscall/Posix.antt =====
-- The operating system, which src/common/syscall.c calls and does not implement: system calls that
-- answer or fail with an errno, and what POSIX says of those on a regular file.
use temp_files.Base.{ℕ, ◌+◌, ◌≤◌, ◌<◌, ◌≡◌, ◌⊎◌, String, List, length, take, drop, splice}
use temp_files.Base.Int.{ℤ}
use temp_files.Common.Filter.{OpenFlags}

pub data Answer (A : Type 0) : Type 0 where
  done : A → Answer A
  failed : ℕ → Answer A

pub data Whence : Type 0 where
  seek_set seek_end : Whence

pub record Kernel (World : Type 0) : Type 0 where
  pub read : ℤ → ℕ → World → Answer (List ℕ) × World
  pub write : ℤ → List ℕ → World → Answer ℕ × World
  pub open_file : String → OpenFlags → ℕ → World → Answer ℕ × World
  pub close : ℤ → World → Answer (Unit {0}) × World
  pub fsync : ℤ → World → Answer (Unit {0}) × World
  pub lseek : ℤ → ℕ → Whence → World → Answer ℕ × World
  pub unlink : String → World → Answer (Unit {0}) × World
  pub strerror : ℕ → String

-- An open regular file: its bytes and the file offset, and the calls on it while the disk works.
-- read(2) may return fewer bytes than asked for, and none only at the end of the file; write(2) may
-- write fewer; lseek(2) goes where it is told.
pub record RegularFiles {World : Type 0} (K : Kernel World) : Type 1 where
  pub IsOpenFd : ℤ → World → Type 0
  pub bytes : ℤ → World → List ℕ
  pub offset : ℤ → World → ℕ
  pub read_lem :
      (fd : ℤ) (size : ℕ) (w : World)
      → IsOpenFd fd w
      → (count : ℕ) × (w' : World) × (K.read fd size w
          ≡ (done (take count (drop (offset fd w) (bytes fd w))), w'))
        × (count ≤ size)
        × ((0 < count) ⊎ (length (bytes fd w) ≤ offset fd w) ⊎ (size ≡ 0))
        × IsOpenFd fd w'
        × (bytes fd w' ≡ bytes fd w)
        × (offset fd w' ≡ offset fd w + length (take count (drop (offset fd w) (bytes fd w))))
  pub write_lem :
      (fd : ℤ) (buf : List ℕ) (w : World)
      → IsOpenFd fd w
      → 0 < length buf
      → offset fd w ≤ length (bytes fd w)
      → (count : ℕ) × (w' : World) × (K.write fd buf w ≡ (done count, w'))
        × (0 < count)
        × (count ≤ length buf)
        × IsOpenFd fd w'
        × (bytes fd w' ≡ splice (offset fd w) (take count buf) (bytes fd w))
        × (offset fd w' ≡ offset fd w + count)
  pub lseek_set_lem :
      (fd : ℤ) (p : ℕ) (w : World)
      → IsOpenFd fd w
      → p ≤ length (bytes fd w)
      → (w' : World) × (K.lseek fd p seek_set w ≡ (done p, w'))
        × IsOpenFd fd w'
        × (bytes fd w' ≡ bytes fd w)
        × (offset fd w' ≡ p)
  pub lseek_end_lem :
      (fd : ℤ) (w : World)
      → IsOpenFd fd w
      → (w' : World) × (K.lseek fd 0 seek_end w ≡ (done (length (bytes fd w)), w'))
        × IsOpenFd fd w'
        × (bytes fd w' ≡ bytes fd w)
        × (offset fd w' ≡ length (bytes fd w))

-- Two open files that have nothing in common: a call that answers for the one leaves the other alone.
-- POSIX keeps the contents and the offsets of such files apart.
pub record IsSeparate {World : Type 0} (K : Kernel World) (R : RegularFiles K) : Type 1 where
  pub Apart : ℤ → ℤ → World → Type 0
  pub apart_sym : (a b : ℤ) (w : World) → Apart a b w → Apart b a w
  pub read_apart :
      (fd that : ℤ) (size : ℕ) (w : World)
      → R.IsOpenFd fd w
      → Apart fd that w
      → R.IsOpenFd that w
      → Apart fd that (K.read fd size w).1
        × R.IsOpenFd that (K.read fd size w).1
        × (R.bytes that (K.read fd size w).1 ≡ R.bytes that w)
        × (R.offset that (K.read fd size w).1 ≡ R.offset that w)
  pub write_apart :
      (fd that : ℤ) (buf : List ℕ) (w : World)
      → R.IsOpenFd fd w
      → Apart fd that w
      → R.IsOpenFd that w
      → Apart fd that (K.write fd buf w).1
        × R.IsOpenFd that (K.write fd buf w).1
        × (R.bytes that (K.write fd buf w).1 ≡ R.bytes that w)
        × (R.offset that (K.write fd buf w).1 ≡ R.offset that w)
  pub lseek_apart :
      (fd that : ℤ) (p : ℕ) (whence : Whence) (w : World)
      → R.IsOpenFd fd w
      → Apart fd that w
      → R.IsOpenFd that w
      → Apart fd that (K.lseek fd p whence w).1
        × R.IsOpenFd that (K.lseek fd p whence w).1
        × (R.bytes that (K.lseek fd p whence w).1 ≡ R.bytes that w)
        × (R.offset that (K.lseek fd p whence w).1 ≡ R.offset that w)
