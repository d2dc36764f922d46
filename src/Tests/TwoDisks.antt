-- ===== src/Tests/TwoDisks.antt =====
-- A kernel with two files in memory, one behind descriptor 3 and one behind any other: reads stop at the
-- end of the file, and all of a buffer is written. And the sinks on the two files.
use temp_files.Base.{
  ℕ, ◌+◌, ◌≤◌, ◌<◌, ◌≡◌, ◌⊎◌, refl, sym, ◌∙◌, ap, Bool, true, false, List, length, take, drop,
  splice, arith, ◌==◌,
}
use temp_files.Base.Int.{ℤ, pos, negsuc}
use temp_files.Common.Filter.{Filter}
use temp_files.Common.ByteFile.{FileView, IsByteFile, max_size}
use temp_files.Common.TwoFiles.{TwoFiles}
use temp_files.Common.Syscall.Posix.{
  Kernel, RegularFiles, IsSeparate, Answer, done, Whence, seek_set, seek_end,
}
use temp_files.File.FileSystemBottom.{FileSystemBottom, file_system_interface}
use temp_files.File.FileSystemBottom.Refinement.{IsOpenFile, file_view, file_system-IsByteFile}
use temp_files.File.FileSystemBottom.Separate.{file_system-TwoFiles}

pub record File : Type 0 where
  pub bytes : List ℕ
  pub offset : ℕ

pub record Disks : Type 0 where
  pub first : File
  pub second : File

abbrev pub get : Bool → Disks → File
get true w = w.first
get false w = w.second

abbrev pub put : Bool → File → Disks → Disks
put true d w = record w { first = d }
put false d w = record w { second = d }

abbrev pub side : ℤ → Bool
side (pos n) = n == 3
side (negsuc n) = false

abbrev chunk : File → ℕ → List ℕ
chunk d size = take size (drop d.offset d.bytes)

abbrev moved_to : File → ℕ → File
moved_to d p = record d { offset = p }

abbrev written : File → List ℕ → File
written d buf = record {
  bytes = splice d.offset (take (length buf) buf) d.bytes;
  offset = d.offset + length buf;
}

abbrev seek_to : Bool → ℕ → Whence → Disks → Answer ℕ × Disks
seek_to a p seek_set w = (done p, put a (moved_to (get a w) p) w)
seek_to a p seek_end w =
    (done (p + length (get a w).bytes), put a (moved_to (get a w) (p + length (get a w).bytes)) w)

abbrev pub two_disks : Kernel Disks
two_disks = record {
  read = λ fd size w. (
    done (chunk (get (side fd) w) size),
    put (side fd)
        (moved_to (get (side fd) w)
          ((get (side fd) w).offset + length (chunk (get (side fd) w) size)))
        w,
  );
  write = λ fd buf w. (done (length buf), put (side fd) (written (get (side fd) w) buf) w);
  open_file = λ path flags perm w. (done 3, w);
  close = λ fd w. (done tt, w);
  fsync = λ fd w. (done tt, w);
  lseek = λ fd p whence w. seek_to (side fd) p whence w;
  unlink = λ path w. (done tt, w);
  strerror = λ n. "failed";
}

abbrev Differ : Bool → Bool → Type 0
Differ true b = b ≡ false
Differ false b = b ≡ true

pub Differ-sym : (a b : Bool) → Differ a b → Differ b a
Differ-sym true true e = e
Differ-sym true false e = refl
Differ-sym false true e = refl
Differ-sym false false e = e

pub get-put : (a : Bool) (d : File) (w : Disks) → get a (put a d w) ≡ d
get-put true d w = refl
get-put false d w = refl

get_other : (a b : Bool) (d : File) (w : Disks) → Differ a b → get b (put a d w) ≡ get b w
get_other true b d w e = ap (λ x. get x (put true d w)) e ∙ ap (λ x. get x w) (sym e)
get_other false b d w e = ap (λ x. get x (put false d w)) e ∙ ap (λ x. get x w) (sym e)

pub at_end :
    (a : Bool) (w : Disks)
    → seek_to a 0 seek_end w
      ≡ (done (length (get a w).bytes), put a (moved_to (get a w) (length (get a w).bytes)) w)
at_end a w = ap (λ n. (done n, put a (moved_to (get a w) n) w)) (omega arith)

pub some_or_none : (size : ℕ) (d : File) → (0 < size) ⊎ (length d.bytes ≤ d.offset) ⊎ (size ≡ 0)
some_or_none size d = ground arith

abbrev pub two_disks-RegularFiles : RegularFiles two_disks
two_disks-RegularFiles = record {
  IsOpenFd = λ fd w. Unit {0};
  bytes = λ fd w. (get (side fd) w).bytes;
  offset = λ fd w. (get (side fd) w).offset;
  read_lem = λ fd size w o.
      let d = get (side fd) w in
      let d' = moved_to d (d.offset + length (chunk d size)) in
      let now = get-put (side fd) d' w in
      (
        size,
        put (side fd) d' w,
        refl,
        omega arith,
        some_or_none size d,
        tt,
        ap (λ x. x.bytes) now,
        ap (λ x. x.offset) now,
      );
  write_lem = λ fd buf w o n l.
      let d' = written (get (side fd) w) buf in
      let now = get-put (side fd) d' w in
      (
        length buf,
        put (side fd) d' w,
        refl,
        n,
        omega arith,
        tt,
        ap (λ x. x.bytes) now,
        ap (λ x. x.offset) now,
      );
  lseek_set_lem = λ fd p w o l.
      let d' = moved_to (get (side fd) w) p in
      let now = get-put (side fd) d' w in
      (put (side fd) d' w, refl, tt, ap (λ x. x.bytes) now, ap (λ x. x.offset) now);
  lseek_end_lem = λ fd w o.
      let d' = moved_to (get (side fd) w) (length (get (side fd) w).bytes) in
      let now = get-put (side fd) d' w in
      (put (side fd) d' w, at_end (side fd) w, tt, ap (λ x. x.bytes) now, ap (λ x. x.offset) now);
}

-- A change of one file leaves the other.
abbrev Kept : Bool → Bool → Disks → Disks → Type 0
Kept a b w w' =
    Differ a b
    × Unit {0}
    × ((get b w').bytes ≡ (get b w).bytes)
    × ((get b w').offset ≡ (get b w).offset)

pub put-Kept : (a b : Bool) (d : File) (w : Disks) → Differ a b → Kept a b w (put a d w)
put-Kept a b d w e =
    let same = get_other a b d w e in (e, tt, ap (λ x. x.bytes) same, ap (λ x. x.offset) same)

pub seek_to-Kept :
    (a b : Bool) (p : ℕ) (whence : Whence) (w : Disks)
    → Differ a b
    → Kept a b w (seek_to a p whence w).1
seek_to-Kept a b p seek_set w e = put-Kept a b (moved_to (get a w) p) w e
seek_to-Kept a b p seek_end w e = put-Kept a b (moved_to (get a w) (p + length (get a w).bytes)) w e

abbrev pub two_disks-IsSeparate : IsSeparate two_disks two_disks-RegularFiles
two_disks-IsSeparate = record {
  Apart = λ a b w. Differ (side a) (side b);
  apart_sym = λ a b w e. Differ-sym (side a) (side b) e;
  read_apart = λ fd that size w o e o'.
      let d = get (side fd) w in
      put-Kept (side fd) (side that) (moved_to d (d.offset + length (chunk d size))) w e;
  write_apart =
      λ fd that buf w o e o'. put-Kept (side fd) (side that) (written (get (side fd) w) buf) w e;
  lseek_apart = λ fd that p whence w o e o'. seek_to-Kept (side fd) (side that) p whence w e;
}

-- The sinks on the two files, opened for reading and writing.
abbrev pub sink : ℤ → FileSystemBottom
sink fd = record { fd = fd; writable = true; readable = true; eof = false }

abbrev pub memory : Filter Disks
memory = file_system_interface two_disks

abbrev pub memory_view : FileView memory
memory_view = file_view two_disks two_disks-RegularFiles

abbrev pub memory-IsByteFile : IsByteFile memory memory_view
memory-IsByteFile = file_system-IsByteFile two_disks two_disks-RegularFiles

abbrev pub memory-TwoFiles : TwoFiles memory memory_view
memory-TwoFiles = file_system-TwoFiles two_disks two_disks-RegularFiles two_disks-IsSeparate

pub sink-IsOpenFile :
    (fd : ℤ) (w : Disks)
    → (get (side fd) w).offset ≤ length (get (side fd) w).bytes
    → length (get (side fd) w).bytes ≤ max_size
    → IsOpenFile two_disks two_disks-RegularFiles (sink fd) w
sink-IsOpenFile fd w inside short = record {
  fd_open = tt;
  may_read = refl;
  may_write = refl;
  not_eof = refl;
  in_file = inside;
  short = short;
}
