-- ===== src/File/Buffered/View.antt =====
-- The file of bytes that a Buffered object stands for, and the invariant of its fields.
use temp_files.Base.{
  ℕ, ◌+◌, ◌%◌, ◌≤◌, ◌<◌, ◌≡◌, ◌⊎◌, inl, inr, sym, true, false, List, length, take, drop, splice,
  if◌then◌else◌, arith, length-take, length-splice, take-drop-splice,
}
use temp_files.Common.Filter.{Filter}
use temp_files.Common.ByteFile.{FileView, IsByteFile, max_size}
use temp_files.File.Buffered.State.{Buffered}

module _ {World : Type 0} (Next : Filter World) (V : FileView Next) where
  -- The file below, with the dirty data of the buffer over it.
  abbrev pub contents_of : Buffered Next → World → List ℕ
  contents_of this w =
      if this.dirty
      then splice this.buf_position (take this.buf_actual this.buf) (V.contents this.next w)
      else V.contents this.next w

  -- A dirty buffer: the file below stands at its start. A clean one: it holds what the file below
  -- holds there, and that file stands behind it.
  abbrev pub BufferState : Buffered Next → World → Type 0
  BufferState this w =
      ((this.dirty ≡ true) × (0 < this.buf_actual) × (V.pos this.next w ≡ this.buf_position))
      ⊎ ((this.dirty ≡ false)
          × (V.pos this.next w ≡ this.buf_position + this.buf_actual)
          × (take this.buf_actual this.buf
              ≡ take this.buf_actual (drop this.buf_position (V.contents this.next w))))

  -- The assertion 3a at the top of buffered.c would have the file below stand at `buf_position` for every
  -- partial buffer; a clean one that is partial has it stand behind the bytes of the buffer, as a full
  -- one has, since neither fillBuffer nor flushBuffer seeks back.
  pub record IsBuffered (this : Buffered Next) (w : World) : Type 0 where
    pub below : V.IsOpen this.next w
    pub block_pos : 0 < this.block_size
    pub block_le : this.block_size ≤ max_size
    pub buf_size : length this.buf ≡ this.block_size
    pub aligned : this.buf_position % this.block_size ≡ 0
    pub filled : this.buf_actual ≤ this.block_size
    pub behind : this.buf_position ≤ this.position
    pub in_block :
        ((0 < this.buf_actual) × (this.position ≤ this.buf_position + this.buf_actual))
        ⊎ ((this.buf_actual ≡ 0) × (this.position < this.buf_position + this.block_size))
    pub in_file : this.position ≤ length (contents_of this w)
    pub short : length (contents_of this w) ≤ max_size
    -- The buffer is empty, full, or the last of the file.
    pub whole :
        (this.buf_actual ≡ 0)
        ⊎ (this.buf_actual ≡ this.block_size)
        ⊎ (length (contents_of this w) ≤ this.buf_position + this.buf_actual)
    pub reads_below : this.readable ≡ true
    pub state : BufferState this w

  module _ (L : IsByteFile Next V) where
    -- The buffer lies in the file, and holds what the file holds there.
    pub buffer_in_file :
        {this : Buffered Next} {w : World}
        → IsBuffered this w
        → this.buf_position + this.buf_actual ≤ length (contents_of this w)
    buffer_in_file {this} {w} h = elim h.state [
      | inl (d, p, e) ↦ rw d (
          omega (
            arith,
            L.pos_in this.next w h.below,
            length-splice this.buf_position (take this.buf_actual this.buf)
                (V.contents this.next w),
            length-take this.buf_actual this.buf,
            h.buf_size,
            h.filled,
          ))
      | inr (d, e, c) ↦ rw d (omega (arith, L.pos_in this.next w h.below))
    ]

    pub buffer_same :
        {this : Buffered Next} {w : World}
        → IsBuffered this w
        → take this.buf_actual this.buf
          ≡ take this.buf_actual (drop this.buf_position (contents_of this w))
    buffer_same {this} {w} h = elim h.state [
      | inl (d, p, e) ↦ rw d (
          sym (
            take-drop-splice this.buf_position this.buf_actual (take this.buf_actual this.buf)
              (V.contents this.next w) (omega (arith, L.pos_in this.next w h.below))
              (omega (arith, length-take this.buf_actual this.buf, h.buf_size, h.filled))))
      | inr (d, e, c) ↦ rw d c
    ]
