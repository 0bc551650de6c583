-- ===== src/Exportbin/Safety.antt =====
-- No slice or index of `parse_frame` is out of bounds.
use adbc_driver_monetdb.Prelude.{
  ℕ, zero, suc, ◌-◌, ◌≤◌, ◌<◌, ◌≡◌, refl, ap, ◌≢◌, inl, inr, some, List, [], ◌∷◌, arith,
  Option-cases, Bytes, All, slice, position, length, take, drop, length-take, ℤ, >>=-ne-panic, ok,
  panic,
}
use adbc_driver_monetdb.Exportbin.Error.{FrameError}
use adbc_driver_monetdb.Exportbin.Frame.{
  ByteRange, read_error_message, find_error_message, column_range, read_ranges, le_i64, checked_neg,
}

pub slice-ok :
    (bytes : Bytes) (a b : ℕ)
    → a ≤ b
    → b ≤ length bytes
    → slice {E = FrameError} bytes a b ≡ ok (take (b - a) (drop a bytes))
slice-ok bytes a b h k = ground arith

pub position-lt :
    (value : ℕ) (bytes : Bytes) (i : ℕ) → position value bytes ≡ some i → i < length bytes
position-lt value [] i h = cc
position-lt value (b ∷ bs) i h = elim (Option-cases (position value bs)) [
  | inl e ↦ ground (arith, e)
  | inr (j, e) ↦ ground (arith, e, position-lt value bs j e)
]

pub read_error_message-ne-panic :
    (frame : Bytes) (offset : ℕ) → offset ≤ length frame → read_error_message frame offset ≢ panic
unfolding read_error_message
read_error_message-ne-panic frame offset h =
    rw (slice-ok frame offset (length frame) h (omega arith)) (λ e. cc)

pub find_error_message-ne-panic :
    (frame : Bytes) (toc_pos : ℤ) → 8 ≤ length frame → find_error_message frame toc_pos ≢ panic
unfolding find_error_message
find_error_message-ne-panic frame toc_pos h p = elim (Option-cases (checked_neg toc_pos)) [
  | inl e ↦ ground (arith, e)
  | inr (offset, e) ↦ ground (
    arith,
    e,
    read_error_message-ne-panic (take (length frame - 8) frame) offset,
    length-take (length frame - 8) frame,
  )
]

column_range-ne-panic :
    (start length : ℤ) (body_start toc_pos : ℕ)
    → column_range start length body_start toc_pos ≢ panic
unfolding column_range
column_range-ne-panic start length body_start toc_pos e = ground arith

pub read_ranges-ne-panic :
    (entries : ℕ) (toc : Bytes) (body_start toc_pos : ℕ)
    → read_ranges entries toc body_start toc_pos ≢ panic
unfolding read_ranges
read_ranges-ne-panic zero toc body_start toc_pos = λ e. cc
read_ranges-ne-panic (suc entries) toc body_start toc_pos =
    >>=-ne-panic _ _ (column_range-ne-panic _ _ body_start toc_pos) (λ range e.
      >>=-ne-panic _ _ (read_ranges-ne-panic entries (drop 16 toc) body_start toc_pos)
        (λ ranges k p. cc))

-- A range of bytes below `end`.
abbrev pub Within : ℕ → ℕ → ByteRange → Type 0
Within begin end range = (begin ≤ range.0) × (range.0 ≤ range.1) × (range.1 ≤ end)

column_range-Within :
    (start length : ℤ) (body_start toc_pos : ℕ) (range : ByteRange)
    → column_range start length body_start toc_pos ≡ ok range
    → Within body_start toc_pos range
unfolding column_range
column_range-Within start length body_start toc_pos range h = ground arith

read_ranges-suc :
    (entries : ℕ) (toc : Bytes) (body_start toc_pos : ℕ) (ranges : List ByteRange)
    → read_ranges (suc entries) toc body_start toc_pos ≡ ok ranges
    → (range : ByteRange) × (more : List ByteRange) × (column_range
          (le_i64 (take 8 toc))
          (le_i64 (take 8 (drop 8 toc)))
          body_start
          toc_pos
        ≡ ok range)
      × (read_ranges entries (drop 16 toc) body_start toc_pos ≡ ok more)
      × (ranges ≡ range ∷ more)
unfolding read_ranges
read_ranges-suc entries toc body_start toc_pos ranges h = ground arith

-- The ranges that are read: one for each entry, inside the body of the frame.
pub read_ranges-Within :
    (entries : ℕ) (toc : Bytes) (body_start toc_pos : ℕ) (ranges : List ByteRange)
    → read_ranges entries toc body_start toc_pos ≡ ok ranges
    → (length ranges ≡ entries) × All (Within body_start toc_pos) ranges
read_ranges-Within zero toc body_start toc_pos [] h = (refl, tt)
read_ranges-Within zero toc body_start toc_pos (r ∷ ranges) h = unfold read_ranges in cc
read_ranges-Within (suc entries) toc body_start toc_pos ranges h =
    let (range, more, first, others, split) =
      read_ranges-suc entries toc body_start toc_pos ranges h in
    let (count, within) = read_ranges-Within entries (drop 16 toc) body_start toc_pos more others in
    rw split (ap suc count, (column_range-Within _ _ body_start toc_pos range first, within))
