-- ===== src/Net/Codec/Agreement.antt =====
-- The codec reads what `WireFrame::from_bytes` parses.
use wfl_db.Core.LittleEndian.{u32_from_le}
use wfl_db.Prelude.{
  ◌∙◌, append-nil, map, append_assoc, flatten, List, refl, arith, false, suc, ltb, ◌*◌, ◌+◌, ◌∷◌,
  ◌^◌, ◌<◌, length, [], ◌++◌, Bytes, ◌≡◌,
}
use wfl_db.Core.Outcome.{Outcome, ok, Answer, done, failed}
use wfl_db.Net.Frame.{WireFrame, to_bytes, from_bytes}
use wfl_db.Net.Frame.RoundTrip.{from_bytes-to_bytes, drop_four}
use wfl_db.Net.Codec.{u32_from_le, Writer, read_frame, write_frame, unexpected_eof}

abbrev pub as_io : Outcome WireFrame → Answer WireFrame
as_io (ok f) = done f
as_io _ = failed unexpected_eof

-- On a whole input the codec and the parser give the same frame, and fail together.
pub read_frame-eq-from_bytes : (input : Bytes) → read_frame input ≡ as_io (from_bytes input)
unfolding read_frame from_bytes u32_from_le
read_frame-eq-from_bytes (a ∷ b ∷ c ∷ d ∷ rest) =
    let n = a + b * 256 + c * 2 ^ 16 + d * 2 ^ 24 in
    let long : ltb (suc (suc (suc (suc (length rest))))) 4 ≡ false = ground arith in
    rw (long, drop_four) (ground arith)
read_frame-eq-from_bytes _ = refl

-- A writer that takes everything: `written` is what it was given, in order.
pub record Takes (writer : Writer) (written : writer.W → Bytes) : Type 0 where
  pub write_all_done : (b : Bytes) (w : writer.W) → (writer.write_all b w).0 ≡ done tt
  pub write_all_written :
      (b : Bytes) (w : writer.W) → written (writer.write_all b w).1 ≡ written w ++ b
  pub flush_done : (w : writer.W) → (writer.flush w).0 ≡ done tt
  pub flush_written : (w : writer.W) → written (writer.flush w).1 ≡ written w

-- Frames written one after another, up to the first failure.
abbrev pub write_frames :
    (writer : Writer) → List WireFrame → writer.W → Answer (Unit {0}) × writer.W
write_frames writer [] w = (done tt, w)
write_frames writer (f ∷ fs) w =
    let (sent, w1) = write_frame writer f w in
    elim sent [ failed e ↦ (failed e, w1) | done u ↦ write_frames writer fs w1 ]

module _ (writer : Writer) (written : writer.W → Bytes) (t : Takes writer written) where
  write_frame_takes :
      (f : WireFrame) (w : writer.W)
      → ((write_frame writer f w).0 ≡ done tt)
        × (written (write_frame writer f w).1 ≡ written w ++ to_bytes f)
  unfolding write_frame
  write_frame_takes f w =
      let sent = t.write_all_done (to_bytes f) w in
      let w1 = (writer.write_all (to_bytes f) w).1 in
      (
        rw (sent, t.flush_done w1),
        rw (sent, t.flush_written w1, t.write_all_written (to_bytes f) w),
      )

  write_frames_takes :
      (fs : List WireFrame) (w : writer.W)
      → ((write_frames writer fs w).0 ≡ done tt)
        × (written (write_frames writer fs w).1 ≡ written w ++ flatten (map to_bytes fs))
  unfolding flatten
  write_frames_takes [] w = (refl, rw append-nil)
  write_frames_takes (f ∷ fs) w =
      let (sent, after) = write_frame_takes f w in
      let (rest, end) = write_frames_takes fs (write_frame writer f w).1 in
      (rw (write_frames, sent) rest, rw (write_frames, sent) (end ∙ rw (after, append_assoc)))

to_bytes-append :
    (f : WireFrame) (more : Bytes)
    → to_bytes f ++ more ≡ to_bytes (record { header = f.header; body = f.body ++ more })
unfolding to_bytes
to_bytes-append f more = simp append_assoc

-- With a writer that takes everything and is empty, writing some frames, the first with a header
-- shorter than 4 GiB, succeeds, and `read_frame` of what was written returns one frame: the header of
-- the first one, and a body of its body and all the bytes of the frames after it. So a single frame
-- comes back as it was, and several on one stream are not told apart.
pub read_frame-write_frames :
    (writer : Writer) (written : writer.W → Bytes) (frame : WireFrame) (more : List WireFrame)
    (w : writer.W)
    → Takes writer written
    → written w ≡ []
    → length frame.header < 2 ^ 32
    → ((write_frames writer (frame ∷ more) w).0 ≡ done tt)
      × (read_frame (written (write_frames writer (frame ∷ more) w).1)
          ≡ done
              (record { header = frame.header; body = frame.body ++ flatten (map to_bytes more) }))
unfolding flatten
read_frame-write_frames writer written frame more w t empty short =
    let (sent, end) = write_frames_takes writer written t (frame ∷ more) w in
    let joined : WireFrame = record {
      header = frame.header;
      body = frame.body ++ flatten (map to_bytes more);
    } in
    (
      sent,
      rw
          (
            end,
            empty,
            to_bytes-append,
            read_frame-eq-from_bytes (to_bytes joined),
            from_bytes-to_bytes joined short,
          )
          refl,
    )
