-- ===== src/Net/Metrics/Totals.antt =====
-- What the counters hold after any sequence of records.
use wfl_db.Net.Metrics.{
  avg_serialize_time_us, avg_parse_time_us, Float, record_serialize_time, record_parse_time, new,
  record_frame_received, record_frame_sent, WireMetrics,
}
use wfl_db.Net.Metrics.{new}
use wfl_db.Prelude.{
  false, ◌==◌, if◌then◌else◌, zero, suc, refl, [], arith, ◌%◌, ◌^◌, ◌+◌, ◌∷◌, ◌≡◌, ◌<◌, List, ℕ,
}

pub data Event : Type 0 where
  frame_sent : ℕ → Event
  frame_received : ℕ → Event
  parsed : ℕ → Event
  serialized : ℕ → Event

abbrev pub record_event : Event → WireMetrics → WireMetrics
record_event (frame_sent size) = record_frame_sent size
record_event (frame_received size) = record_frame_received size
record_event (parsed t) = record_parse_time t
record_event (serialized t) = record_serialize_time t

abbrev pub record_events : List Event → WireMetrics → WireMetrics
record_events [] m = m
record_events (e ∷ es) m = record_events es (record_event e m)

abbrev pub total : (Event → ℕ) → List Event → ℕ
total w [] = 0
total w (e ∷ es) = w e + total w es

-- What one event adds to each counter.
abbrev pub one_sent : Event → ℕ
one_sent (frame_sent _) = 1
one_sent _ = 0

abbrev pub one_received : Event → ℕ
one_received (frame_received _) = 1
one_received _ = 0

abbrev pub size_sent : Event → ℕ
size_sent (frame_sent size) = size
size_sent _ = 0

abbrev pub size_received : Event → ℕ
size_received (frame_received size) = size
size_received _ = 0

abbrev pub time_parsed : Event → ℕ
time_parsed (parsed t) = t
time_parsed _ = 0

abbrev pub time_serialized : Event → ℕ
time_serialized (serialized t) = t
time_serialized _ = 0

-- A counter that every event moves by its weight.
Moves : (WireMetrics → ℕ) → (Event → ℕ) → Type 0
Moves f w =
    (e : Event) (m : WireMetrics) → f m < 2 ^ 64 → f (record_event e m) ≡ (f m + w e) % 2 ^ 64

total-Moves :
    (f : WireMetrics → ℕ) (w : Event → ℕ)
    → Moves f w
    → (es : List Event) (m : WireMetrics) → f m < 2 ^ 64
    → f (record_events es m) ≡ (f m + total w es) % 2 ^ 64
unfolding Moves
total-Moves f w moves [] m h = omega arith
total-Moves f w moves (e ∷ es) m h =
    let step = moves e m h in
    omega (arith, step, total-Moves f w moves es (record_event e m) (omega (arith, step)))

-- A total time over a number of frames, and zero without a frame.
abbrev pub average : (float : Float) → ℕ → ℕ → float.F
average float time zero = float.zero
average float time (suc n) = float.div (float.of_u64 time) (float.of_u64 (suc n))

average-if :
    (float : Float) (time n : ℕ)
    → (if n == 0 then float.zero else float.div (float.of_u64 time) (float.of_u64 n))
      ≡ average float time n
average-if float time zero = refl
average-if float time (suc n) = let e : suc n == 0 ≡ false = ground arith in rw e

-- Every counter is the sum of what the events added to it, modulo 2 ^ 64, and an average is a time
-- over a number of frames.
pub record Counts (float : Float) (es : List Event) (m : WireMetrics) : Type 0 where
  pub frames_sent : m.frames_sent ≡ total one_sent es % 2 ^ 64
  pub frames_received : m.frames_received ≡ total one_received es % 2 ^ 64
  pub bytes_sent : m.bytes_sent ≡ total size_sent es % 2 ^ 64
  pub bytes_received : m.bytes_received ≡ total size_received es % 2 ^ 64
  pub parse_time_us : m.parse_time_us ≡ total time_parsed es % 2 ^ 64
  pub serialize_time_us : m.serialize_time_us ≡ total time_serialized es % 2 ^ 64
  pub avg_parse_time :
      avg_parse_time_us float m
      ≡ average float (total time_parsed es % 2 ^ 64) (total one_received es % 2 ^ 64)
  pub avg_serialize_time :
      avg_serialize_time_us float m
      ≡ average float (total time_serialized es % 2 ^ 64) (total one_sent es % 2 ^ 64)

keeps : (n : ℕ) → n < 2 ^ 64 → n ≡ (n + 0) % 2 ^ 64
keeps n h = omega arith

frames_sent-Moves : Moves (λ m. m.frames_sent) one_sent
unfolding Moves record_frame_sent record_frame_received record_parse_time record_serialize_time
frames_sent-Moves (frame_sent _) m h = refl
frames_sent-Moves _ m h = keeps _ h

frames_received-Moves : Moves (λ m. m.frames_received) one_received
unfolding Moves record_frame_sent record_frame_received record_parse_time record_serialize_time
frames_received-Moves (frame_received _) m h = refl
frames_received-Moves _ m h = keeps _ h

bytes_sent-Moves : Moves (λ m. m.bytes_sent) size_sent
unfolding Moves record_frame_sent record_frame_received record_parse_time record_serialize_time
bytes_sent-Moves (frame_sent _) m h = refl
bytes_sent-Moves _ m h = keeps _ h

bytes_received-Moves : Moves (λ m. m.bytes_received) size_received
unfolding Moves record_frame_sent record_frame_received record_parse_time record_serialize_time
bytes_received-Moves (frame_received _) m h = refl
bytes_received-Moves _ m h = keeps _ h

parse_time_us-Moves : Moves (λ m. m.parse_time_us) time_parsed
unfolding Moves record_frame_sent record_frame_received record_parse_time record_serialize_time
parse_time_us-Moves (parsed _) m h = refl
parse_time_us-Moves _ m h = keeps _ h

serialize_time_us-Moves : Moves (λ m. m.serialize_time_us) time_serialized
unfolding Moves record_frame_sent record_frame_received record_parse_time record_serialize_time
serialize_time_us-Moves (serialized _) m h = refl
serialize_time_us-Moves _ m h = keeps _ h

-- The sum from `new` on.
total-new :
    (f : WireMetrics → ℕ) (w : Event → ℕ)
    → Moves f w
    → f new ≡ 0
    → (es : List Event) → f (record_events es new) ≡ total w es % 2 ^ 64
total-new f w moves z es = omega (arith, z, total-Moves f w moves es new (omega (arith, z)))

-- After any records from `new` on, every counter is the sum of what they added to it, modulo 2 ^ 64;
-- the averages are the time of the parses over the number of frames received, and the time of the
-- serialisations over the number of frames sent, and zero without a frame.
pub record_events-Counts :
    (float : Float) (es : List Event) → Counts float es (record_events es new)
unfolding new avg_parse_time_us avg_serialize_time_us
record_events-Counts float es =
    let n0 = total-new (λ m. m.frames_sent) one_sent frames_sent-Moves refl es in
    let n1 = total-new (λ m. m.frames_received) one_received frames_received-Moves refl es in
    let n2 = total-new (λ m. m.bytes_sent) size_sent bytes_sent-Moves refl es in
    let n3 = total-new (λ m. m.bytes_received) size_received bytes_received-Moves refl es in
    let n4 = total-new (λ m. m.parse_time_us) time_parsed parse_time_us-Moves refl es in
    let n5 = total-new (λ m. m.serialize_time_us) time_serialized serialize_time_us-Moves refl es in
    record {
      frames_sent = n0;
      frames_received = n1;
      bytes_sent = n2;
      bytes_received = n3;
      parse_time_us = n4;
      serialize_time_us = n5;
      avg_parse_time = rw (n1, n4) (average-if float _ _);
      avg_serialize_time = rw (n0, n5) (average-if float _ _);
    }
