-- ===== src/Dispatch/Writer/Buffer.antt =====
-- The buffer and the batches: every record that was accepted is flushed once, in order.
use mathlib.Core.List.{append-nil, append_assoc}
use huxio.Prelude.{
  ℕ, ◌+◌, ◌≤◌, ◌<◌, ◌≡◌, refl, ap, ◌∙◌, Bool, true, false, ◌||◌, List, [], ◌∷◌, ◌++◌, arith, ltb,
  leb, ◌==◌, if◌then◌else◌, length, length-append, All, All-append, ℤ, Bool-cases, inl, inr,
}
use huxio.Dispatch.Ports.{AttemptRecord}
use huxio.Dispatch.Writer.{
  Writer, new_writer, enqueue, receive, receive_next, tick, shutdown, drain_records, flush_batch,
  writer_options,
}

pub data Event : Type 0 where
  enqueues : AttemptRecord → Event
  receives ticks : Event

unfoldable pub step : Writer → Event → Writer
unfolding enqueue receive tick
step w (enqueues r) = (enqueue r w).0
step w receives = receive w
step w ticks = tick w

unfoldable pub run : Writer → List Event → Writer
run w [] = w
run w (e ∷ es) = run (step w e) es

abbrev pub concat : List (List AttemptRecord) → List AttemptRecord
concat [] = []
concat (b ∷ bs) = b ++ concat bs

concat-append : (bs cs : List (List AttemptRecord)) → concat (bs ++ cs) ≡ concat bs ++ concat cs
concat-append [] cs = refl
concat-append (b ∷ bs) cs = rw (concat-append bs cs, append_assoc)

-- All records that are in the writer, or were: flushed, batched and buffered.
abbrev pub trail : Writer → List AttemptRecord
trail w = concat w.flushed ++ (w.batch ++ w.records)

-- The records that the calls of `Enqueue` put into the channel, in order.
abbrev pub accepted : Writer → List Event → List AttemptRecord
accepted w [] = []
accepted w (enqueues r ∷ es) =
    let rest = accepted (enqueue r w).0 es in if (enqueue r w).1 then r ∷ rest else rest
accepted w (receives ∷ es) = accepted (receive w) es
accepted w (ticks ∷ es) = accepted (tick w) es

ruleset lists = (concat-append, append-nil, append_assoc)

trail-tick : (w : Writer) → trail (tick w) ≡ trail w
unfolding tick
trail-tick w = elim (Bool-cases w.timer_running) [
  | inl on ↦ rw on (simp lists)
  | inr off ↦ rw off refl
]

trail-receive_next :
    (w : Writer) (rs : List AttemptRecord) → w.records ≡ rs → trail (receive_next rs w) ≡ trail w
unfolding receive_next
trail-receive_next w [] e = refl
trail-receive_next w (r ∷ rs) e = elim (Bool-cases (leb w.opts.batch_size (length w.batch + 1))) [
  | inl full ↦ rw (full, e) (simp lists)
  | inr more ↦ rw (more, e) (simp lists)
]

trail-receive : (w : Writer) → trail (receive w) ≡ trail w
unfolding receive
trail-receive w = trail-receive_next w w.records refl

trail-enqueue :
    (r : AttemptRecord) (w : Writer)
    → trail (enqueue r w).0 ≡ trail w ++ (if (enqueue r w).1 then r ∷ [] else [])
unfolding enqueue
trail-enqueue r w = elim (Bool-cases (ltb (length w.records) w.opts.buffer_size)) [
  | inl room ↦ rw room (simp lists)
  | inr full ↦ rw full (simp lists)
]

accepted-enqueues :
    (r : AttemptRecord) (w : Writer) (es : List Event)
    → accepted w (enqueues r ∷ es)
      ≡ (if (enqueue r w).1 then r ∷ [] else []) ++ accepted (enqueue r w).0 es
accepted-enqueues r w es = elim (Bool-cases (enqueue r w).1) [
  | inl room ↦ rw room refl
  | inr full ↦ rw full refl
]

trail-run : (w : Writer) (es : List Event) → trail (run w es) ≡ trail w ++ accepted w es
unfolding run step
trail-run w [] = simp lists
trail-run w (enqueues r ∷ es) =
    trail-run (enqueue r w).0 es ∙ rw (trail-enqueue, accepted-enqueues) (simp lists)
trail-run w (receives ∷ es) = trail-run (receive w) es ∙ rw trail-receive refl
trail-run w (ticks ∷ es) = trail-run (tick w) es ∙ rw trail-tick refl

concat-drain_records :
    (size : ℕ) (rs batch : List AttemptRecord) → concat (drain_records size rs batch) ≡ batch ++ rs
unfolding drain_records
concat-drain_records size [] batch = refl
concat-drain_records size (r ∷ rs) batch =
    cases (leb size (length batch + 1)) (concat-drain_records size rs [])
      (concat-drain_records size rs (batch ++ r ∷ []))
  where
    cases :
        (b : Bool)
        → concat (drain_records size rs []) ≡ rs
        → concat (drain_records size rs (batch ++ r ∷ [])) ≡ (batch ++ r ∷ []) ++ rs
        → concat (elim b [
          | true ↦ (batch ++ r ∷ []) ∷ drain_records size rs []
          | false ↦ drain_records size rs (batch ++ r ∷ [])
        ])
          ≡ batch ++ r ∷ rs
    cases true now later = rw now (simp lists)
    cases false now later = rw later (simp lists)

-- Whatever the order of sends, receives and timers, a shutdown flushes every record that `Enqueue`
-- accepted, each once, in the order of the sends.
pub shutdown_complete :
    (buffer batch interval : ℤ) (es : List Event)
    → let w = new_writer buffer batch interval in
      concat (shutdown (run w es)).flushed ≡ accepted w es
unfolding shutdown
shutdown_complete buffer batch interval es =
    let w = new_writer buffer batch interval in
    let end = run w es in
    concat-append end.flushed (drain_records end.opts.batch_size end.records end.batch)
    ∙ rw concat-drain_records (trail-run w es ∙ unfold new_writer in refl)

abbrev Fits : ℕ → List AttemptRecord → Type 0
Fits size b = length b ≤ size

-- No batch is larger than the batch size.
pub record IsBatched (w : Writer) : Type 0 where
  pub size_pos : 0 < w.opts.batch_size
  pub batch_below : length w.batch < w.opts.batch_size
  pub buffer_below : length w.records ≤ w.opts.buffer_size
  pub flushed_fit : All (Fits w.opts.batch_size) w.flushed

flush_batch-IsBatched :
    (w : Writer)
    → 0 < w.opts.batch_size
    → length w.batch ≤ w.opts.batch_size
    → length w.records ≤ w.opts.buffer_size
    → All (Fits w.opts.batch_size) w.flushed
    → IsBatched (flush_batch w)
flush_batch-IsBatched w pos fits below all = record {
  size_pos = pos;
  batch_below = pos;
  buffer_below = below;
  flushed_fit = All-append (Fits w.opts.batch_size) w.flushed (w.batch ∷ []) all (fits, tt);
}

receive_next-IsBatched :
    (w : Writer) (rs : List AttemptRecord)
    → w.records ≡ rs
    → IsBatched w
    → IsBatched (receive_next rs w)
unfolding receive_next
receive_next-IsBatched w [] e v = v
receive_next-IsBatched w (r ∷ rs) e v =
    let below : length rs + 1 ≤ w.opts.buffer_size =
      ground (arith, v.buffer_below, ap (length {A = AttemptRecord}) e) in
    let grown = length-append w.batch (r ∷ []) in
    elim (Bool-cases (leb w.opts.batch_size (length w.batch + 1))) [
      | inl full ↦ rw full (
          flush_batch-IsBatched
            (record w {
              records = rs;
              batch = w.batch ++ r ∷ [];
              timer_running = w.timer_running || (length w.batch == 0);
            })
            v.size_pos (omega (arith, grown)) (omega arith) v.flushed_fit)
      | inr more ↦ rw more (record {
        size_pos = v.size_pos;
        batch_below = ground (arith, grown);
        buffer_below = omega arith;
        flushed_fit = v.flushed_fit;
      })
    ]

enqueue-IsBatched : (r : AttemptRecord) (w : Writer) → IsBatched w → IsBatched (enqueue r w).0
unfolding enqueue
enqueue-IsBatched r w v = elim (Bool-cases (ltb (length w.records) w.opts.buffer_size)) [
  | inl room ↦ rw room (record {
    size_pos = v.size_pos;
    batch_below = v.batch_below;
    buffer_below = ground (arith, length-append w.records (r ∷ []));
    flushed_fit = v.flushed_fit;
  })
  | inr full ↦ rw full v
]

tick-IsBatched : (w : Writer) → IsBatched w → IsBatched (tick w)
unfolding tick
tick-IsBatched w v = elim (Bool-cases w.timer_running) [
  | inl on ↦ rw on (flush_batch-IsBatched w v.size_pos (omega arith) v.buffer_below v.flushed_fit)
  | inr off ↦ simp off v
]

step-IsBatched : (w : Writer) (e : Event) → IsBatched w → IsBatched (step w e)
unfolding step
step-IsBatched w (enqueues r) v = enqueue-IsBatched r w v
step-IsBatched w receives v = receive_next-IsBatched w w.records refl v
step-IsBatched w ticks v = tick-IsBatched w v

new_writer-IsBatched : (buffer batch interval : ℤ) → IsBatched (new_writer buffer batch interval)
unfolding new_writer writer_options
new_writer-IsBatched buffer batch interval = ground arith

run-keeps : (w : Writer) (es : List Event) → IsBatched w → IsBatched (run w es)
unfolding run
run-keeps w [] v = v
run-keeps w (e ∷ es) v = run-keeps (step w e) es (step-IsBatched w e v)

-- The writer's memory is bounded, whatever happens: the channel never holds more than its size, the
-- open batch is below the batch size, and no batch that was flushed exceeds it.
pub run-IsBatched :
    (buffer batch interval : ℤ) (es : List Event)
    → IsBatched (run (new_writer buffer batch interval) es)
run-IsBatched buffer batch interval es =
    run-keeps (new_writer buffer batch interval) es (new_writer-IsBatched buffer batch interval)
