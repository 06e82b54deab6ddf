-- ===== src/FileWriter/Faithful.antt =====
-- raw_vrt_file_writer.hpp: what the file and the buffer hold together after a call.
use vrtio.Common.{
  ℕ, suc, ◌+◌, ◌*◌, ◌%◌, ◌≤◌, ◌≡◌, refl, ap, sym, ◌∙◌, List, ◌++◌, length, take, drop, splice,
  length-splice, take-splice, slice-splice_self, length-append, length-take, Bool, true, false, not,
  ◌||◌, ltb, ◌==◌, ==_iff, le→leb, ltb→le, if◌then◌else◌, Bool-cases, inl, inr, Run, done, arith,
}
use mathlib.Core.Option.{some}
use mathlib.Core.List.{append-nil, append_assoc}
use vrtio.Buffer.{copy_from, copy_to}
use vrtio.Buffer.Regions.{take-add}
use vrtio.FileWriter.{
  Written, Writer, buffer_size_bytes, has_error, is_complete, flush, write_direct, append,
  write_packet,
}

no_guard : (o : Bool) (n : ℕ) → o ≡ true → n ≡ 0 → (not o || not (n == 0)) ≡ false
no_guard o n e f = ground arith

module _ {Os : Type 0} (write : Os → List ℕ → Written Os) (contents : Os → List ℕ) where
  -- The system takes all bytes of each `::write` and puts them at the end of the file.
  pub record TakesAll : Type 0 where
    pub count : (os : Os) (bytes : List ℕ) → (write os bytes).count ≡ some (length bytes)
    pub adds : (os : Os) (bytes : List ℕ) → contents (write os bytes).os ≡ contents os ++ bytes

  module _ (max_packet_words : ℕ) where
    -- The file, and behind it what is in the buffer, is what the writer was given.
    pub record Holds (log : List ℕ) (w : Writer write max_packet_words) : Type 0 where
      pub still_open : w.is_open ≡ true
      pub no_error : w.last_errno ≡ 0
      pub room : length w.buffer ≡ max_packet_words * 4
      pub used : w.buffer_used ≤ max_packet_words * 4
      pub whole : contents w.os ++ take w.buffer_used w.buffer ≡ log
      pub bytes : w.bytes_written ≡ length log

    -- The sizes that `write_packet` takes.
    abbrev pub accepts : List ℕ → Bool
    accepts packet = not (length packet == 0 || not (length packet % 4 == 0))

    abbrev pub after_one : List ℕ → List ℕ → List ℕ
    after_one log packet = if accepts packet then log ++ packet else log

    -- The writer after a call, and the call's answer.
    pub record Answers (log : List ℕ) (answer : Bool) (packets : ℕ)
        (run : Run (Bool × Writer write max_packet_words)) : Type 0 where
      pub after : Writer write max_packet_words
      pub returns : run ≡ done (answer, after)
      pub holds : Holds log after
      pub counted : after.packets_written ≡ packets

    recounted :
        {log : List ℕ} {answer : Bool} {n m : ℕ} {run : Run (Bool × Writer write max_packet_words)}
        → n ≡ m
        → Answers log answer (suc n) run
        → Answers log answer (suc m) run
    recounted e a = record {
      after = a.after;
      returns = a.returns;
      holds = a.holds;
      counted = a.counted ∙ ap suc e;
    }

    module _ (takes : TakesAll) where
      pub flush-Answers :
          (log : List ℕ) (w : Writer write max_packet_words)
          → Holds log w
          → (a : Answers log true w.packets_written (flush write max_packet_words w))
            × (a.after.buffer_used ≡ 0)
      unfolding flush copy_from is_complete
      flush-Answers log w h = elim (Bool-cases (w.buffer_used == 0)) [
        | inl e ↦ (
          record { after = w; returns = rw (h.still_open, e) refl; holds = h; counted = refl },
          (==_iff w.buffer_used 0).0 e,
        )
        | inr e ↦
            let bytes = take w.buffer_used w.buffer in
            let size : length bytes ≡ w.buffer_used =
              omega (arith, length-take w.buffer_used w.buffer, h.room, h.used) in
            let out = write w.os bytes in
            (
              record {
                after = record w { os = out.os; buffer_used = 0 };
                returns =
                    rw
                      (
                        h.still_open,
                        e,
                        le→leb (0 + w.buffer_used) (length w.buffer)
                            (omega (arith, h.room, h.used)),
                        takes.count w.os bytes,
                        (==_iff (length bytes) w.buffer_used).1 size,
                      )
                      refl;
                holds = record {
                  still_open = h.still_open;
                  no_error = h.no_error;
                  room = h.room;
                  used = omega arith;
                  whole = append-nil (contents out.os) ∙ takes.adds w.os bytes ∙ h.whole;
                  bytes = h.bytes;
                };
                counted = refl;
              },
              refl,
            )
      ]

      append-Answers :
          (log packet : List ℕ) (w : Writer write max_packet_words)
          → Holds log w
          → w.buffer_used + length packet ≤ max_packet_words * 4
          → Answers
              (log ++ packet)
              true
              (suc w.packets_written)
              (append write max_packet_words w packet)
      unfolding append copy_to
      append-Answers log packet w h fits =
          let room : w.buffer_used + length packet ≤ length w.buffer =
            omega (arith, h.room, fits) in
          let grown = splice w.buffer w.buffer_used packet in
          record {
            after = record w {
              buffer = grown;
              buffer_used = w.buffer_used + length packet;
              packets_written = suc w.packets_written;
              bytes_written = w.bytes_written + length packet;
            };
            returns = rw (le→leb _ _ room) refl;
            holds = record {
              still_open = h.still_open;
              no_error = h.no_error;
              room = length-splice w.buffer w.buffer_used packet room ∙ h.room;
              used = fits;
              whole =
                  ap (λ ys. contents w.os ++ ys)
                    (take-add w.buffer_used (length packet) grown
                      ∙ ap (λ ys. ys ++ take (length packet) (drop w.buffer_used grown))
                          (take-splice w.buffer w.buffer_used packet (omega (arith, room)))
                      ∙ ap (λ ys. take w.buffer_used w.buffer ++ ys)
                          (slice-splice_self w.buffer w.buffer_used packet (omega (arith, room))))
                  ∙ sym (append_assoc (contents w.os) (take w.buffer_used w.buffer) packet)
                  ∙ ap (λ ys. ys ++ packet) h.whole;
              bytes = omega (arith, h.bytes, length-append log packet);
            };
            counted = refl;
          }

      direct-Answers :
          (log packet : List ℕ) (w : Writer write max_packet_words)
          → Holds log w
          → w.buffer_used ≡ 0
          → Answers
              (log ++ packet)
              true
              (suc w.packets_written)
              (done (write_direct write max_packet_words w packet))
      unfolding write_direct is_complete
      direct-Answers log packet w h empty =
          let out = write w.os packet in
          let file : contents w.os ≡ log =
            sym (append-nil (contents w.os))
            ∙ ap (λ (k : ℕ). contents w.os ++ take k w.buffer) (sym empty)
            ∙ h.whole in
          record {
            after = record w {
              os = out.os;
              packets_written = suc w.packets_written;
              bytes_written = w.bytes_written + length packet;
            };
            returns =
                rw (takes.count w.os packet, (==_iff (length packet) (length packet)).1 refl) refl;
            holds = record {
              still_open = h.still_open;
              no_error = h.no_error;
              room = h.room;
              used = h.used;
              whole =
                  ap (λ (k : ℕ). contents out.os ++ take k w.buffer) empty
                  ∙ append-nil (contents out.os)
                  ∙ takes.adds w.os packet
                  ∙ ap (λ ys. ys ++ packet) file;
              bytes = omega (arith, h.bytes, length-append log packet);
            };
            counted = refl;
          }

      pub write_packet-Answers :
          (log packet : List ℕ) (w : Writer write max_packet_words)
          → Holds log w
          → Answers
              (after_one log packet)
              (accepts packet)
              (if accepts packet then suc w.packets_written else w.packets_written)
              (write_packet write max_packet_words w packet)
      unfolding write_packet has_error buffer_size_bytes
      write_packet-Answers log packet w h =
          let f = flush-Answers log w h in
          let guard = no_guard w.is_open w.last_errno h.still_open h.no_error in
          elim (Bool-cases (length packet == 0 || not (length packet % 4 == 0))) [
            | inl e ↦
                rw (guard, e) (record { after = w; returns = refl; holds = h; counted = refl })
            | inr e ↦ elim (Bool-cases (ltb (max_packet_words * 4) (length packet))) [
              | inl big ↦
                  rw (guard, e, big, f.0.returns)
                    (recounted f.0.counted (direct-Answers log packet f.0.after f.0.holds f.1))
              | inr small ↦
                  elim (Bool-cases (ltb (max_packet_words * 4) (w.buffer_used + length packet))) [
                    | inl full ↦
                        rw (guard, e, small, full, f.0.returns)
                          (recounted f.0.counted (
                            append-Answers log packet f.0.after f.0.holds
                              (omega (arith, f.1, ltb→le _ _ small))))
                    | inr fits ↦
                        rw (guard, e, small, fits) (append-Answers log packet w h (ltb→le _ _ fits))
                  ]
            ]
          ]
