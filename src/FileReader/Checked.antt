-- ===== src/FileReader/Checked.antt =====
-- The checks of `read_next` of raw_vrt_file_reader.hpp and what follows them, by the header word.
use vrtio.Common.{
  ℕ, suc, ◌+◌, ◌-◌, ◌*◌, ◌≤◌, ◌<◌, ◌≡◌, refl, ap, sym, ◌∙◌, subst, List, ◌++◌, length, take, drop,
  drop-add, slice, length-slice, true, false, ◌||◌, ltb, ◌==◌, Bool-cases, inl, inr, ltb→le, ltb→lt,
  arith,
}
use vrtio.Buffer.{Endian}
use vrtio.Buffer.Access.{word_at}
use vrtio.Buffer.Regions.{take-add}
use vrtio.Types.{ValidationError, buffer_too_small, invalid_packet_type, size_field_mismatch}
use vrtio.Header.{decode_header, is_valid_packet_type}
use vrtio.FileReader.{ReadResult, RawVrtFileReader, read_as, fseek, read_body, read_checked}
use vrtio.FileReader.Outcome.{Leaves, ReadsOf, delivered, refused, held}
use vrtio.FileReader.Steps.{IsHeader, read_body-FillsBuffer}

joined :
    (xs : List ℕ) (o p m k : ℕ)
    → p ≡ o + 4
    → k ≡ 4 + m
    → slice xs o 4 ++ slice xs p m ≡ slice xs o k
joined xs o p m k behind all =
    ap (λ (i : ℕ). slice xs o 4 ++ slice xs i m) behind
    ∙ ap (λ ys. slice xs o 4 ++ take m ys) (drop-add o 4 xs)
    ∙ sym (ap (slice xs o) all ∙ take-add 4 m (drop o xs))

good_size : (n m : ℕ) → (n == 0 || ltb m n) ≡ false → (0 < n) × (n ≤ m)
good_size n m e = ground arith

bad_size : (n m : ℕ) → (n == 0 || ltb m n) ≡ true → 0 < n → n ≤ m → ⊥
bad_size n m e p l = ground arith

module _ (host : Endian) (max_packet_words : ℕ) (r : RawVrtFileReader) (buffer : List ℕ)
    (buffer_size : ℕ) (given : buffer_size ≤ length buffer)
    (sized : r.file_size ≡ length r.file.contents)
    (there : r.current_offset + 4 ≤ r.file_size) where
  abbrev here : ℕ
  here = word_at host 4 r.file.contents r.current_offset

  body-Reads :
      (result : ReadResult)
      → r.file.position ≡ r.current_offset + 4
      → IsHeader host max_packet_words here
      → result.packet_size_bytes ≡ (decode_header here).size_words * 4
      → (decode_header here).size_words * 4 ≤ buffer_size
      → r.current_offset + (decode_header here).size_words * 4 ≤ r.file_size
      → ReadsOf host max_packet_words r buffer buffer_size (
          read_body host max_packet_words r
            (slice r.file.contents r.current_offset 4)
            buffer
            result)
  body-Reads result placed good same small inside =
      let n = (decode_header here).size_words in
      let more : 4 ≤ result.packet_size_bytes = omega (arith, same, good.positive) in
      let header_raw = slice r.file.contents r.current_offset 4 in
      let b =
        read_body-FillsBuffer host max_packet_words r header_raw buffer result
          (length-slice r.file.contents r.current_offset 4 (omega (arith, there, sized))) more
          (omega (arith, same, small, given)) (omega (arith, same, inside, sized, placed, more)) in
      record {
        got =
            read_as (record result { error = ValidationError.none }) b.filled
              (record r {
                file = b.file;
                current_offset = r.current_offset + result.packet_size_bytes;
                packets_read = suc r.packets_read;
              });
        returns = b.returns;
        leaves = record {
          same = b.same;
          same_size = refl;
          placed = omega (arith, b.position, placed, more);
          inside = omega (arith, same, inside);
          room = b.size;
        };
        outcome =
            delivered good inside refl same
              (subst (λ (k : ℕ). take k b.filled ≡ slice r.file.contents r.current_offset k) same
                (b.holds
                  ∙ joined r.file.contents r.current_offset r.file.position
                      (result.packet_size_bytes - 4) result.packet_size_bytes placed
                      (omega (arith, more))))
              (omega (arith, same)) refl;
      }

  pub checked-Reads :
      (result : ReadResult)
      → r.file.position ≡ r.current_offset + 4
      → ReadsOf host max_packet_words r buffer buffer_size (
          read_checked host max_packet_words r
            (slice r.file.contents r.current_offset 4)
            buffer
            buffer_size
            result
            here)
  unfolding read_checked fseek
  checked-Reads result placed =
      let h = decode_header here in
      let bytes = h.size_words * 4 in
      let known = record result { header = here; type = h.type } in
      let sized_result = record known { packet_size_bytes = bytes; buffer_size_required = bytes } in
      let skipped = record r { current_offset = r.current_offset + 4 } in
      let back = record r { file = fseek r.file r.current_offset } in
      elim (Bool-cases (is_valid_packet_type h.type)) [
        | inr e ↦ record {
          got = read_as (record known { error = invalid_packet_type }) buffer skipped;
          returns = rw e refl;
          leaves = record {
            same = refl;
            same_size = refl;
            placed = placed;
            inside = there;
            room = refl;
          };
          outcome = refused there (λ k. absurd (cc (e, k.valid_type))) (inl refl) refl refl;
        }
        | inl e ↦ elim (Bool-cases (h.size_words == 0 || ltb max_packet_words h.size_words)) [
          | inl f ↦ record {
            got = read_as (record sized_result { error = size_field_mismatch }) buffer skipped;
            returns = rw (e, f) refl;
            leaves = record {
              same = refl;
              same_size = refl;
              placed = placed;
              inside = there;
              room = refl;
            };
            outcome =
                refused there (λ k. bad_size h.size_words max_packet_words f k.positive k.small)
                  (inr refl) refl refl;
          }
          | inr f ↦
              let size_is = good_size h.size_words max_packet_words f in
              let good : IsHeader host max_packet_words here = record {
                valid_type = e;
                positive = size_is.0;
                small = size_is.1;
              } in
              let held_got =
                read_as (record sized_result { error = buffer_too_small }) buffer back in
              let held_leaves : Leaves host max_packet_words r.file.contents r.current_offset
                  r.file_size r.packets_read buffer held_got =
                record {
                  same = refl;
                  same_size = refl;
                  placed = refl;
                  inside = omega (arith, there);
                  room = refl;
                } in
              elim (Bool-cases (ltb buffer_size bytes)) [
                | inl g ↦ record {
                  got = held_got;
                  returns = rw (e, f, g) refl;
                  leaves = held_leaves;
                  outcome = held there good (inl (ltb→lt _ _ g)) refl refl refl refl refl;
                }
                | inr g ↦ elim (Bool-cases (ltb r.file_size (r.current_offset + bytes))) [
                  | inl k ↦ record {
                    got = held_got;
                    returns = rw (e, f, g, k) refl;
                    leaves = held_leaves;
                    outcome = held there good (inr (ltb→lt _ _ k)) refl refl refl refl refl;
                  }
                  | inr k ↦
                      rw (e, f, g, k)
                        (body-Reads sized_result placed good refl (ltb→le _ _ g) (ltb→le _ _ k))
                ]
              ]
        ]
      ]
