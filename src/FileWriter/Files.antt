-- ===== src/FileWriter/Files.antt =====
-- raw_vrt_file_writer.hpp: what is in the file when a writer is gone, in the order of the calls.
use vrtio.Common.{
  ℕ, ◌*◌, ◌≡◌, refl, ap, sym, ◌∙◌, subst, not, List, [], ◌∷◌, ◌++◌, length, take, Bool, true, false,
  if◌then◌else◌, done, arith,
}
use mathlib.Core.List.{append-nil, append_assoc}
use vrtio.FileWriter.{Written, Writer, write_all, create, destroy}
use vrtio.FileWriter.Faithful.{
  TakesAll, Holds, accepts, after_one, flush-Answers, write_packet-Answers,
}

module _ {Os : Type 0} (write : Os → List ℕ → Written Os) (contents : Os → List ℕ)
    (max_packet_words : ℕ) where
  -- The packets that the writer accepts, one after the other.
  abbrev pub accepted : List (List ℕ) → List ℕ
  accepted [] = []
  accepted (p ∷ packets) =
      if accepts write contents max_packet_words p then p ++ accepted packets else accepted packets

  abbrev pub answers : List (List ℕ) → List Bool
  answers [] = []
  answers (p ∷ packets) = accepts write contents max_packet_words p ∷ answers packets

  one_more :
      (b : Bool) (log p rest : List ℕ)
      → (if b then log ++ p else log) ++ rest ≡ log ++ (if b then p ++ rest else rest)
  one_more true log p rest = append_assoc log p rest
  one_more false log p rest = refl

  module _ (takes : TakesAll write contents) where
    all_lem :
        (packets : List (List ℕ)) (log : List ℕ) (w : Writer write max_packet_words)
        → Holds write contents max_packet_words log w
        → (after : Writer write max_packet_words) × (write_all write max_packet_words w packets
            ≡ done (answers packets, after))
          × Holds write contents max_packet_words (log ++ accepted packets) after
    unfolding write_all
    all_lem [] log w h =
        (w, refl, subst (λ ys. Holds write contents max_packet_words ys w) (sym (append-nil log)) h)
    all_lem (p ∷ packets) log w h =
        let a = write_packet-Answers write contents max_packet_words takes log p w h in
        let r = all_lem packets (after_one write contents max_packet_words log p) a.after a.holds in
        (
          r.0,
          rw (a.returns, r.1) refl,
          subst (λ ys. Holds write contents max_packet_words ys r.0)
              (one_more (accepts write contents max_packet_words p) log p (accepted packets)) r.2,
        )

    destroy-file :
        (log : List ℕ) (w : Writer write max_packet_words)
        → Holds write contents max_packet_words log w
        → (gone : Writer write max_packet_words) × (destroy write max_packet_words w ≡ done gone)
          × (contents gone.os ≡ log)
    unfolding destroy
    destroy-file log w h =
        let f = flush-Answers write contents max_packet_words takes log w h in
        let guard : not w.is_open ≡ false = ap not h.still_open in
        (
          record f.0.after { is_open = false },
          rw (f.0.returns, guard) refl,
          sym (append-nil (contents f.0.after.os))
              ∙ ap (λ (k : ℕ). contents f.0.after.os ++ take k f.0.after.buffer) (sym f.1)
              ∙ f.0.holds.whole,
        )

    -- Where the system takes all bytes of each `::write`, and the file is empty at first: whatever packets
    -- are written, `write_packet` answers true for those of a positive number of whole words, and when the
    -- writer is destroyed the file is exactly these packets, in order.
    pub write_all-file :
        (os : Os) (buffer : List ℕ) (packets : List (List ℕ))
        → contents os ≡ []
        → length buffer ≡ max_packet_words * 4
        → (written gone : Writer write max_packet_words) × (write_all write max_packet_words
              (create write max_packet_words os buffer)
              packets
            ≡ done (answers packets, written))
          × (destroy write max_packet_words written ≡ done gone)
          × (contents gone.os ≡ accepted packets)
    unfolding create
    write_all-file os buffer packets empty room =
        let start : Holds write contents max_packet_words []
            (create write max_packet_words os buffer) =
          record {
            still_open = refl;
            no_error = refl;
            room = room;
            used = omega arith;
            whole = append-nil (contents os) ∙ empty;
            bytes = refl;
          } in
        let a = all_lem packets [] (create write max_packet_words os buffer) start in
        let d = destroy-file (accepted packets) a.0 a.2 in (a.0, d.0, a.1, d.1, d.2)
