-- ===== src/Trailer/Views.antt =====
-- The views and the builder of trailer_view.hpp on a buffer: calls in sequence, and what a
-- builder leaves.
use vrtio.Common.{ℕ, ◌+◌, ◌≤◌, ◌≡◌, refl, ap, ◌∙◌, List, [], ◌∷◌, length, Run, done, ◌>>=◌}
use vrtio.Buffer.{Endian}
use vrtio.Buffer.Bytes.{IsBytes}
use vrtio.Buffer.Access.{read_u32-done}
use vrtio.Trailer.View.{
  raw, clear, modify, set_context_packet_count, set_indicator, set_named, set_flag, TrailerBuilder,
  build_raw, build_clear, build_count, build_named, build_flag, from_view, apply,
}
use vrtio.Trailer.State.{TrailerState}
use vrtio.Trailer.Setters.{
  Setter, puts_raw, clears_all, puts_count, clears_count, puts_named, clears_named, puts_flag,
  clears_flag, state_at, Leaves, IsCall, perform, effect, perform-Leaves,
}

-- A sequence of calls, one after the other.
pub perform_all : Endian → List Setter → List ℕ → ℕ → Run (List ℕ)
perform_all host [] buffer word_ptr = done buffer
perform_all host (call ∷ calls) buffer word_ptr = do
  after ← perform host call buffer word_ptr
  perform_all host calls after word_ptr

abbrev pub effect_all : List Setter → TrailerState → TrailerState
effect_all [] s = s
effect_all (call ∷ calls) s = effect_all calls (effect call s)

abbrev pub AreCalls : List Setter → Type 0
AreCalls [] = Unit {0}
AreCalls (call ∷ calls) = IsCall call × AreCalls calls

-- After any sequence of calls of a mutable view over four bytes of a buffer of bytes, with arguments
-- of their types, the trailer says what the same changes of the state say, and nothing but its four
-- bytes has changed.
pub perform_all-Leaves :
    (host : Endian) (calls : List Setter) (buffer : List ℕ) (word_ptr : ℕ)
    → word_ptr + 4 ≤ length buffer
    → IsBytes buffer
    → AreCalls calls
    → Leaves host buffer word_ptr
        (perform_all host calls buffer word_ptr)
        (effect_all calls (state_at host buffer word_ptr))
unfolding perform_all
perform_all-Leaves host [] buffer word_ptr fits bytes ok = record {
  after = buffer;
  returns = refl;
  same_length = refl;
  says = refl;
  same_before = refl;
  same_behind = refl;
  still_bytes = bytes;
}
perform_all-Leaves host (call ∷ calls) buffer word_ptr fits bytes ok =
    let first = perform-Leaves host buffer word_ptr fits bytes call ok.0 in
    let rest =
      perform_all-Leaves host calls first.after word_ptr (rw first.same_length fits)
        first.still_bytes ok.1 in
    record {
      after = rest.after;
      returns = rw first.returns rest.returns;
      same_length = rest.same_length ∙ first.same_length;
      says = rest.says ∙ ap (effect_all calls) first.says;
      same_before = rest.same_before ∙ first.same_before;
      same_behind = rest.same_behind ∙ first.same_behind;
      still_bytes = rest.still_bytes;
    }

-- The builder's methods that a mutable view has too.
pub build : Setter → TrailerBuilder → TrailerBuilder
build (puts_raw value) b = build_raw value b
build clears_all b = build_clear b
build (puts_count n) b = build_count n b
build (puts_named i x) b = build_named i x b
build (puts_flag f x) b = build_flag f x b
build _ b = b

abbrev pub IsBuilderCall : Setter → Type 0
IsBuilderCall clears_count = ⊥
IsBuilderCall (clears_named i) = ⊥
IsBuilderCall (clears_flag f) = ⊥
IsBuilderCall _ = Unit {0}

-- Taking a builder from a view, calling one of the methods that both have and applying the builder does
-- to the buffer what the call on the mutable view does.
pub apply-build :
    (host : Endian) (call : Setter) (b : TrailerBuilder) (buffer : List ℕ) (word_ptr : ℕ)
    → word_ptr + 4 ≤ length buffer
    → IsBuilderCall call
    → (from_view host b buffer word_ptr >>= λ taken. apply host (build call taken) buffer word_ptr)
      ≡ perform host call buffer word_ptr
unfolding build perform from_view apply build_raw build_clear build_count build_named build_flag
    set_context_packet_count set_named set_indicator set_flag modify clear raw
apply-build host (puts_raw value) b buffer word_ptr fits ok =
    rw (read_u32-done host buffer word_ptr fits)
apply-build host clears_all b buffer word_ptr fits ok = rw (read_u32-done host buffer word_ptr fits)
apply-build host (puts_count n) b buffer word_ptr fits ok =
    rw (read_u32-done host buffer word_ptr fits)
apply-build host clears_count b buffer word_ptr fits ok = absurd ok
apply-build host (puts_named i x) b buffer word_ptr fits ok =
    rw (read_u32-done host buffer word_ptr fits)
apply-build host (clears_named i) b buffer word_ptr fits ok = absurd ok
apply-build host (puts_flag f x) b buffer word_ptr fits ok =
    rw (read_u32-done host buffer word_ptr fits)
apply-build host (clears_flag f) b buffer word_ptr fits ok = absurd ok
