-- ===== src/Trailer/Setters.antt =====
-- The setters of trailer_view.hpp on a buffer: what each of them leaves.
use vrtio.Common.{
  ℕ, ◌+◌, ◌%◌, ◌^◌, ◌≤◌, ◌<◌, ◌≡◌, refl, ap, subst, Bool, true, false, List, length, take, drop,
  Run, done, arith,
}
use mathlib.Core.Option.{none, some}
use vrtio.Buffer.{Endian, read_word, write_u32}
use vrtio.Buffer.Bytes.{IsBytes}
use vrtio.Buffer.Access.{word_at, word_at-lt, read_word-done, read_u32-done}
use vrtio.Buffer.RoundTrip.{write_word-read_word}
use vrtio.Trailer.{
  Indicator, Flag, enable_bit, indicator_bit, flag_bit, e_bit, set_bit, clear_bit, extract_bit,
}
use vrtio.Trailer.Bits.{set_count_field-sum}
use vrtio.Trailer.View.{
  raw, set_raw, clear, modify, set_context_packet_count, clear_context_packet_count, set_indicator,
  clear_enable, set_named, clear_named, set_flag, clear_flag, with_count, with_indicator,
}
use vrtio.Trailer.State.{
  TrailerState, state_of, state_ext, put_indicator, put_flag, put_count, set_bit-lt, clear_bit-lt,
}
use vrtio.Trailer.Refines.{state_of-set_flag, state_of-set_named, state_of-with_count}

-- What the trailer at a place of a buffer says.
abbrev pub state_at : Endian → List ℕ → ℕ → TrailerState
state_at host buffer word_ptr = state_of (word_at host 4 buffer word_ptr)

-- `result` is a return that leaves a buffer of the same length, in which the trailer says `s` and every
-- byte apart from its four is as before.
pub record Leaves (host : Endian) (buffer : List ℕ) (word_ptr : ℕ) (result : Run (List ℕ))
    (s : TrailerState) : Type 0 where
  pub after : List ℕ
  pub returns : result ≡ done after
  pub same_length : length after ≡ length buffer
  pub says : state_at host after word_ptr ≡ s
  pub same_before : take word_ptr after ≡ take word_ptr buffer
  pub same_behind : drop (word_ptr + 4) after ≡ drop (word_ptr + 4) buffer
  pub still_bytes : IsBytes after

module _ (host : Endian) (buffer : List ℕ) (word_ptr : ℕ) (fits : word_ptr + 4 ≤ length buffer)
    (bytes : IsBytes buffer) where
  set_raw-Leaves :
      (value : ℕ)
      → value < 2 ^ 32
      → Leaves host buffer word_ptr (set_raw host value buffer word_ptr) (state_of value)
  unfolding set_raw write_u32
  set_raw-Leaves value small =
      let w = write_word-read_word host 4 buffer word_ptr value fits small bytes in
      record {
        after = w.0;
        returns = w.1;
        same_length = w.2;
        says = ap state_of (there w.0 w.2 w.3);
        same_before = w.4;
        same_behind = w.5;
        still_bytes = w.6;
      }
    where
      there :
          (after : List ℕ)
          → length after ≡ length buffer
          → read_word host 4 after word_ptr ≡ done value
          → word_at host 4 after word_ptr ≡ value
      there after l r = cc (read_word-done host 4 after word_ptr (rw l fits))

  modify-Leaves :
      (fn : ℕ → ℕ)
      → ((w : ℕ) → w < 2 ^ 32 → fn w < 2 ^ 32)
      → Leaves host buffer word_ptr
          (modify host fn buffer word_ptr)
          (state_of (fn (word_at host 4 buffer word_ptr)))
  unfolding modify raw
  modify-Leaves fn keeps = rw (read_u32-done host buffer word_ptr fits) (
      set_raw-Leaves (fn (word_at host 4 buffer word_ptr))
        (keeps _ (word_at-lt host 4 buffer word_ptr fits bytes)))

-- The calls of a mutable view.
pub data Setter : Type 0 where
  puts_raw : ℕ → Setter
  clears_all : Setter
  puts_count : ℕ → Setter
  clears_count : Setter
  puts_named : Indicator → Bool → Setter
  clears_named : Indicator → Setter
  puts_flag : Flag → Bool → Setter
  clears_flag : Flag → Setter

-- The arguments within the types `uint32_t` and `uint8_t`.
abbrev pub IsCall : Setter → Type 0
IsCall (puts_raw value) = value < 2 ^ 32
IsCall _ = Unit {0}

unfoldable pub perform : Endian → Setter → List ℕ → ℕ → Run (List ℕ)
perform host (puts_raw value) buffer word_ptr = set_raw host value buffer word_ptr
perform host clears_all buffer word_ptr = clear host buffer word_ptr
perform host (puts_count n) buffer word_ptr = set_context_packet_count host n buffer word_ptr
perform host clears_count buffer word_ptr = clear_context_packet_count host buffer word_ptr
perform host (puts_named i x) buffer word_ptr = set_named host i x buffer word_ptr
perform host (clears_named i) buffer word_ptr = clear_named host i buffer word_ptr
perform host (puts_flag f x) buffer word_ptr = set_flag host f x buffer word_ptr
perform host (clears_flag f) buffer word_ptr = clear_flag host f buffer word_ptr

-- What each call does to the state.
abbrev pub effect : Setter → TrailerState → TrailerState
effect (puts_raw value) s = state_of value
effect clears_all s = record { count = none; indicators = λ i. none; flags = λ f. false }
effect (puts_count n) s = put_count (some (n % 128)) s
effect clears_count s = put_count none s
effect (puts_named i x) s = put_indicator i (some x) s
effect (clears_named i) s = put_indicator i none s
effect (puts_flag f x) s = put_flag f x s
effect (clears_flag f) s = put_flag f false s

with_count-lt : (n w : ℕ) → w < 2 ^ 32 → with_count n w < 2 ^ 32
with_count-lt n w h =
    let small : set_bit e_bit w true < 2 ^ 32 = set_bit-lt e_bit w true (omega arith) h in
    omega (arith, small, set_count_field-sum (set_bit e_bit w true) n small)

places_fit :
    (i : Indicator) (f : Flag) → (enable_bit i < 32) × (indicator_bit i < 32) × (flag_bit f < 32)
places_fit i f = ground arith

zero_state : state_of 0 ≡ record { count = none; indicators = λ i. none; flags = λ f. false }
unfolding extract_bit
zero_state =
    state_ext (state_of 0) (record { count = none; indicators = λ i. none; flags = λ f. false })
      refl (λ i. ground arith) (λ f. ground arith)

module _ (host : Endian) (buffer : List ℕ) (word_ptr : ℕ) (fits : word_ptr + 4 ≤ length buffer)
    (bytes : IsBytes buffer) where
  retold :
      {s t : TrailerState} {result : Run (List ℕ)}
      → s ≡ t
      → Leaves host buffer word_ptr result s
      → Leaves host buffer word_ptr result t
  retold {result} e l = subst (Leaves host buffer word_ptr result) e l

  here : ℕ
  here = word_at host 4 buffer word_ptr

  here-lt : here < 2 ^ 32
  unfolding here
  here-lt = word_at-lt host 4 buffer word_ptr fits bytes

  -- Every call of a mutable view over four bytes of the buffer succeeds, changes the state of the
  -- trailer as `effect` says, and touches no other byte.
  pub perform-Leaves :
      (call : Setter)
      → IsCall call
      → Leaves host buffer word_ptr
          (perform host call buffer word_ptr)
          (effect call (state_at host buffer word_ptr))
  unfolding perform clear set_context_packet_count clear_context_packet_count set_named
      set_indicator clear_named clear_enable set_flag clear_flag here
  perform-Leaves (puts_raw value) small = set_raw-Leaves host buffer word_ptr fits bytes value small
  perform-Leaves clears_all _ =
      retold zero_state (set_raw-Leaves host buffer word_ptr fits bytes 0 (omega arith))
  perform-Leaves (puts_count n) _ =
      retold (state_of-with_count n here here-lt).0
        (modify-Leaves host buffer word_ptr fits bytes (with_count n) (with_count-lt n))
  perform-Leaves clears_count _ =
      retold (state_of-with_count 0 here here-lt).1
        (modify-Leaves host buffer word_ptr fits bytes (clear_bit e_bit) (clear_bit-lt e_bit))
  perform-Leaves (puts_named i x) _ = retold (state_of-set_named i x here).0 (
      modify-Leaves host buffer word_ptr fits bytes
        (with_indicator (enable_bit i) (indicator_bit i) x)
        (λ w h.
          set_bit-lt (indicator_bit i) _ x (places_fit i Flag.user_defined_0).1
            (set_bit-lt (enable_bit i) w true (places_fit i Flag.user_defined_0).0 h)))
  perform-Leaves (clears_named i) _ = retold (state_of-set_named i true here).1 (
      modify-Leaves host buffer word_ptr fits bytes (clear_bit (enable_bit i))
        (clear_bit-lt (enable_bit i)))
  perform-Leaves (puts_flag f x) _ = retold (state_of-set_flag f x here).0 (
      modify-Leaves host buffer word_ptr fits bytes (λ v. set_bit (flag_bit f) v x)
        (λ w h. set_bit-lt (flag_bit f) w x (places_fit Indicator.sample_loss f).2 h))
  perform-Leaves (clears_flag f) _ = retold (state_of-set_flag f true here).1 (
      modify-Leaves host buffer word_ptr fits bytes (clear_bit (flag_bit f))
        (clear_bit-lt (flag_bit f)))
