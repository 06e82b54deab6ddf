-- ===== src/FileWriter.antt =====
-- utils/fileio/raw_vrt_file_writer.hpp: packets into a file, through a buffer.
-- `::write` of the operating system is a parameter, with the state that it works on; its `errno` comes with
-- its answer. What a C string, a move and the file's name are has no part here.
pub mod Faithful
pub mod Files
pub mod RoundTrip
mod Tests
use vrtio.Common.{
  ℕ, suc, ◌+◌, ◌*◌, ◌%◌, List, [], ◌∷◌, length, Bool, true, false, not, ◌||◌, ltb, ◌==◌,
  if◌then◌else◌, Run, done, ◌>>=◌,
}
use mathlib.Core.Option.{Option, none, some}
use vrtio.Buffer.{copy_from, copy_to}

-- The answer of `::write`: the number of bytes it took, none where it is negative, and `errno`.
pub record Written (Os : Type 0) : Type 0 where
  pub count : Option ℕ
  pub errno : ℕ
  pub os : Os

pub record RawVrtFileWriter (Os : Type 0) : Type 0 where
  pub is_open : Bool
  pub os : Os
  pub buffer : List ℕ
  pub buffer_used : ℕ
  pub packets_written : ℕ
  pub bytes_written : ℕ
  pub last_errno : ℕ

module _ {Os : Type 0} (write : Os → List ℕ → Written Os) (max_packet_words : ℕ) where
  abbrev pub Writer : Type 0
  Writer = RawVrtFileWriter Os

  unfoldable pub buffer_size_bytes : ℕ
  buffer_size_bytes = max_packet_words * 4

  -- The constructor, for a file that can be created; what is in the buffer is not set.
  unfoldable pub create : Os → List ℕ → Writer
  create os buffer = record {
    is_open = true;
    os = os;
    buffer = buffer;
    buffer_used = 0;
    packets_written = 0;
    bytes_written = 0;
    last_errno = 0;
  }

  unfoldable pub has_error : Writer → Bool
  has_error w = not (w.last_errno == 0)

  unfoldable pub clear_error : Writer → Writer
  clear_error w = record w { last_errno = 0 }

  -- Whether `::write` took all of the bytes.
  unfoldable pub is_complete : Written Os → ℕ → Bool
  is_complete out size = elim out.count [ none ↦ false | some n ↦ n == size ]

  unfoldable pub flush : Writer → Run (Bool × Writer)
  unfolding is_complete
  flush w =
      if not w.is_open
      then done (false, w)
      else if w.buffer_used == 0
      then done (true, w)
      else (copy_from w.buffer 0 w.buffer_used >>= λ bytes.
          let out = write w.os bytes in
          done (
            if is_complete out w.buffer_used
            then (true, record w { os = out.os; buffer_used = 0 })
            else (false, record w { os = out.os; last_errno = out.errno })))

  unfoldable pub write_direct : Writer → List ℕ → Bool × Writer
  unfolding is_complete
  write_direct w packet =
      let out = write w.os packet in
      if is_complete out (length packet)
      then (
        true,
        record w {
          os = out.os;
          packets_written = suc w.packets_written;
          bytes_written = w.bytes_written + length packet;
        },
      )
      else (false, record w { os = out.os; last_errno = out.errno })

  -- `std::memcpy` into the buffer and what follows it.
  unfoldable pub append : Writer → List ℕ → Run (Bool × Writer)
  append w packet = do
    buffer ← copy_to w.buffer w.buffer_used packet
    done (
      true,
      record w {
        buffer = buffer;
        buffer_used = w.buffer_used + length packet;
        packets_written = suc w.packets_written;
        bytes_written = w.bytes_written + length packet;
      },
    )

  unfoldable pub write_packet : Writer → List ℕ → Run (Bool × Writer)
  unfolding has_error buffer_size_bytes flush write_direct append
  write_packet w packet =
      if not w.is_open || has_error w
      then done (false, w)
      else if length packet == 0 || not (length packet % 4 == 0)
      then done (false, w)
      else if ltb buffer_size_bytes (length packet)
      then (flush w >>= λ flushed.
          done (if not flushed.0 then (false, flushed.1) else write_direct flushed.1 packet))
      else if ltb buffer_size_bytes (w.buffer_used + length packet)
      then (flush w >>= λ flushed.
          if not flushed.0 then done (false, flushed.1) else append flushed.1 packet)
      else append w packet

  -- The destructor: what a `flush` leaves, and the file closed.
  unfoldable pub destroy : Writer → Run Writer
  unfolding flush
  destroy w =
      if not w.is_open
      then done w
      else (do flushed ← flush w; done (record flushed.1 { is_open = false }))

  -- One packet after the other, with the answers.
  unfoldable pub write_all : Writer → List (List ℕ) → Run (List Bool × Writer)
  unfolding write_packet
  write_all w [] = done ([], w)
  write_all w (p ∷ packets) =
      write_packet w p >>= λ one. write_all one.1 packets >>= λ rest. done (one.0 ∷ rest.0, rest.1)
