-- ===== src/Workers/Writer.antt =====
-- internal/workers/bounded_writer.go: the ring that keeps the last bytes written to it. `Max` of
-- zero stands for any that is not positive. A write holds the lock throughout.
pub mod Rounds
pub mod Tail
mod Tests
use pican.Base.{
  ℕ, zero, suc, ◌+◌, ◌-◌, ◌%◌, min, Bool, true, false, ◌||◌, List, [], ◌∷◌, ◌++◌, ltb, leb, ◌==◌,
  not, if◌then◌else◌, length, take, drop,
}

pub record Writer : Type 0 where
  pub max : ℕ
  pub buf : List ℕ
  pub start : ℕ
  pub size : ℕ

abbrev pub zeros : ℕ → List ℕ
zeros zero = []
zeros (suc n) = 0 ∷ zeros n

-- `copy(buf[i:], p)`, with `p` no longer than the rest of the buffer.
abbrev pub copy_at : ℕ → List ℕ → List ℕ → List ℕ
copy_at i p buf = take i buf ++ p ++ drop (i + length p) buf

abbrev pub fill_count : Writer → List ℕ → ℕ
fill_count w p = min (length p) (min (w.max - w.size) (w.max - (w.start + w.size) % w.max))

abbrev pub fill : Writer → List ℕ → Writer
fill w p =
    let n = fill_count w p in
    record w { buf = copy_at ((w.start + w.size) % w.max) (take n p) w.buf; size = w.size + n }

abbrev pub wrap_count : Writer → List ℕ → ℕ
wrap_count w p = min (length p) (w.max - w.start)

abbrev pub wrap : Writer → List ℕ → Writer
wrap w p =
    let n = wrap_count w p in
    record w { buf = copy_at w.start (take n p) w.buf; start = (w.start + n) % w.max }

-- The loop over the bytes that are left, on fuel for each of them.
unfoldable pub write_rest : ℕ → Writer → List ℕ → Writer
write_rest zero w p = w
write_rest (suc fuel) w [] = w
write_rest (suc fuel) w (b ∷ bs) =
    let p = b ∷ bs in
    let filled = write_rest fuel (fill w p) (drop (fill_count w p) p) in
    let wrapped = write_rest fuel (wrap w p) (drop (wrap_count w p) p) in
    if ltb w.size w.max then filled else wrapped

abbrev pub allocated : Writer → Writer
allocated w =
    if length w.buf == w.max then w else record w { buf = zeros w.max; start = 0; size = 0 }

-- A write of one byte or more into a buffer that is there.
abbrev pub write_allocated : Writer → List ℕ → Writer
unfolding write_rest
write_allocated w p =
    if leb w.max (length p)
    then record w { buf = copy_at 0 (drop (length p - w.max) p) w.buf; start = 0; size = w.max }
    else write_rest (length p) w p

unfoldable pub write : Writer → List ℕ → Writer
unfolding write_allocated
write w p = if w.max == 0 || length p == 0 then w else write_allocated (allocated w) p

-- `String`
unfoldable pub contents : Writer → List ℕ
contents w =
    let tail = drop w.start w.buf in
    if w.size == 0
    then []
    else if leb (w.start + w.size) (length w.buf)
    then take w.size tail
    else tail ++ take (w.size - length tail) w.buf
