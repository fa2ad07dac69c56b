-- ===== src/Workers/Writer/Rounds.antt =====
-- internal/workers/bounded_writer.go: what one round of the writer's loop does to its contents.
use pican.Base.{
  ℕ, ◌+◌, ◌-◌, ◌%◌, ◌<◌, ◌≤◌, min, ◌≡◌, refl, ◌∙◌, sym, ap, ◌⊎◌, inl, inr, true, false, List, [],
  ◌++◌, ltb, leb, ◌==◌, length, take, drop, length-append, append_assoc, append-nil, arith,
  Bool-cases,
}
use pican.Base.Slices.{
  take-drop, length-take, length-drop, drop-drop, drop-append_le, drop-append_at, take-append_at,
  drop_all, take_all,
}
use native.Mathlib.Nat.{mod-eq_of_lt, mod_self}
use pican.Workers.Writer.{Writer, copy_at, fill_count, fill, wrap_count, wrap, contents}

-- The last `m` of a list.
abbrev pub last_of : ℕ → List ℕ → List ℕ
last_of m xs = drop (length xs - m) xs

-- The buffer is not there yet, or has its size; and it starts at its front until it is full.
pub record IsRing (w : Writer) : Type 0 where
  pub sized : (length w.buf ≡ w.max) ⊎ (w.size ≡ 0)
  pub fits : w.size ≤ w.max
  pub from_front : (w.size < w.max) → w.start ≡ 0
  pub inside : 0 < w.max → w.start < w.max

-- The same of a buffer that is there.
pub record IsReady (w : Writer) : Type 0 where
  pub full_buf : length w.buf ≡ w.max
  pub fits : w.size ≤ w.max
  pub from_front : (w.size < w.max) → w.start ≡ 0
  pub inside : w.start < w.max

-- Its contents without the tests.
abbrev pub turned : ℕ → List ℕ → List ℕ
turned start buf = drop start buf ++ take start buf

pub contents_front : (w : Writer) → IsReady w → w.start ≡ 0 → contents w ≡ take w.size w.buf
unfolding contents
contents_front w r front = elim (Bool-cases (w.size == 0)) [
  | inl empty ↦
      let none_yet : w.size ≡ 0 = ground arith in rw empty (sym (ap (λ n. take n w.buf) none_yet))
  | inr some_yet ↦
      let within : leb (w.start + w.size) (length w.buf) ≡ true =
        ground (arith, r.full_buf, r.fits) in
      rw (some_yet, within) (ap (λ i. take w.size (drop i w.buf)) front)
]

pub contents_full : (w : Writer) → IsReady w → w.size ≡ w.max → contents w ≡ turned w.start w.buf
unfolding contents
contents_full w r full = elim (Bool-cases (leb (w.start + w.size) (length w.buf))) [
  | inl within ↦
      let front : w.start ≡ 0 = ground (arith, r.full_buf) in
      contents_front w r front
      ∙ take_all w.size w.buf (omega (arith, r.full_buf))
      ∙ sym (append-nil w.buf)
      ∙ ap (λ i. turned i w.buf) (sym front)
  | inr over ↦
      let some_yet : (w.size == 0) ≡ false = ground (arith, r.inside) in
      let left : w.size - length (drop w.start w.buf) ≡ w.start =
        omega (arith, length-drop w.start w.buf, r.full_buf, r.inside) in
      rw (some_yet, over) (ap (λ n. drop w.start w.buf ++ take n w.buf) left)
]

pub length-contents : (w : Writer) → IsReady w → length (contents w) ≡ w.size
length-contents w r = elim (Bool-cases (ltb w.size w.max)) [
  | inl filling ↦
      let front = r.from_front (ground arith) in
      ap length (contents_front w r front)
      ∙ length-take w.size w.buf (omega (arith, r.full_buf, r.fits))
  | inr not_filling ↦
      let full : w.size ≡ w.max = ground (arith, r.fits) in
      let sizes = length-append (drop w.start w.buf) (take w.start w.buf) in
      let front = length-take w.start w.buf (omega (arith, r.full_buf, r.inside)) in
      ap length (contents_full w r full)
      ∙ omega (arith, sizes, front, length-drop w.start w.buf, r.full_buf, r.inside)
]

-- A copy into the buffer, seen from its parts.
pub copied :
    (i n max : ℕ) (p buf : List ℕ)
    → length buf ≡ max
    → length p ≡ n
    → i + n ≤ max
    → (length (copy_at i p buf) ≡ max)
      × (take (i + n) (copy_at i p buf) ≡ take i buf ++ p)
      × (drop (i + n) (copy_at i p buf) ≡ drop (i + n) buf)
copied i n max p buf full size fits =
    let front = length-take i buf (omega arith) in
    let head : length (take i buf ++ p) ≡ i + n = omega (arith, length-append (take i buf) p) in
    let whole = length-append (take i buf ++ p) (drop (i + length p) buf) in
    let back = length-drop (i + length p) buf in
    (
      omega (arith, whole, head, back),
      take-append_at (i + n) (take i buf ++ p) (drop (i + length p) buf) head,
      drop-append_at (i + n) (take i buf ++ p) (drop (i + length p) buf) head
          ∙ ap (λ k. drop (i + k) buf) size,
    )

-- What one round of the loop does: it takes `n` bytes off, the contents gain them at the end and
-- lose what does not fit.
abbrev pub Takes : Writer → List ℕ → ℕ → Writer → Type 0
Takes w p n v =
    IsReady v
    × (v.max ≡ w.max)
    × (0 < n)
    × (n ≤ length p)
    × (last_of w.max (contents v ++ drop n p) ≡ last_of w.max (contents w ++ p))

pub fill-Takes :
    (w : Writer) (p : List ℕ)
    → IsReady w
    → 0 < length p
    → w.size < w.max
    → Takes w p (fill_count w p) (fill w p)
fill-Takes w p r some_bytes filling =
    let n = fill_count w p in
    let front = r.from_front filling in
    let same_place : w.start + w.size ≡ w.size = omega (arith, front) in
    let at_end : (w.start + w.size) % w.max ≡ w.size =
      ap (λ k. k % w.max) same_place ∙ mod-eq_of_lt filling in
    let counted : n ≡ min (length p) (min (w.max - w.size) (w.max - w.size)) =
      ap (λ k. min (length p) (min (w.max - w.size) (w.max - k))) at_end in
    let le : n ≤ length p = omega (arith, counted) in
    let (len, head, tail) =
      copied w.size n w.max (take n p) w.buf r.full_buf (length-take n p le)
        (omega (arith, counted, filling)) in
    let placed : (fill w p).buf ≡ copy_at w.size (take n p) w.buf =
      ap (λ i. copy_at i (take n p) w.buf) at_end in
    let ready : IsReady (fill w p) = record {
      full_buf = ap length placed ∙ len;
      fits = omega (arith, counted, filling);
      from_front = λ h. front;
      inside = r.inside;
    } in
    let gained : contents (fill w p) ≡ contents w ++ take n p =
      contents_front (fill w p) ready front
      ∙ ap (take (w.size + n)) placed
      ∙ head
      ∙ ap (λ c. c ++ take n p) (sym (contents_front w r front)) in
    let whole : contents (fill w p) ++ drop n p ≡ contents w ++ p =
      ap (λ c. c ++ drop n p) gained
      ∙ append_assoc (contents w) (take n p) (drop n p)
      ∙ ap (λ q. contents w ++ q) (take-drop n p) in
    (ready, refl, omega (arith, counted, filling, some_bytes), le, ap (last_of w.max) whole)

-- Bytes that the contents lose at their front are none of the last.
last_of-drop :
    (m n : ℕ) (xs p : List ℕ)
    → length xs ≡ m
    → n ≤ length p
    → n ≤ m
    → last_of m ((drop n xs ++ take n p) ++ drop n p) ≡ last_of m (xs ++ p)
last_of-drop m n xs p size le fits =
    let joined : (drop n xs ++ take n p) ++ drop n p ≡ drop n (xs ++ p) =
      append_assoc (drop n xs) (take n p) (drop n p)
      ∙ ap (λ q. drop n xs ++ q) (take-drop n p)
      ∙ sym (drop-append_le n xs p (omega (arith, size, fits))) in
    ap (last_of m) joined
    ∙ drop-drop n (length (drop n (xs ++ p)) - m) (length (xs ++ p) - m) (xs ++ p)
        (omega (arith, length-drop n (xs ++ p), length-append xs p, size, le))

-- The contents of a full ring after a round.
wrapped :
    (w : Writer) (p : List ℕ) (n : ℕ)
    → IsReady w
    → w.size ≡ w.max
    → 0 < n
    → n ≤ length p
    → w.start + n ≤ w.max
    → let v = record w { buf = copy_at w.start (take n p) w.buf; start = (w.start + n) % w.max } in
      IsReady v × (contents v ≡ drop n (contents w) ++ take n p)
wrapped w p n r full pos le fits = elim (Bool-cases (ltb (w.start + n) w.max)) [
  | inl below ↦
      let less : w.start + n < w.max = ground arith in
      let on : (w.start + n) % w.max ≡ w.start + n = mod-eq_of_lt less in
      let ready : IsReady v = record {
        full_buf = len;
        fits = r.fits;
        from_front = λ h. absurd (omega (arith, full, h));
        inside = omega (arith, on, less);
      } in
      (
        ready,
        contents_full v ready full
            ∙ ap (λ i. turned i v.buf) on
            ∙ ap (λ t. t ++ take (w.start + n) v.buf) tail
            ∙ ap (λ t. drop (w.start + n) w.buf ++ t) head
            ∙ sym (append_assoc (drop (w.start + n) w.buf) (take w.start w.buf) (take n p))
            ∙ ap (λ t. t ++ take n p) (sym shifted),
      )
  | inr reached ↦
      let meets : w.start + n ≡ w.max = ground arith in
      let on : (w.start + n) % w.max ≡ 0 = ap (λ k. k % w.max) meets ∙ mod_self w.max in
      let ready : IsReady v = record {
        full_buf = len;
        fits = r.fits;
        from_front = λ h. absurd (omega (arith, full, h));
        inside = omega (arith, on, r.inside);
      } in
      let none_left : drop (w.start + n) w.buf ≡ [] =
        drop_all (w.start + n) w.buf (omega (arith, meets, r.full_buf)) in
      (
        ready,
        contents_front v ready on
            ∙ ap (λ k. take k v.buf) (full ∙ sym meets)
            ∙ head
            ∙ ap (λ t. t ++ take n p) (sym (shifted ∙ ap (λ t. t ++ take w.start w.buf) none_left)),
      )
]
  where
    v : Writer
    v = record w { buf = copy_at w.start (take n p) w.buf; start = (w.start + n) % w.max }

    placed :
        (length (copy_at w.start (take n p) w.buf) ≡ w.max)
        × (take (w.start + n) (copy_at w.start (take n p) w.buf) ≡ take w.start w.buf ++ take n p)
        × (drop (w.start + n) (copy_at w.start (take n p) w.buf) ≡ drop (w.start + n) w.buf)
    placed = copied w.start n w.max (take n p) w.buf r.full_buf (length-take n p le) fits

    len : length (copy_at w.start (take n p) w.buf) ≡ w.max
    len = placed.0

    head : take (w.start + n) (copy_at w.start (take n p) w.buf) ≡ take w.start w.buf ++ take n p
    head = placed.1

    tail : drop (w.start + n) (copy_at w.start (take n p) w.buf) ≡ drop (w.start + n) w.buf
    tail = placed.2

    shifted : drop n (contents w) ≡ drop (w.start + n) w.buf ++ take w.start w.buf
    shifted =
        ap (drop n) (contents_full w r full)
        ∙ drop-append_le n (drop w.start w.buf) (take w.start w.buf)
            (omega (arith, length-drop w.start w.buf, r.full_buf, fits))
        ∙ ap (λ t. t ++ take w.start w.buf) (drop-drop w.start n (w.start + n) w.buf refl)

pub wrap-Takes :
    (w : Writer) (p : List ℕ)
    → IsReady w
    → 0 < length p
    → w.size ≡ w.max
    → Takes w p (wrap_count w p) (wrap w p)
wrap-Takes w p r some_bytes full =
    let n = wrap_count w p in
    let le : n ≤ length p = omega arith in
    let pos : 0 < n = omega (arith, some_bytes, r.inside) in
    let fits : w.start + n ≤ w.max = omega (arith, r.inside) in
    let (ready, is) = wrapped w p n r full pos le fits in
    (
      ready,
      refl,
      pos,
      le,
      ap (λ c. last_of w.max (c ++ drop n p)) is
          ∙ last_of-drop w.max n (contents w) p (length-contents w r ∙ full) le
              (omega (arith, fits)),
    )
