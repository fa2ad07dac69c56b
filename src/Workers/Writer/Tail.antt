-- ===== src/Workers/Writer/Tail.antt =====
-- internal/workers/bounded_writer.go: the contents are the last bytes of all that was written.
use pican.Base.{
  ℕ, zero, suc, ◌+◌, ◌-◌, ◌<◌, ◌≤◌, ◌≡◌, refl, ◌∙◌, sym, ap, inl, inr, true, false, List, [], ◌∷◌,
  ◌++◌, ltb, leb, ◌==◌, length, take, drop, length-append, append_assoc, append-nil, arith,
  Bool-cases, List-cases,
}
use pican.Base.Slices.{length-drop, drop-drop, drop-append_le, drop-append_at, drop_all}
use pican.Workers.Writer.Rounds.{
  last_of, IsRing, IsReady, contents_front, length-contents, copied, Takes, fill-Takes, wrap-Takes,
}
use pican.Workers.Writer.{
  Writer, zeros, copy_at, fill_count, fill, wrap_count, wrap, write_rest, allocated,
  write_allocated, write, contents,
}

unchanged : (m : ℕ) (xs : List ℕ) → length xs ≤ m → last_of m (xs ++ []) ≡ xs
unchanged m xs h =
    let none_over : length (xs ++ []) - m ≡ 0 = omega (arith, length-append {A = ℕ} xs []) in
    ap (λ n. drop n (xs ++ [])) none_over ∙ append-nil xs

write_rest_lem :
    (fuel : ℕ) (w : Writer) (p : List ℕ)
    → IsReady w
    → length p ≤ fuel
    → let v = write_rest fuel w p in
      IsReady v × (v.max ≡ w.max) × (contents v ≡ last_of w.max (contents w ++ p))
unfolding write_rest
write_rest_lem zero w [] r h =
    (r, refl, sym (unchanged w.max (contents w) (omega (arith, length-contents w r, r.fits))))
write_rest_lem zero w (b ∷ bs) r h = absurd (omega arith)
write_rest_lem (suc fuel) w [] r h =
    (r, refl, sym (unchanged w.max (contents w) (omega (arith, length-contents w r, r.fits))))
write_rest_lem (suc fuel) w (b ∷ bs) r h = elim (Bool-cases (ltb w.size w.max)) [
  | inl filling ↦ rw filling (
      onward (fill w (b ∷ bs)) (fill_count w (b ∷ bs))
        (fill-Takes w (b ∷ bs) r (omega arith) (ground arith))
        (write_rest_lem fuel (fill w (b ∷ bs)) (drop (fill_count w (b ∷ bs)) (b ∷ bs))))
  | inr full ↦ rw full (
      onward (wrap w (b ∷ bs)) (wrap_count w (b ∷ bs))
        (wrap-Takes w (b ∷ bs) r (omega arith) (ground (arith, r.fits)))
        (write_rest_lem fuel (wrap w (b ∷ bs)) (drop (wrap_count w (b ∷ bs)) (b ∷ bs))))
]
  where
    onward :
        (v : Writer) (n : ℕ)
        → Takes w (b ∷ bs) n v
        → (IsReady v
            → length (drop n (b ∷ bs)) ≤ fuel
            → IsReady (write_rest fuel v (drop n (b ∷ bs)))
              × ((write_rest fuel v (drop n (b ∷ bs))).max ≡ v.max)
              × (contents (write_rest fuel v (drop n (b ∷ bs)))
                  ≡ last_of v.max (contents v ++ drop n (b ∷ bs))))
        → IsReady (write_rest fuel v (drop n (b ∷ bs)))
          × ((write_rest fuel v (drop n (b ∷ bs))).max ≡ w.max)
          × (contents (write_rest fuel v (drop n (b ∷ bs)))
              ≡ last_of w.max (contents w ++ (b ∷ bs)))
    onward v n (ok_v, max, pos, le, same) ih =
        let (r', max', is) = ih ok_v (omega (arith, h, length-drop n (b ∷ bs))) in
        (r', max' ∙ max, is ∙ ap (λ m. last_of m (contents v ++ drop n (b ∷ bs))) max ∙ same)

contents_none : (w : Writer) → w.size ≡ 0 → contents w ≡ []
unfolding contents
contents_none w h = let none_yet : (w.size == 0) ≡ true = ground arith in rw none_yet refl

length-zeros : (n : ℕ) → length (zeros n) ≡ n
length-zeros zero = refl
length-zeros (suc n) = omega (arith, length-zeros n)

allocated-IsReady :
    (w : Writer)
    → IsRing w
    → 0 < w.max
    → IsReady (allocated w) × ((allocated w).max ≡ w.max) × (contents (allocated w) ≡ contents w)
allocated-IsReady w r pos = elim (Bool-cases (length w.buf == w.max)) [
  | inl there ↦ rw there (
    record {
      full_buf = ground arith;
      fits = r.fits;
      from_front = r.from_front;
      inside = r.inside pos;
    },
    refl,
    refl,
  )
  | inr missing ↦
      let empty : w.size ≡ 0 = ground (arith, r.sized) in
      rw missing (
        record {
          full_buf = length-zeros w.max;
          fits = omega arith;
          from_front = λ h. refl;
          inside = pos;
        },
        refl,
        contents_none (record w { buf = zeros w.max; start = 0; size = 0 }) refl
            ∙ sym (contents_none w empty),
      )
]

ready-IsRing : (w : Writer) → IsReady w → IsRing w
ready-IsRing w r = record {
  sized = inl r.full_buf;
  fits = r.fits;
  from_front = r.from_front;
  inside = λ h. r.inside;
}

contents-le : (w : Writer) → IsRing w → length (contents w) ≤ w.max
contents-le w r = elim (Bool-cases (length w.buf == w.max)) [
  | inr missing ↦
      let empty : w.size ≡ 0 = ground (arith, r.sized) in rw (contents_none w empty) (omega arith)
  | inl there ↦ elim (Bool-cases (w.max == 0)) [
    | inl none_max ↦
        let empty : w.size ≡ 0 = ground (arith, r.fits) in rw (contents_none w empty) (omega arith)
    | inr some_max ↦
        let ready : IsReady w = record {
          full_buf = ground arith;
          fits = r.fits;
          from_front = r.from_front;
          inside = ground (arith, r.inside);
        } in
        omega (arith, length-contents w ready, r.fits)
  ]
]

-- A write of at least as many bytes as the ring holds.
overwritten :
    (w : Writer) (p old : List ℕ)
    → IsReady w
    → w.max ≤ length p
    → let v = record w {
      buf = copy_at 0 (drop (length p - w.max) p) w.buf;
      start = 0;
      size = w.max;
    } in
      IsReady v × (contents v ≡ last_of w.max (old ++ p))
overwritten w p old r long =
    let q = drop (length p - w.max) p in
    let size : length q ≡ w.max = omega (arith, length-drop (length p - w.max) p, long) in
    let (len, head, tail) = copied 0 w.max w.max q w.buf r.full_buf size (omega arith) in
    let same : w.max ≡ 0 + w.max = omega arith in
    let ready : IsReady (record w { buf = copy_at 0 q w.buf; start = 0; size = w.max }) = record {
      full_buf = len;
      fits = omega arith;
      from_front = λ h. refl;
      inside = omega (arith, r.inside);
    } in
    (
      ready,
      contents_front (record w { buf = copy_at 0 q w.buf; start = 0; size = w.max }) ready refl
          ∙ ap (λ k. take k (copy_at 0 q w.buf)) same
          ∙ head
          ∙ ap (drop (length p - w.max)) (sym (drop-append_at (length old) old p refl))
          ∙ drop-drop (length old) (length p - w.max) (length (old ++ p) - w.max) (old ++ p)
              (omega (arith, length-append old p, long)),
    )

write_allocated-contents :
    (w : Writer) (p : List ℕ)
    → IsReady w
    → let v = write_allocated w p in
      IsRing v × (v.max ≡ w.max) × (contents v ≡ last_of w.max (contents w ++ p))
unfolding write_allocated
write_allocated-contents w p r = elim (Bool-cases (leb w.max (length p))) [
  | inl long ↦
      let (ready, is) = overwritten w p (contents w) r (ground arith) in
      rw long (
        ready-IsRing
            (record w {
              buf = copy_at 0 (drop (length p - w.max) p) w.buf;
              start = 0;
              size = w.max;
            })
            ready,
        refl,
        is,
      )
  | inr short ↦
      let (ready, max, is) = write_rest_lem (length p) w p r (omega arith) in
      rw short (ready-IsRing (write_rest (length p) w p) ready, max, is)
]

write-contents :
    (w : Writer) (p : List ℕ)
    → IsRing w
    → let v = write w p in
      IsRing v × (v.max ≡ w.max) × (contents v ≡ last_of w.max (contents w ++ p))
unfolding write
write-contents w p r = elim (Bool-cases (w.max == 0)) [
  | inl none_max ↦
      let zero_max : w.max ≡ 0 = ground arith in
      let empty : w.size ≡ 0 = omega (arith, r.fits, zero_max) in
      rw none_max (
        r,
        refl,
        contents_none w empty
            ∙ sym (
                drop_all (length (contents w ++ p) - w.max) (contents w ++ p)
                  (omega (arith, zero_max))),
      )
  | inr some_max ↦ elim (List-cases p) [
    | inl none_written ↦
        rw (some_max, none_written) (r, refl, sym (unchanged w.max (contents w) (contents-le w r)))
    | inr (b, bs, e) ↦
        let some_written : (length p == 0) ≡ false = ground (arith, ap length e) in
        let (ready, max, same) = allocated-IsReady w r (ground arith) in
        let (ring, max', is) = write_allocated-contents (allocated w) p ready in
        rw (some_max, some_written)
          (
            ring,
            max' ∙ max,
            is
                ∙ ap (λ m. last_of m (contents (allocated w) ++ p)) max
                ∙ ap (λ c. last_of w.max (c ++ p)) same,
          )
  ]
]

last_of-append : (m : ℕ) (xs ys : List ℕ) → last_of m (last_of m xs ++ ys) ≡ last_of m (xs ++ ys)
last_of-append m xs ys =
    let k = length xs - m in
    let joined : last_of m xs ++ ys ≡ drop k (xs ++ ys) =
      sym (drop-append_le k xs ys (omega arith)) in
    ap (last_of m) joined
    ∙ drop-drop k (length (drop k (xs ++ ys)) - m) (length (xs ++ ys) - m) (xs ++ ys)
        (omega (arith, length-drop k (xs ++ ys), length-append xs ys))

abbrev pub joined : List (List ℕ) → List ℕ
joined [] = []
joined (p ∷ ps) = p ++ joined ps

abbrev pub writes : Writer → List (List ℕ) → Writer
writes w [] = w
writes w (p ∷ ps) = writes (write w p) ps

writes_from :
    (w : Writer) (ps : List (List ℕ))
    → IsRing w
    → IsRing (writes w ps) × (contents (writes w ps) ≡ last_of w.max (contents w ++ joined ps))
writes_from w [] r = (r, sym (unchanged w.max (contents w) (contents-le w r)))
writes_from w (p ∷ ps) r =
    let (ring, max, is) = write-contents w p r in
    let (ring', is') = writes_from (write w p) ps ring in
    (
      ring',
      is'
          ∙ ap (λ m. last_of m (contents (write w p) ++ joined ps)) max
          ∙ ap (λ c. last_of w.max (c ++ joined ps)) is
          ∙ last_of-append w.max (contents w ++ p) (joined ps)
          ∙ ap (last_of w.max) (append_assoc (contents w) p (joined ps)),
    )

abbrev pub blank : ℕ → Writer
blank max = record { max = max; buf = []; start = 0; size = 0 }

-- A writer holds the last bytes of all that was ever written to it, in order and as many as its
-- bound, or all of them where they are fewer; its count stays within the bound.
pub writes-contents :
    (max : ℕ) (ps : List (List ℕ))
    → (contents (writes (blank max) ps) ≡ last_of max (joined ps))
      × (length (contents (writes (blank max) ps)) ≤ max)
writes-contents max ps =
    let ring : IsRing (blank max) = record {
      sized = inr refl;
      fits = omega arith;
      from_front = λ h. refl;
      inside = λ h. h;
    } in
    let (ring', is) = writes_from (blank max) ps ring in
    let all_of : contents (writes (blank max) ps) ≡ last_of max (joined ps) =
      is ∙ ap (λ c. last_of max (c ++ joined ps)) (contents_none (blank max) refl) in
    (all_of, omega (arith, ap length all_of, length-drop (length (joined ps) - max) (joined ps)))
