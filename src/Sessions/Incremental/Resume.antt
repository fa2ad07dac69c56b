-- ===== src/Sessions/Incremental/Resume.antt =====
-- internal/sessions/incremental.go: the parse that goes on gives what the whole parse gives.
use pican.Base.{
  ℕ, ◌+◌, ◌<◌, ◌≡◌, ◌⊎◌, inl, inr, ◌≢◌, Bool, false, List, [], ◌∷◌, ◌++◌, Option, none, some,
  Result, ok, err, ltb, ◌==◌, length, take, drop, All-append, arith, refl, Bool-cases, All, sym,
  length-append, append_assoc, append-nil, ◌∙◌, ap,
}
use pican.Sessions.Incremental.{
  ParseError, ParseState, File, header_bytes, can_extend, scan, scan_appended_lines, on_trimmed,
  parse_cached, parsed, unless_failed, parse_full, with_header, with_stat,
}
use pican.Sessions.Bytes.{trim_bytes}

pub drop-past : {A : Type 0} (xs ys : List A) → drop (length xs) (xs ++ ys) ≡ ys
drop-past [] ys = refl
drop-past (x ∷ xs) ys = drop-past xs ys

abbrev pub NoNewline : List ℕ → Type 0
NoNewline = All (λ b. (b == 10) ≡ false)

module _ {State Raw : Type 0} (decode : List ℕ → Option Raw) (fold_line : State → Raw → State)
    (limit : ℕ) where
  abbrev run : Bool → ℕ → List ℕ → State → List ℕ → Result ParseError (ℕ × State)
  run = scan decode fold_line limit

  scan_pending :
      (broken : Bool) (c : ℕ) (p q : List ℕ) (st : State) (ys : List ℕ)
      → NoNewline q
      → run broken c p st (q ++ ys) ≡ run broken c (p ++ q) st ys
  unfolding scan
  scan_pending broken c p [] st ys h = rw (append-nil p) refl
  scan_pending broken c p (b ∷ q) st ys (e, h) =
      rw e (scan_pending broken c (p ++ b ∷ []) q st ys h ∙ rw (append_assoc p (b ∷ []) q) refl)

  -- Where a scan of the bytes `xs` stopped, and what a scan of more of them does.
  abbrev pub Resumes : ℕ → List ℕ → State → List ℕ → ℕ → State → Type 0
  Resumes c p st xs off st' =
      (done : List ℕ) × (rest : List ℕ) × (p ++ xs ≡ done ++ rest)
      × (off ≡ c + length done)
      × ((broken : Bool) (ys : List ℕ)
          → run broken c p st (xs ++ ys) ≡ run broken off [] st' (rest ++ ys))

  scan-Resumes :
      (broken : Bool) (c : ℕ) (p : List ℕ) (st : State) (xs : List ℕ) (off : ℕ) (st' : State)
      → NoNewline p
      → run broken c p st xs ≡ ok (off, st')
      → Resumes c p st xs off st'
  unfolding scan
  scan-Resumes broken c p st [] off st' h e =
      let short : ltb limit (length p) ≡ false = ground arith in
      let good : broken ≡ false = ground arith in
      let stops : ◌≡◌ {A = ℕ × State} (c, st) (off, st') = ground arith in
      let same_off : c ≡ off = ap (λ r. r.0) stops in
      let same_st : st ≡ st' = ap (λ r. r.1) stops in
      (
        [],
        p,
        append-nil p,
        omega arith,
        λ broken' ys. rw (← same_off, ← same_st) (sym (scan_pending broken' c [] p st ys h)),
      )
  scan-Resumes broken c p st (b ∷ bs) off st' h e = elim (Bool-cases (b == 10)) [
    | inl ends ↦
        let line = p ++ b ∷ [] in
        let next = on_trimmed decode fold_line limit st (trim_bytes line) in
        let short : ltb limit (length line) ≡ false = ground arith in
        let rest : run broken (c + length line) [] next bs ≡ ok (off, st') = ground arith in
        let (done, left, cut, place, same) =
          scan-Resumes broken (c + length line) [] next bs off st' tt rest in
        (
          line ++ done,
          left,
          rw (append_assoc p (b ∷ []) done, append_assoc p (b ∷ done) left)
              (ap (λ r. p ++ b ∷ r) cut),
          omega (arith, place, length-append {0} line done),
          λ broken' ys. rw (ends, short) (same broken' ys),
        )
    | inr inside ↦
        let line = p ++ b ∷ [] in
        let rest : run broken c line st bs ≡ ok (off, st') = ground arith in
        let (done, left, cut, place, same) =
          scan-Resumes broken c line st bs off st'
            (All-append (λ b. (b == 10) ≡ false) p (b ∷ []) h (inside, tt)) rest in
        (
          done,
          left,
          rw (← append_assoc p (b ∷ []) bs) cut,
          place,
          λ broken' ys. rw inside (same broken' ys),
        )
  ]

  module _ {Out : Type 0} (hash : List ℕ → ℕ) (finalize : State → Out) (start : State) where
    -- The state that a parse of these bytes left.
    abbrev pub Captured : ParseState State → List ℕ → Type 0
    Captured ps bytes = scan decode fold_line limit false 0 [] start bytes ≡ ok (ps.offset, ps.fold)

    abbrev parse : File → Option (ParseState State) → Result ParseError (Out × ParseState State)
    parse = parse_cached decode fold_line limit hash finalize start

    scan-Captured :
        (f : File) (ps : ParseState State) (old more : List ℕ)
        → f.bytes ≡ old ++ more
        → Captured ps old
        → scan_appended_lines decode fold_line limit f ps.offset ps.fold
          ≡ scan_appended_lines decode fold_line limit f 0 start
    unfolding scan_appended_lines
    scan-Captured f ps old more e h =
        let (done, rest, cut, place, same) =
          scan-Resumes false 0 [] start old ps.offset ps.fold tt h in
        let off : ps.offset ≡ length done = omega (arith, place) in
        let rest_is : drop (length done) (done ++ (rest ++ more)) ≡ rest ++ more =
          drop-past done (rest ++ more) in
        let split : old ++ more ≡ done ++ (rest ++ more) =
          ap (λ r. r ++ more) cut ∙ append_assoc done rest more in
        let at_rest : drop ps.offset f.bytes ≡ rest ++ more =
          ap (λ n. drop n f.bytes) off ∙ ap (drop (length done)) (e ∙ split) ∙ rest_is in
        ap (run f.broken ps.offset [] ps.fold) at_rest
        ∙ sym (same f.broken more)
        ∙ ap (run f.broken 0 [] start) (sym e)

    -- The recorded state is no start for this parse: nothing was folded, the file is now smaller,
    -- or the hash of its first bytes or their number differs.
    abbrev pub IsRewritten : ParseState State → ℕ → List ℕ → Type 0
    IsRewritten ps size header =
        (ps.offset ≡ 0)
        ⊎ (size < ps.size)
        ⊎ (hash header ≢ ps.header_hash)
        ⊎ (length header ≢ ps.header_hash_len)

    abbrev pub IsUsable : ParseState State → File → Type 0
    IsUsable ps f =
        ((old more : List ℕ) × (f.bytes ≡ old ++ more) × Captured ps old)
        ⊎ ((size : ℕ) (head : List ℕ)
            → f.stat ≡ some size
            → f.head ≡ some head
            → IsRewritten ps size (take header_bytes head))

    unless_failed-full :
        (f : File) (size : ℕ) (head : List ℕ) (r : Result ParseError (ℕ × State))
        → r ≡ scan_appended_lines decode fold_line limit f 0 start
        → unless_failed decode fold_line limit hash finalize start size head r
            (parse_full decode fold_line limit hash finalize start f size head)
          ≡ parse_full decode fold_line limit hash finalize start f size head
    unless_failed-full f size head (ok r) e = rw (← e) refl
    unless_failed-full f size head (err x) e = refl

    rewritten_no-can_extend :
        (ps : ParseState State) (size : ℕ) (head : List ℕ)
        → IsRewritten ps size head
        → can_extend ps size (hash head) (length head) ≡ false
    unfolding can_extend
    rewritten_no-can_extend ps size head (inl h) = ground arith
    rewritten_no-can_extend ps size head (inr (inl h)) = ground arith
    rewritten_no-can_extend ps size head (inr (inr (inl h))) = ground arith
    rewritten_no-can_extend ps size head (inr (inr (inr h))) = ground arith

    -- A parse that is handed the state of an earlier one gives the same as a parse of the whole
    -- file, its value, its new state and its error alike, where the file's bytes begin with those
    -- that the earlier parse read, and also where the file shrank, or its header or the header's
    -- length is another, or the earlier parse folded nothing. The new state is again that of a
    -- parse of the bytes that the file has, and these are the ones that it was parsed from.
    pub parse_cached-parse_full :
        (f : File) (ps : ParseState State) → IsUsable ps f → parse f (some ps) ≡ parse f none
    unfolding parse_cached
    parse_cached-parse_full f ps h = by_stat f.stat refl
      where
        by_head :
            (size : ℕ) (head : Option (List ℕ))
            → f.stat ≡ some size
            → f.head ≡ head
            → with_header decode fold_line limit hash finalize start f size head (some ps)
              ≡ with_header decode fold_line limit hash finalize start f size head none
        by_head size none a b = refl
        by_head size (some head) a b =
            elim (Bool-cases (
              can_extend ps size (hash (take header_bytes head))
                (length (take header_bytes head)))) [
                  | inr fresh ↦ rw fresh refl
                  | inl e ↦ elim h [
                    | inl (old, more, cut, caught) ↦ rw e (
                        unless_failed-full f size (take header_bytes head) _
                          (scan-Captured f ps old more cut caught))
                    | inr other ↦ absurd (
                        cc (
                          e,
                          rewritten_no-can_extend ps size (take header_bytes head)
                              (other size head a b),
                        ))
                  ]
                ]

        by_stat :
            (stat : Option ℕ)
            → f.stat ≡ stat
            → with_stat decode fold_line limit hash finalize start f stat (some ps)
              ≡ with_stat decode fold_line limit hash finalize start f stat none
        by_stat none a = refl
        by_stat (some size) a = by_head size f.head a refl

    scan_unbroken :
        (broken : Bool) (c : ℕ) (p : List ℕ) (st : State) (xs : List ℕ) (r : ℕ × State)
        → run broken c p st xs ≡ ok r
        → run false c p st xs ≡ ok r
    unfolding scan
    scan_unbroken broken c p st [] r e = ground arith
    scan_unbroken broken c p st (b ∷ bs) r e =
        let line = p ++ b ∷ [] in
        ground (
          arith,
          scan_unbroken broken (c + length line) []
              (on_trimmed decode fold_line limit st (trim_bytes line)) bs r,
          scan_unbroken broken c line st bs r,
        )

    -- The state that a parse of the whole file returns is captured from the bytes that it read, and
    -- the value that it returns with it is that state's, finalized.
    pub parse_full-Captured :
        (f : File) (out : Out) (ps : ParseState State)
        → parse f none ≡ ok (out, ps)
        → Captured ps f.bytes × (out ≡ finalize ps.fold)
    unfolding parse_cached scan_appended_lines
    parse_full-Captured f out ps e = by_stat f.stat e
      where
        by_scan :
            (size : ℕ) (head : List ℕ) (r : Result ParseError (ℕ × State))
            → run f.broken 0 [] start f.bytes ≡ r
            → parsed decode fold_line limit hash finalize start size head r ≡ ok (out, ps)
            → Captured ps f.bytes × (out ≡ finalize ps.fold)
        by_scan size head (err x) a h = cc
        by_scan size head (ok (off, st)) a h =
            let same : ◌≡◌ {A = ℕ × State} (off, st) (ps.offset, ps.fold) = ground arith in
            (
              scan_unbroken f.broken 0 [] start f.bytes (ps.offset, ps.fold) (a ∙ ap ok same),
              ground arith,
            )

        by_head :
            (size : ℕ) (head : Option (List ℕ))
            → with_header decode fold_line limit hash finalize start f size head none ≡ ok (out, ps)
            → Captured ps f.bytes × (out ≡ finalize ps.fold)
        by_head size none h = cc
        by_head size (some head) h = by_scan size (take header_bytes head) _ refl h

        by_stat :
            (stat : Option ℕ)
            → with_stat decode fold_line limit hash finalize start f stat none ≡ ok (out, ps)
            → Captured ps f.bytes × (out ≡ finalize ps.fold)
        by_stat none h = cc
        by_stat (some size) h = by_head size f.head h
