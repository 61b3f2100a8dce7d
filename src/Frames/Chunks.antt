-- ===== src/Frames/Chunks.antt =====
-- However the bytes of a log stream are cut into chunks, the same logs come out.
use nosana_node.Base.{
  ℕ, suc, zero, ◌+◌, ◌≤◌, ◌<◌, ◌≡◌, refl, ap, ◌∙◌, inl, inr, true, false, not, List, [], ◌∷◌, ◌++◌,
  append-nil, append_assoc, arith, Bool-cases, length, is_empty, select, select-append, drop,
  length-append, length-drop, take-append_of_le, drop-append_of_le,
}
use nosana_node.Frames.{
  Log, header_bytes, u32_be, first_byte, chunk_length, parse_buffer, has_frame, frames_loop,
  parse_log_frames, on_data, on_chunks,
}

u32_be-append : (xs ys : List ℕ) → 4 ≤ length xs → u32_be (xs ++ ys) ≡ u32_be xs
u32_be-append (a ∷ b ∷ c ∷ d ∷ xs) ys h = refl
u32_be-append [] ys h = absurd (omega arith)
u32_be-append (a ∷ []) ys h = absurd (omega arith)
u32_be-append (a ∷ b ∷ []) ys h = absurd (omega arith)
u32_be-append (a ∷ b ∷ c ∷ []) ys h = absurd (omega arith)

first_byte-append : (xs ys : List ℕ) → 0 < length xs → first_byte (xs ++ ys) ≡ first_byte xs
first_byte-append [] ys h = absurd (omega arith)
first_byte-append (x ∷ xs) ys h = refl

pub chunk_length-append :
    (xs ys : List ℕ) → header_bytes ≤ length xs → chunk_length (xs ++ ys) ≡ chunk_length xs
unfolding chunk_length
chunk_length-append xs ys h =
    ap u32_be (drop-append_of_le 4 xs ys (omega arith))
    ∙ u32_be-append (drop 4 xs) ys (omega (arith, length-drop 4 xs))

abbrev shown : List Log → List Log
shown logs = select (λ entry. not (is_empty entry.log)) logs

abbrev pub joined : List (List ℕ) → List ℕ
joined [] = []
joined (c ∷ cs) = c ++ joined cs

module _ (to_text : List ℕ → List ℕ) (now : List ℕ) where
  pub whole :
      (xs : List ℕ)
      → has_frame to_text now xs ≡ true
      → (header_bytes ≤ length xs) × (header_bytes + chunk_length xs ≤ length xs)
  unfolding has_frame
  whole xs h = ground arith

  has_frame-append :
      (xs ys : List ℕ) → has_frame to_text now xs ≡ true → has_frame to_text now (xs ++ ys) ≡ true
  unfolding has_frame
  has_frame-append xs ys h = ground (arith, chunk_length-append xs ys, length-append xs ys)

  parse_buffer-append :
      (xs ys : List ℕ)
      → has_frame to_text now xs ≡ true
      → parse_buffer to_text now (xs ++ ys) ≡ parse_buffer to_text now xs
  unfolding parse_buffer
  parse_buffer-append xs ys h =
      let (header, frame) = whole xs h in
      rw (
        chunk_length-append xs ys header,
        first_byte-append xs ys (omega arith),
        drop-append_of_le 8 xs ys header,
        take-append_of_le (chunk_length xs) (drop 8 xs) ys (omega (arith, length-drop 8 xs)),
      )

  -- Any fuel that reaches the buffer's length gives the same.
  frames_loop_fuel :
      (f g : ℕ) (xs : List ℕ)
      → length xs ≤ f
      → length xs ≤ g
      → frames_loop to_text now f xs ≡ frames_loop to_text now g xs
  unfolding frames_loop
  frames_loop_fuel zero zero xs h k = refl
  frames_loop_fuel zero (suc g) xs h k = elim (Bool-cases (has_frame to_text now xs)) [
    | inl some_frame ↦ absurd (omega (arith, whole xs some_frame))
    | inr no_frame ↦ rw no_frame
  ]
  frames_loop_fuel (suc f) zero xs h k = elim (Bool-cases (has_frame to_text now xs)) [
    | inl some_frame ↦ absurd (omega (arith, whole xs some_frame))
    | inr no_frame ↦ rw no_frame
  ]
  frames_loop_fuel (suc f) (suc g) xs h k = elim (Bool-cases (has_frame to_text now xs)) [
    | inl some_frame ↦
        let left = header_bytes + chunk_length xs in
        let shorter : length (drop left xs) + 8 ≤ length xs =
          omega (arith, whole xs some_frame, length-drop left xs) in
        rw (frames_loop_fuel f g (drop left xs) (omega arith) (omega arith))
    | inr no_frame ↦ rw no_frame
  ]

  abbrev pub and_then : List Log × List ℕ → List ℕ → List Log × List ℕ
  and_then first ys =
      let second = parse_log_frames to_text now (first.1 ++ ys) in (first.0 ++ second.0, second.1)

  frames_loop-append :
      (f g : ℕ) (xs ys : List ℕ)
      → length xs ≤ f
      → length (xs ++ ys) ≤ g
      → frames_loop to_text now g (xs ++ ys) ≡ and_then (frames_loop to_text now f xs) ys
  unfolding frames_loop parse_log_frames
  frames_loop-append zero g xs ys h k =
      frames_loop_fuel g (length (xs ++ ys)) (xs ++ ys) k (omega arith)
  frames_loop-append (suc f) g xs ys h k = elim (Bool-cases (has_frame to_text now xs)) [
    | inr no_frame ↦ rw no_frame (frames_loop_fuel g (length (xs ++ ys)) (xs ++ ys) k (omega arith))
    | inl some_frame ↦ step g k some_frame (λ g' k'.
        frames_loop-append f g' (drop (header_bytes + chunk_length xs) xs) ys
          (omega (arith, whole xs some_frame, length-drop (header_bytes + chunk_length xs) xs)) k')
  ]
    where
      left : List ℕ
      left = drop (header_bytes + chunk_length xs) xs

      step :
          (g : ℕ)
          → length (xs ++ ys) ≤ g
          → has_frame to_text now xs ≡ true
          → ((g' : ℕ)
              → length (left ++ ys) ≤ g'
              → frames_loop to_text now g' (left ++ ys)
                ≡ and_then (frames_loop to_text now f left) ys)
          → frames_loop to_text now g (xs ++ ys) ≡ and_then (frames_loop to_text now (suc f) xs) ys
      step zero k e ih = absurd (omega (arith, whole xs e, length-append xs ys))
      step (suc g) k e ih =
          let (header, frame) = whole xs e in
          rw
            (
              has_frame-append xs ys e,
              e,
              parse_buffer-append xs ys e,
              chunk_length-append xs ys header,
              drop-append_of_le (header_bytes + chunk_length xs) xs ys frame,
              ih g (
                  omega (
                    arith,
                    length-append xs ys,
                    length-append left ys,
                    length-drop (header_bytes + chunk_length xs) xs,
                  )),
            )
            refl

  -- A buffer that arrives in two parts is parsed like the whole, if what the first part leaves is
  -- put before the second.
  pub parse_log_frames-append :
      (xs ys : List ℕ)
      → parse_log_frames to_text now (xs ++ ys) ≡ and_then (parse_log_frames to_text now xs) ys
  unfolding parse_log_frames
  parse_log_frames-append xs ys =
      frames_loop-append (length xs) (length (xs ++ ys)) xs ys (omega arith) (omega arith)

  has_frame-rest :
      (f : ℕ) (xs : List ℕ)
      → length xs ≤ f
      → has_frame to_text now (frames_loop to_text now f xs).1 ≡ false
  unfolding frames_loop has_frame
  has_frame-rest zero xs h = ground arith
  has_frame-rest (suc f) xs h = elim (Bool-cases (has_frame to_text now xs)) [
    | inl some_frame ↦ rw some_frame (
        has_frame-rest f (drop (header_bytes + chunk_length xs) xs)
          (omega (arith, whole xs some_frame, length-drop (header_bytes + chunk_length xs) xs)))
    | inr no_frame ↦ rw no_frame no_frame
  ]

  nil_no_frame : has_frame to_text now [] ≡ false
  unfolding has_frame
  nil_no_frame = ground arith

  frames_loop-no_frame :
      (f : ℕ) (xs : List ℕ)
      → has_frame to_text now xs ≡ false
      → frames_loop to_text now f xs ≡ ([], xs)
  unfolding frames_loop
  frames_loop-no_frame zero xs h = refl
  frames_loop-no_frame (suc f) xs h = rw h

  pub parse-no_frame :
      (xs : List ℕ) → has_frame to_text now xs ≡ false → parse_log_frames to_text now xs ≡ ([], xs)
  unfolding parse_log_frames
  parse-no_frame xs h = frames_loop-no_frame (length xs) xs h

  drop_whole : (n : ℕ) (xs : List ℕ) → length xs ≡ n → drop n xs ≡ []
  drop_whole zero [] h = refl
  drop_whole zero (x ∷ xs) h = absurd (omega arith)
  drop_whole (suc n) [] h = refl
  drop_whole (suc n) (x ∷ xs) h = drop_whole n xs (omega arith)

  loop_single :
      (f : ℕ) (xs : List ℕ)
      → length xs ≤ f
      → has_frame to_text now xs ≡ true
      → length xs ≡ header_bytes + chunk_length xs
      → frames_loop to_text now f xs ≡ (parse_buffer to_text now xs ∷ [], [])
  unfolding frames_loop
  loop_single zero xs k h e = absurd (omega (arith, whole xs h))
  loop_single (suc f) xs k h e =
      rw (
        h,
        drop_whole (header_bytes + chunk_length xs) xs e,
        frames_loop-no_frame f [] nil_no_frame,
      )

  -- A buffer that is one frame.
  pub parse_single :
      (xs : List ℕ)
      → has_frame to_text now xs ≡ true
      → length xs ≡ header_bytes + chunk_length xs
      → parse_log_frames to_text now xs ≡ (parse_buffer to_text now xs ∷ [], [])
  unfolding parse_log_frames
  parse_single xs h e = loop_single (length xs) xs (omega arith) h e

  -- What `parseLogFrames` leaves holds no whole frame.
  parse_rest :
      (xs : List ℕ)
      → parse_log_frames to_text now (parse_log_frames to_text now xs).1
        ≡ ([], (parse_log_frames to_text now xs).1)
  unfolding parse_log_frames
  parse_rest xs = frames_loop-no_frame _ _ (has_frame-rest (length xs) xs (omega arith))

  on_chunks-parse :
      (chunks : List (List ℕ)) (rest : List ℕ) (out : List Log)
      → parse_log_frames to_text now rest ≡ ([], rest)
      → on_chunks to_text now (rest, out) chunks ≡ (
        (parse_log_frames to_text now (rest ++ joined chunks)).1,
        out ++ shown (parse_log_frames to_text now (rest ++ joined chunks)).0,
      )
  unfolding on_chunks on_data
  on_chunks-parse [] rest out h = rw (append-nil rest, h, append-nil out)
  on_chunks-parse (c ∷ chunks) rest out h =
      let first = parse_log_frames to_text now (rest ++ c) in
      on_chunks-parse chunks first.1 (out ++ shown first.0) (parse_rest (rest ++ c))
      ∙ rw (
        ← append_assoc rest c (joined chunks),
        parse_log_frames-append (rest ++ c) (joined chunks),
        select-append,
        append_assoc,
      )

-- However a log stream is cut into chunks, `on('data')` emits the logs that `parseLogFrames` reads
-- from the whole stream, less the empty ones, and holds back the bytes that it leaves.
pub on_chunks-joined :
    (to_text : List ℕ → List ℕ) (now : List ℕ) (chunks : List (List ℕ))
    → let whole_stream = parse_log_frames to_text now (joined chunks) in
      on_chunks to_text now ([], []) chunks
      ≡ (whole_stream.1, select (λ entry. not (is_empty entry.log)) whole_stream.0)
unfolding parse_log_frames frames_loop
on_chunks-joined to_text now chunks = on_chunks-parse to_text now chunks [] [] refl
