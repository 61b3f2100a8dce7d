-- ===== src/Frames/Encoding.antt =====
-- The frames of the Docker engine, written out, and that `parseLogFrames` reads them back.
use nosana_node.Base.{
  take-append-drop, length-take_of_le, ℕ, ◌/◌, ◌%◌, ◌^◌, ◌<◌, ◌≡◌, refl, sym, ap, ◌∙◌, inl, inr,
  true, false, List, [], ◌∷◌, ◌++◌, map, append_assoc, arith, All, Bool-cases, length, take, drop,
}
use nosana_node.Frames.{Log, chunk_length, parse_content, parse_buffer, has_frame, parse_log_frames}
use nosana_node.Frames.Chunks.{
  whole, chunk_length-append, parse_log_frames-append, parse_single, parse-no_frame,
}

-- A frame of the documented format: the stream's type, three zeros, the length of the payload in
-- four bytes, the highest first, and the payload.
pub record Frame : Type 0 where
  pub chunk_type : ℕ
  pub payload : List ℕ

abbrev pub encode : Frame → List ℕ
encode frame =
    let n = length frame.payload in
    frame.chunk_type
    ∷ 0
    ∷ 0
    ∷ 0
    ∷ (n / 2 ^ 24 % 256)
    ∷ (n / 2 ^ 16 % 256)
    ∷ (n / 2 ^ 8 % 256)
    ∷ (n % 256)
    ∷ frame.payload

abbrev pub encode_all : List Frame → List ℕ
encode_all [] = []
encode_all (frame ∷ frames) = encode frame ++ encode_all frames

abbrev pub FitsHeader : Frame → Type 0
FitsHeader frame = length frame.payload < 2 ^ 32

chunk_length-encode :
    (frame : Frame) → FitsHeader frame → chunk_length (encode frame) ≡ length frame.payload
unfolding chunk_length
chunk_length-encode frame h = omega arith

take_all {ℓ} : {A : Type ℓ} (xs : List A) → take (length xs) xs ≡ xs
take_all [] = refl
take_all (x ∷ xs) = ap (λ l. x ∷ l) (take_all xs)

drop_all {ℓ} : {A : Type ℓ} (xs : List A) → drop (length xs) xs ≡ []
drop_all [] = refl
drop_all (x ∷ xs) = drop_all xs

module _ (to_text : List ℕ → List ℕ) (now : List ℕ) where
  unfoldable pub log_of : Frame → Log
  log_of frame = parse_content to_text now frame.chunk_type frame.payload

  has_frame-encode :
      (frame : Frame) → FitsHeader frame → has_frame to_text now (encode frame) ≡ true
  unfolding has_frame
  has_frame-encode frame h = ground (arith, chunk_length-encode frame h)

  parse_one :
      (frame : Frame)
      → FitsHeader frame
      → parse_log_frames to_text now (encode frame) ≡ (log_of frame ∷ [], [])
  unfolding parse_buffer log_of
  parse_one frame h =
      parse_single to_text now (encode frame) (has_frame-encode frame h)
        (omega (arith, chunk_length-encode frame h))
      ∙ rw (chunk_length-encode frame h, take_all frame.payload)

  parse-All :
      (frames : List Frame) (tail : List ℕ)
      → All FitsHeader frames
      → has_frame to_text now tail ≡ false
      → parse_log_frames to_text now (encode_all frames ++ tail) ≡ (map log_of frames, tail)
  parse-All [] tail k h = parse-no_frame to_text now tail h
  parse-All (frame ∷ frames) tail k h = rw (append_assoc (encode frame) (encode_all frames) tail) (
      parse_log_frames-append to_text now (encode frame) (encode_all frames ++ tail)
      ∙ rw (parse_one frame k.0, parse-All frames tail k.1 h))

  has_frame-take :
      (k : ℕ) (frame : Frame)
      → FitsHeader frame
      → k < length (encode frame)
      → has_frame to_text now (take k (encode frame)) ≡ false
  has_frame-take k frame h short =
      elim (Bool-cases (has_frame to_text now (take k (encode frame)))) [
        | inr none_there ↦ none_there
        | inl found ↦
            let (header, fits) = whole to_text now (take k (encode frame)) found in
            let same : chunk_length (take k (encode frame)) ≡ chunk_length (encode frame) =
              sym (chunk_length-append (take k (encode frame)) (drop k (encode frame)) header)
              ∙ ap chunk_length (take-append-drop k (encode frame)) in
            absurd (
              omega (
                arith,
                same,
                chunk_length-encode frame h,
                length-take_of_le k (encode frame) (omega arith),
              ))
      ]

-- `parseLogFrames` reads any frames of the documented format back, whatever the payloads (of less
-- than 2^32 bytes), and of a frame that has only begun to arrive it keeps every byte.
pub parse_log_frames-encode :
    (to_text : List ℕ → List ℕ) (now : List ℕ) (frames : List Frame) (begun : Frame) (k : ℕ)
    → All FitsHeader frames
    → FitsHeader begun
    → k < length (encode begun)
    → parse_log_frames to_text now (encode_all frames ++ take k (encode begun))
      ≡ (map (log_of to_text now) frames, take k (encode begun))
parse_log_frames-encode to_text now frames begun k h hb short =
    parse-All to_text now frames (take k (encode begun)) h
      (has_frame-take to_text now k begun hb short)
