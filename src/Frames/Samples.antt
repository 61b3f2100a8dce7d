-- ===== src/Frames/Samples.antt =====
-- Two frames of a log stream, whole and in chunks.
use nosana_node.Base.{
  ℕ, ◌≡◌, refl, not, List, [], ◌∷◌, ◌++◌, map, arith, is_empty, select, take, drop,
}
use nosana_node.Frames.{
  stdout, has_frame, frames_loop, parse_log_frames, on_chunks, parse_buffer, parse_content,
  chunk_length, match_timestamp,
}
use nosana_node.Frames.Chunks.{joined, on_chunks-joined}
use nosana_node.Frames.Encoding.{Frame, encode, encode_all, log_of, parse_log_frames-encode}

abbrev same_bytes : List ℕ → List ℕ
same_bytes bytes = bytes

abbrev noon : List ℕ
noon = b'1' ∷ b'2' ∷ []

abbrev hello : Frame
hello = record { chunk_type = 1; payload = b'h' ∷ b'i' ∷ [] }

hello_read :
    parse_log_frames same_bytes noon (encode hello)
    ≡ (record { log = b'h' ∷ b'i' ∷ []; kind = stdout; timestamp = noon } ∷ [], [])
unfolding parse_log_frames frames_loop has_frame parse_buffer parse_content chunk_length
    match_timestamp
hello_read = refl

parse_log_frames-encode_example :
    parse_log_frames same_bytes noon (encode_all (hello ∷ []) ++ take 9 (encode hello))
    ≡ (map (log_of same_bytes noon) (hello ∷ []), take 9 (encode hello))
parse_log_frames-encode_example =
    parse_log_frames-encode same_bytes noon (hello ∷ []) hello 9 ((omega arith), tt) (omega arith)
      (omega arith)

abbrev chunks : List (List ℕ)
chunks = take 5 (encode hello) ∷ drop 5 (encode hello) ∷ []

on_chunks-joined_example :
    let whole_stream = parse_log_frames same_bytes noon (joined chunks) in
    on_chunks same_bytes noon ([], []) chunks
    ≡ (whole_stream.1, select (λ entry. not (is_empty entry.log)) whole_stream.0)
on_chunks-joined_example = on_chunks-joined same_bytes noon chunks
