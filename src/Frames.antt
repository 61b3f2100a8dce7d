-- ===== src/Frames.antt =====
-- NodeManager/provider/utils/parseBuffer.ts: the frames of a container's log stream, and the part
-- of NodeManager/provider/ContainerStateManager.ts that feeds the stream to it chunk by chunk.
-- A buffer is a list of bytes, a text a list of character codes.
pub mod Chunks
pub mod Encoding
mod Samples
use nosana_node.Base.{
  String, str_eq, eq_iff, eq_refl, ℕ, suc, zero, ◌+◌, ◌-◌, ◌*◌, ◌/◌, ◌%◌, ◌^◌, ◌≤◌, ◌<◌, ◌≡◌, refl,
  sym, ap, ◌∙◌, ◌≢◌, ◌↔◌, ◌⊎◌, inl, inr, Bool, true, false, not, ◌&&◌, ◌||◌, Option, none, some,
  List, [], ◌∷◌, ◌++◌, map, append-nil, append_assoc, map-append, arith, if◌then◌else◌, is_some,
  or_else, contains, count, count-append, contains-append, contains-remove, contains-add_member,
  remove, add_member, IsDistinct, All, All-append, Bool-cases, Option-cases, Result, ok, err,
  >>=-eq-ok, ltb, leb, ◌==◌, length, is_empty, select, select-append, get_elem?, set, take, drop,
  all, any, length-append,
}

pub data Std : Type 0 where
  stdout stderr : Std

pub record Log : Type 0 where
  pub log : List ℕ
  pub kind : Std
  pub timestamp : List ℕ

-- A matcher consumes a prefix, and returns what it matched and the rest.
abbrev Matcher : Type 0
Matcher = List ℕ → Option (List ℕ × List ℕ)

abbrev one : (ℕ → Bool) → Matcher
one p [] = none
one p (c ∷ s) = if p c then some (c ∷ [], s) else none

infixr 20 ◌then◌
abbrev ◌then◌ : Matcher → Matcher → Matcher
◌then◌ m n s = elim (m s) [
  | none ↦ none
  | some (a, s') ↦ elim (n s') [ none ↦ none | some (b, s'') ↦ some (a ++ b, s'') ]
]

abbrev is_digit : ℕ → Bool
is_digit c = leb b'0' c && leb c b'9'

abbrev digits : ℕ → Matcher
digits zero s = some ([], s)
digits (suc n) s = (one is_digit then digits n) s

abbrev lit : ℕ → Matcher
lit c = one (λ d. d == c)

-- `\d*`, greedy
many_digits : List ℕ → List ℕ × List ℕ
many_digits [] = ([], [])
many_digits (c ∷ s) =
    let more = many_digits s in if is_digit c then (c ∷ more.0, more.1) else ([], c ∷ s)

-- `(?:\.\d+)?`. What follows it is no digit and no dot, so giving digits back never helps.
abbrev fraction : Matcher
fraction s = elim ((lit b'.' then one is_digit then (λ t. some (many_digits t))) s) [
  | none ↦ some ([], s)
  | some found ↦ some found
]

-- `(?:Z|[+-]\d{2}:\d{2})`
abbrev zone : Matcher
zone s = elim (lit b'Z' s) [
  | none ↦ (one (λ c. c == b'+' || c == b'-') then digits 2 then lit b':' then digits 2) s
  | some found ↦ some found
]

-- The characters of `\s`.
abbrev is_space : ℕ → Bool
is_space c =
    (leb 9 c && leb c 13)
    || c == 32
    || c == 160
    || c == 5760
    || (leb 8192 c && leb c 8202)
    || c == 8232
    || c == 8233
    || c == 8239
    || c == 8287
    || c == 12288
    || c == 65279

-- `TIMESTAMP_REGEX` at the start of a text: the timestamp without its space, and the rest.
unfoldable pub match_timestamp : List ℕ → Option (List ℕ × List ℕ)
unfolding many_digits
match_timestamp s =
    elim ((digits 4
        then lit b'-'
        then digits 2
        then lit b'-'
        then digits 2
        then lit b'T'
        then digits 2
        then lit b':'
        then digits 2
        then lit b':'
        then digits 2
        then fraction
        then zone)
      s) [
        | none ↦ none
        | some (stamp, s') ↦ elim (one is_space s') [
          | none ↦ none
          | some (space, rest) ↦ some (stamp, rest)
        ]
      ]

abbrev pub header_bytes : ℕ
header_bytes = 8

-- `readUInt32BE` at the start of a buffer of at least four bytes.
abbrev pub u32_be : List ℕ → ℕ
u32_be (a ∷ b ∷ c ∷ d ∷ rest) = ((a * 256 + b) * 256 + c) * 256 + d
u32_be other = 0

abbrev pub first_byte : List ℕ → ℕ
first_byte [] = 0
first_byte (b ∷ rest) = b

unfoldable pub chunk_length : List ℕ → ℕ
chunk_length buffer = u32_be (drop 4 buffer)

-- What the platform gives: the decoding of UTF-8, and the time of the clock as an ISO text.
module _ (to_text : List ℕ → List ℕ) (now : List ℕ) where
  -- The end of `parseBuffer`, from the stream's type and the content.
  unfoldable pub parse_content : ℕ → List ℕ → Log
  parse_content chunk_type content =
      let kind = if chunk_type == 1 then stdout else stderr in
      elim (match_timestamp (to_text content)) [
        | none ↦ record { log = to_text content; kind = kind; timestamp = now }
        | some (stamp, rest) ↦ record { log = rest; kind = kind; timestamp = stamp }
      ]

  unfoldable pub parse_buffer : List ℕ → Log
  parse_buffer buffer =
      parse_content (first_byte buffer) (take (chunk_length buffer) (drop header_bytes buffer))

  -- Whether a whole frame stands at the start of what is left of the buffer.
  unfoldable pub has_frame : List ℕ → Bool
  has_frame buffer =
      leb header_bytes (length buffer) && leb (header_bytes + chunk_length buffer) (length buffer)

  -- The loop of `parseLogFrames` on fuel, over the buffer from `index` on.
  unfoldable pub frames_loop : ℕ → List ℕ → List Log × List ℕ
  frames_loop zero buffer = ([], buffer)
  frames_loop (suc fuel) buffer =
      let later = frames_loop fuel (drop (header_bytes + chunk_length buffer) buffer) in
      if has_frame buffer then (parse_buffer buffer ∷ later.0, later.1) else ([], buffer)

  -- A frame has at least eight bytes, so the length of the buffer is fuel enough.
  unfoldable pub parse_log_frames : List ℕ → List Log × List ℕ
  parse_log_frames buffer = frames_loop (length buffer) buffer

  -- The state of a followed log stream: `logRemainder`, and the logs emitted so far.
  -- `if (!log) continue` drops the empty ones.
  unfoldable pub on_data : List ℕ × List Log → List ℕ → List ℕ × List Log
  on_data (remainder, emitted) chunk =
      let parsed = parse_log_frames (remainder ++ chunk) in
      (parsed.1, emitted ++ select (λ entry. not (is_empty entry.log)) parsed.0)

  unfoldable pub on_chunks : List ℕ × List Log → List (List ℕ) → List ℕ × List Log
  on_chunks state [] = state
  on_chunks state (chunk ∷ chunks) = on_chunks (on_data state chunk) chunks
