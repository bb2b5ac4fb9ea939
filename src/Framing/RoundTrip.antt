-- ===== src/Framing/RoundTrip.antt =====
-- components/simpleproto/src/lib.rs: what a reader gets from what a writer wrote.
use mathlib.Core.List.{append-nil, append_assoc}
use botloader.Prelude.{
  ℕ, zero, suc, ◌+◌, ◌*◌, ◌%◌, ◌^◌, ◌<◌, ◌≡◌, refl, sym, ap, ◌∙◌, true, Option, none, some, List,
  [], ◌∷◌, ◌++◌, length, length-append, arith, All,
}
use botloader.Framing.{
  ok, failed, put_u32, get_u32, read_exact, read_error, write_message, read_message, message_writer,
  reader_rounds, message_reader,
}

get_u32-put_u32 :
    (n : ℕ) (rest : List ℕ) → n < 2 ^ 32 → get_u32 (put_u32 n ++ rest) ≡ some (n, rest)
unfolding get_u32 put_u32
get_u32-put_u32 n rest h = ap (λ m. some (m, rest)) (omega (arith, h))

read_exact-append : (xs rest : List ℕ) → read_exact (length xs) (xs ++ rest) ≡ some (xs, rest)
unfolding read_exact
read_exact-append [] rest = refl
read_exact-append (x ∷ xs) rest = rw (read_exact-append xs rest)

-- Fewer bytes than asked for.
read_exact-short : (n : ℕ) (xs : List ℕ) → length xs < n → read_exact n xs ≡ none
unfolding read_exact
read_exact-short zero xs h = absurd (omega (arith, h))
read_exact-short (suc n) [] h = refl
read_exact-short (suc n) (x ∷ xs) h = rw (read_exact-short n xs (omega (arith, h)))

module _ {T : Type 0} (encode : T → Option (List ℕ)) (decode : List ℕ → Option T) where
  -- A message that is short enough when it is encoded, with its encoding.
  abbrev pub Encodes : T → List ℕ → Type 0
  Encodes msg encoded = (encode msg ≡ some encoded) × (length encoded < 0xffffffff)

  frame : List ℕ → List ℕ
  frame encoded = put_u32 (length encoded % 2 ^ 32) ++ encoded

  length-frame : (encoded : List ℕ) → length (frame encoded) ≡ 4 + length encoded
  unfolding frame put_u32
  length-frame encoded = omega arith

  write-frame :
      (msg : T) (encoded dst : List ℕ)
      → Encodes msg encoded
      → write_message encode msg dst ≡ ok (dst ++ frame encoded)
  unfolding write_message frame
  write-frame msg encoded dst (e, s) = ground (arith, e, s)

  read-parts :
      (src mid rest payload : List ℕ) (len : ℕ) (msg : T)
      → get_u32 src ≡ some (len, mid)
      → read_exact len mid ≡ some (payload, rest)
      → decode payload ≡ some msg
      → read_message decode src ≡ ok (msg, rest)
  unfolding read_message
  read-parts src mid rest payload len msg e f d = ground (arith, e, f, d)

  get-frame :
      (encoded rest : List ℕ)
      → length encoded < 0xffffffff
      → get_u32 (frame encoded ++ rest) ≡ some (length encoded, encoded ++ rest)
  unfolding frame
  get-frame encoded rest s =
      ap get_u32 (append_assoc (put_u32 (length encoded % 2 ^ 32)) encoded rest)
      ∙ get_u32-put_u32 (length encoded % 2 ^ 32) (encoded ++ rest) (omega arith)
      ∙ ap (λ n. some (n, encoded ++ rest)) (omega (arith, s))

  read-frame :
      (msg : T) (encoded rest : List ℕ)
      → decode encoded ≡ some msg
      → length encoded < 0xffffffff
      → read_message decode (frame encoded ++ rest) ≡ ok (msg, rest)
  read-frame msg encoded rest d s =
      read-parts (frame encoded ++ rest) (encoded ++ rest) rest encoded (length encoded) msg
        (get-frame encoded rest s) (read_exact-append encoded rest) d

  read-short :
      (src mid : List ℕ) (len : ℕ)
      → get_u32 src ≡ some (len, mid)
      → length mid < len
      → read_message decode src ≡ failed
  unfolding read_message
  read-short src mid len e s = ground (arith, e, read_exact-short len mid s)

  -- A frame that breaks off before its end is an error for the reader, wherever it breaks off: no
  -- message comes out of it.
  pub read_message-truncated :
      (msg : T) (encoded before after : List ℕ) (b : ℕ)
      → Encodes msg encoded
      → write_message encode msg [] ≡ ok (before ++ b ∷ after)
      → read_message decode before ≡ failed
  unfolding read_message get_u32
  read_message-truncated msg encoded [] after b h w = refl
  read_message-truncated msg encoded (p ∷ []) after b h w = refl
  read_message-truncated msg encoded (p ∷ q ∷ []) after b h w = refl
  read_message-truncated msg encoded (p ∷ q ∷ r ∷ []) after b h w = refl
  read_message-truncated msg encoded (p ∷ q ∷ r ∷ s ∷ before) after b h w =
      let whole : frame encoded ≡ (p ∷ q ∷ r ∷ s ∷ before) ++ b ∷ after =
        ground (arith, write-frame msg encoded [] h, w) in
      let read : get_u32 ((p ∷ q ∷ r ∷ s ∷ before) ++ b ∷ after) ≡ some (length encoded, encoded) =
        ap get_u32 (sym whole ∙ sym (append-nil (frame encoded)))
        ∙ get-frame encoded [] h.1
        ∙ ap (λ xs. some (length encoded, xs)) (append-nil encoded) in
      let value : p * 2 ^ 24 + q * 2 ^ 16 + r * 2 ^ 8 + s ≡ length encoded = ground (arith, read) in
      let tail : before ++ b ∷ after ≡ encoded = ground (arith, read) in
      read-short (p ∷ q ∷ r ∷ s ∷ before) before (p * 2 ^ 24 + q * 2 ^ 16 + r * 2 ^ 8 + s) refl
        (omega (arith, value, ap length tail, length-append before (b ∷ after)))

  read_nothing : (n i : ℕ) → reader_rounds (suc n) decode (λ k. true) i [] ≡ ([], read_error)
  unfolding reader_rounds read_message get_u32
  read_nothing n i = refl

  abbrev pub AllEncode : List T → Type 0
  AllEncode ms = All (λ m. (encoded : List ℕ) × Encodes m encoded) ms

  -- What the writer puts on the stream.
  frames : (ms : List T) → AllEncode ms → List ℕ
  frames [] h = []
  frames (m ∷ ms) h = frame h.0.0 ++ frames ms h.1

  writer-next :
      (m : T) (ms : List T) (dst dst' : List ℕ)
      → write_message encode m dst ≡ ok dst'
      → message_writer encode (m ∷ ms) dst ≡ message_writer encode ms dst'
  unfolding message_writer
  writer-next m ms dst dst' e = ground (arith, e)

  reader-next :
      (n i : ℕ) (stream rest : List ℕ) (m : T)
      → read_message decode stream ≡ ok (m, rest)
      → let p = reader_rounds n decode (λ k. true) (suc i) rest in
        reader_rounds (suc n) decode (λ k. true) i stream ≡ (m ∷ p.0, p.1)
  unfolding reader_rounds
  reader-next n i stream rest m e = ground (arith, e)

  writer-frames :
      (ms : List T) (dst : List ℕ) (h : AllEncode ms)
      → message_writer encode ms dst ≡ ok (dst ++ frames ms h)
  unfolding message_writer frames
  writer-frames [] dst h = ap ok (sym (append-nil dst))
  writer-frames (m ∷ ms) dst h =
      writer-next m ms dst (dst ++ frame h.0.0) (write-frame m h.0.0 dst h.0.1)
      ∙ (writer-frames ms (dst ++ frame h.0.0) h.1
          ∙ ap ok (append_assoc dst (frame h.0.0) (frames ms h.1)))

  reader-frames :
      ((m : T) (encoded : List ℕ) → encode m ≡ some encoded → decode encoded ≡ some m)
      → (ms : List T) (h : AllEncode ms) (n i : ℕ) → length (frames ms h) < n
      → reader_rounds n decode (λ k. true) i (frames ms h) ≡ (ms, read_error)
  unfolding reader_rounds frames
  reader-frames trips [] h zero i l = absurd (omega (arith, l))
  reader-frames trips [] h (suc n) i l = read_nothing n i
  reader-frames trips (m ∷ ms) h zero i l = absurd (omega (arith, l))
  reader-frames trips (m ∷ ms) h (suc n) i l =
      reader-next n i (frame h.0.0 ++ frames ms h.1) (frames ms h.1) m
        (read-frame m h.0.0 (frames ms h.1) (trips m h.0.0 h.0.1.0) h.0.1.1)
      ∙ ap (λ p. (m ∷ p.0, p.1))
          (reader-frames trips ms h.1 n (suc i)
            (omega (arith, l, length-append (frame h.0.0) (frames ms h.1), length-frame h.0.0)))

  -- Where decoding undoes encoding, a reader gets exactly the messages that a writer sent, in their
  -- order, and then the error of the end of the stream.
  pub message_reader-message_writer :
      ((m : T) (encoded : List ℕ) → encode m ≡ some encoded → decode encoded ≡ some m)
      → (ms : List T) → AllEncode ms
      → (stream : List ℕ) × (message_writer encode ms [] ≡ ok stream)
        × (message_reader decode (λ k. true) stream ≡ (ms, read_error))
  unfolding message_reader
  message_reader-message_writer trips ms h = (
    frames ms h,
    writer-frames ms [] h,
    reader-frames trips ms h (suc (length (frames ms h))) 0 (omega arith),
  )
