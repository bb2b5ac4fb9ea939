-- ===== src/Framing.antt =====
-- components/simpleproto/src/lib.rs: messages as frames over a stream of bytes, a length of four bytes
-- and the text. A byte is a number. `encode` and `decode` are the serialization of the messages, which
-- the code takes from a library; `stream` is all that the other side writes before it closes the
-- stream, and a write to a stream does not fail.
pub mod RoundTrip
mod Examples
use botloader.Prelude.{
  ℕ, zero, suc, ◌+◌, ◌*◌, ◌/◌, ◌%◌, ◌^◌, Bool, true, false, Option, none, some, List, [], ◌∷◌, ◌++◌,
  length, ltb, if◌then◌else◌,
}

-- `failed` is an error of the operation; `panics` the failed assertion.
pub data Outcome {ℓ} (A : Type ℓ) : Type ℓ where
  ok : A → Outcome A
  failed panics : Outcome A

-- `write_u32`: four bytes, the highest first.
unfoldable pub put_u32 : ℕ → List ℕ
put_u32 n = n / 2 ^ 24 % 256 ∷ n / 2 ^ 16 % 256 ∷ n / 2 ^ 8 % 256 ∷ n % 256 ∷ []

-- `read_u32`, or none at the end of the stream.
unfoldable pub get_u32 : List ℕ → Option (ℕ × List ℕ)
get_u32 (a ∷ b ∷ c ∷ d ∷ rest) = some (a * 2 ^ 24 + b * 2 ^ 16 + c * 2 ^ 8 + d, rest)
get_u32 _ = none

-- `read_exact`: so many bytes, or none at the end of the stream.
unfoldable pub read_exact : ℕ → List ℕ → Option (List ℕ × List ℕ)
read_exact zero src = some ([], src)
read_exact (suc n) [] = none
read_exact (suc n) (b ∷ src) = elim (read_exact n src) [
  | none ↦ none
  | some (bytes, rest) ↦ some (b ∷ bytes, rest)
]

-- How the loop of `message_reader` ends: nobody takes its messages any more, a read fails, or the
-- rounds of the model are used up.
pub data ReaderEnd : Type 0 where
  closed read_error out_of_rounds : ReaderEnd

module _ {T : Type 0} where
  unfoldable pub write_message : (T → Option (List ℕ)) → T → List ℕ → Outcome (List ℕ)
  unfolding put_u32
  write_message encode msg dst = elim (encode msg) [
    | none ↦ failed
    | some encoded ↦
        if ltb (length encoded) 0xffffffff
        then ok (dst ++ (put_u32 (length encoded % 2 ^ 32) ++ encoded))
        else panics
  ]

  unfoldable pub read_message : (List ℕ → Option T) → List ℕ → Outcome (T × List ℕ)
  unfolding get_u32 read_exact
  read_message decode src = elim (get_u32 src) [
    | none ↦ failed
    | some (len, rest) ↦ elim (read_exact len rest) [
      | none ↦ failed
      | some (payload, rest') ↦ elim (decode payload) [ none ↦ failed | some msg ↦ ok (msg, rest') ]
    ]
  ]

  -- The messages are those that come over the channel until it closes.
  unfoldable pub message_writer : (T → Option (List ℕ)) → List T → List ℕ → Outcome (List ℕ)
  unfolding write_message
  message_writer encode [] dst = ok dst
  message_writer encode (next ∷ msgs) dst = elim (write_message encode next dst) [
    | ok dst' ↦ message_writer encode msgs dst'
    | failed ↦ failed
    | panics ↦ panics
  ]

  -- `taken` says whether the receiver of the channel takes the message with that number.
  unfoldable pub reader_rounds :
      ℕ → (List ℕ → Option T) → (ℕ → Bool) → ℕ → List ℕ → List T × ReaderEnd
  unfolding read_message
  reader_rounds zero decode taken i stream = ([], out_of_rounds)
  reader_rounds (suc n) decode taken i stream = elim (read_message decode stream) [
    | ok (msg, rest) ↦
        let (msgs, end) = reader_rounds n decode taken (suc i) rest in
        if taken i then (msg ∷ msgs, end) else ([], closed)
    | failed ↦ ([], read_error)
    | panics ↦ ([], read_error)
  ]

  -- Each round but the last takes four bytes at least.
  unfoldable pub message_reader : (List ℕ → Option T) → (ℕ → Bool) → List ℕ → List T × ReaderEnd
  unfolding reader_rounds
  message_reader decode taken stream = reader_rounds (suc (length stream)) decode taken 0 stream
