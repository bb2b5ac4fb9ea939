-- ===== src/Framing/Examples.antt =====
-- Messages that are their own encoding, over one stream.
use botloader.Prelude.{ℕ, ◌≡◌, refl, true, Option, some, List, [], ◌∷◌, arith}
use botloader.Framing.{ok, read_error, put_u32, write_message, message_writer, message_reader}
use botloader.Framing.RoundTrip.{message_reader-message_writer}

abbrev encode : List ℕ → Option (List ℕ)
encode msg = some msg

abbrev messages : List (List ℕ)
messages = (72 ∷ 105 ∷ []) ∷ [] ∷ []

message_reader-message_writer_example :
    (stream : List ℕ) × (message_writer encode messages [] ≡ ok stream)
    × (message_reader encode (λ k. true) stream ≡ (messages, read_error))
message_reader-message_writer_example =
    message_reader-message_writer encode encode (λ m encoded e. ground (arith, e)) messages
      ((72 ∷ 105 ∷ [], (refl, omega arith)), (([], (refl, omega arith)), tt))

frame : write_message encode (72 ∷ 105 ∷ []) [] ≡ ok (0 ∷ 0 ∷ 0 ∷ 2 ∷ 72 ∷ 105 ∷ [])
unfolding write_message put_u32
frame = refl
