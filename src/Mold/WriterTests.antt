-- ===== src/Mold/WriterTests.antt =====
-- A packet written and read back, for include/MoldUdp64.hpp.
use mini_hft.Base.{ℕ, ◌≡◌, List, [], ◌∷◌, arith}
use mini_hft.Mold.Packet.{decode, ok, for_each_message}
use mini_hft.Mold.Frame.{number_from}
use mini_hft.Mold.Writer.{PacketWriter, new, begin, finish, pad_session}
use mini_hft.Mold.Written.{add_all}
use mini_hft.Mold.Finished.{packet_of, decode-finish}

-- Two messages and an empty one, which is refused.
abbrev three_tries : List (List ℕ)
three_tries = (1 ∷ 2 ∷ []) ∷ [] ∷ (3 ∷ []) ∷ []

abbrev written : List (List ℕ) × PacketWriter
written = add_all three_tries (begin 5 (new 1400 (b'A' ∷ [])))

decode-finish_example :
    (decode (finish written.1) ≡ ok (packet_of (pad_session 10 (b'A' ∷ [])) 5 written.0))
    × (for_each_message (packet_of (pad_session 10 (b'A' ∷ [])) 5 written.0)
        ≡ number_from 5 written.0)
decode-finish_example =
    decode-finish 1400 5 (b'A' ∷ []) three_tries (omega arith) (omega arith) (omega arith)
