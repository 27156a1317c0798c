-- ===== src/Mold/Written.antt =====
-- What `PacketWriter` of include/MoldUdp64.hpp has written.
use mini_hft.Base.{
  ℕ, zero, suc, ◌+◌, ◌-◌, ◌*◌, ◌/◌, ◌%◌, ◌^◌, ◌≤◌, ◌<◌, ◌≡◌, refl, sym, ap, ◌∙◌, subst, List, [],
  ◌∷◌, ◌++◌, length, drop, get_or, All, All-append, length-append, append_assoc, append-nil,
  drop-append, get_or-append, ltb, ◌==◌, ◌||◌, if◌then◌else◌, Bool-cases, inl, inr, arith,
}
use mini_hft.Base.Words.{u16, sub64}
use mini_hft.Itch.Bytes.{be16, be64, be32, put_be16, put_be64, put_be32, be64-put_be64}
use mini_hft.Mold.Packet.{end_of_session_count}
use mini_hft.Mold.Frame.{IsBytes, block, frame, IsMessage}
use mini_hft.Mold.Writer.{PacketWriter, pad_session, size_of, prefix, add}

-- The messages that are accepted of those tried, and the writer after them.
unfoldable pub add_all : List (List ℕ) → PacketWriter → List (List ℕ) × PacketWriter
add_all [] w = ([], w)
add_all (m ∷ ms) w =
    let r = add m w in let rest = add_all ms r.1 in ((if r.0 then m ∷ rest.0 else rest.0), rest.1)

-- The writer holds the messages ms of a packet that starts with the number sequence.
pub record Wrote (sequence : ℕ) (session : List ℕ) (ms : List (List ℕ)) (w : PacketWriter)
    : Type 0 where
  pub same_session : w.session ≡ session
  pub same_sequence : w.sequence ≡ sequence
  pub number : w.count ≡ length ms
  pub framed : w.body ≡ frame ms
  pub each : All IsMessage ms
  pub few : length ms < 0xffff
  pub bytes : All IsBytes ms

prefix_lem : (n : ℕ) → n < 2 ^ 16 → prefix n ≡ (n / 2 ^ 8) ∷ (n % 2 ^ 8) ∷ []
unfolding put_be16
prefix_lem n h =
    let hi : u16 n / 2 ^ 8 % 2 ^ 8 ≡ n / 2 ^ 8 = omega arith in
    let lo : u16 n % 2 ^ 8 ≡ n % 2 ^ 8 = omega arith in λ j. hi j ∷ lo j ∷ []

frame-append : (ms : List (List ℕ)) (m : List ℕ) → frame (ms ++ m ∷ []) ≡ frame ms ++ block m
frame-append [] m = append-nil (block m)
frame-append (x ∷ ms) m =
    ap (◌++◌ (block x)) (frame-append ms m) ∙ sym (append_assoc (block x) (frame ms) (block m))

-- The three tests by which `add` refuses a message.
pub add-Wrote :
    (sequence : ℕ) (session : List ℕ) (ms : List (List ℕ)) (m : List ℕ) (w : PacketWriter)
    → IsBytes m
    → Wrote sequence session ms w
    → Wrote sequence session (if (add m w).0 then ms ++ m ∷ [] else ms) (add m w).1
unfolding add
add-Wrote sequence session ms m w b v =
    elim (Bool-cases
      (length m == 0 || ltb 0xffff (length m) || w.count == end_of_session_count - 1)) [
        | inl bad ↦ rw bad v
        | inr good ↦
            rw good (elim (Bool-cases (ltb (sub64 w.capacity (size_of w)) (2 + length m))) [
              | inl full ↦ rw full v
              | inr fits ↦
                  let some_bytes : 0 < length m = ground arith in
                  let short : length m < 2 ^ 16 = ground arith in
                  let room : length ms < 0xfffe = ground (arith, v.few, v.number) in
                  rw fits (record {
                    same_session = v.same_session;
                    same_sequence = v.same_sequence;
                    number = omega (arith, v.number, length-append ms (m ∷ []));
                    framed =
                        (λ j. v.framed j ++ (prefix_lem (length m) short j ++ m))
                        ∙ sym (frame-append ms m);
                    each = All-append IsMessage ms (m ∷ []) v.each ((some_bytes, short), tt);
                    few = omega (arith, room, length-append ms (m ∷ []));
                    bytes = All-append IsBytes ms (m ∷ []) v.bytes (b, tt);
                  })
            ])
      ]

byte_after :
    (pre xs : List ℕ) (n k : ℕ) → length pre ≡ n → get_or (pre ++ xs) (n + k) 0 ≡ get_or xs k 0
byte_after pre xs n k e =
    subst (λ i. get_or (pre ++ xs) (i + k) 0 ≡ get_or xs k 0) e (get_or-append pre xs k 0)

-- The header that `finish` writes, as `decode` reads it.
pub header_read :
    (s tail : List ℕ) (sequence count : ℕ)
    → length s ≡ 10
    → sequence < 2 ^ 64
    → count < 2 ^ 16
    → (be64
          (s
            ++ (put_be64 (0 ∷ 0 ∷ 0 ∷ 0 ∷ 0 ∷ 0 ∷ 0 ∷ 0 ∷ []) 0 sequence
                ++ (put_be16 (0 ∷ 0 ∷ []) 0 count ++ tail)))
          10
        ≡ sequence)
      × (be16
            (s
              ++ (put_be64 (0 ∷ 0 ∷ 0 ∷ 0 ∷ 0 ∷ 0 ∷ 0 ∷ 0 ∷ []) 0 sequence
                  ++ (put_be16 (0 ∷ 0 ∷ []) 0 count ++ tail)))
            18
          ≡ count)
      × (drop 20 (
            s
            ++ (put_be64 (0 ∷ 0 ∷ 0 ∷ 0 ∷ 0 ∷ 0 ∷ 0 ∷ 0 ∷ []) 0 sequence
                ++ (put_be16 (0 ∷ 0 ∷ []) 0 count ++ tail)))
          ≡ tail)
unfolding be16 be32 be64 put_be16 put_be32 put_be64
header_read s tail sequence count e h c =
    let xs : List ℕ =
      put_be64 (0 ∷ 0 ∷ 0 ∷ 0 ∷ 0 ∷ 0 ∷ 0 ∷ 0 ∷ []) 0 sequence
      ++ (put_be16 (0 ∷ 0 ∷ []) 0 count ++ tail) in
    (
      omega (
        arith,
        byte_after s xs 10 0 e,
        byte_after s xs 10 1 e,
        byte_after s xs 10 2 e,
        byte_after s xs 10 3 e,
        byte_after s xs 10 4 e,
        byte_after s xs 10 5 e,
        byte_after s xs 10 6 e,
        byte_after s xs 10 7 e,
        be64-put_be64 sequence h,
      ),
      omega (arith, byte_after s xs 10 8 e, byte_after s xs 10 9 e),
      subst (λ i. drop (i + 10) (s ++ xs) ≡ tail) e (drop-append s xs 10),
    )

pub add_all-Wrote :
    (sequence : ℕ) (session : List ℕ) (pre ms : List (List ℕ)) (w : PacketWriter)
    → All IsBytes ms
    → Wrote sequence session pre w
    → Wrote sequence session (pre ++ (add_all ms w).0) (add_all ms w).1
unfolding add_all
add_all-Wrote sequence session pre [] w b v =
    subst (λ l. Wrote sequence session l w) (sym (append-nil pre)) v
add_all-Wrote sequence session pre (m ∷ ms) w b v =
    let next = add-Wrote sequence session pre m w b.0 v in
    elim (Bool-cases (add m w).0) [
      | inl taken ↦ rw taken (
          subst (λ l. Wrote sequence session l (add_all ms (add m w).1).1)
            (append_assoc pre (m ∷ []) (add_all ms (add m w).1).0)
            (add_all-Wrote sequence session (pre ++ m ∷ []) ms (add m w).1 b.1 (
              subst (λ c. Wrote sequence session (if c then pre ++ m ∷ [] else pre) (add m w).1)
                taken next)))
      | inr refused ↦ rw refused (
          add_all-Wrote sequence session pre ms (add m w).1 b.1 (
            subst (λ c. Wrote sequence session (if c then pre ++ m ∷ [] else pre) (add m w).1)
              refused next))
    ]

pub frame-IsBytes : (ms : List (List ℕ)) → All IsMessage ms → All IsBytes ms → IsBytes (frame ms)
frame-IsBytes [] v b = tt
frame-IsBytes (m ∷ ms) v b = (
  omega (arith, v.0),
  (omega arith, All-append (λ c. c < 2 ^ 8) m (frame ms) b.0 (frame-IsBytes ms v.1 b.1)),
)

pub length-frame : (ms : List (List ℕ)) → All IsMessage ms → length (frame ms) ≤ length ms * 65537
length-frame [] v = omega arith
length-frame (m ∷ ms) v = omega (arith, v.0, length-frame ms v.1, length-append m (frame ms))

pub length-pad_session : (n : ℕ) (name : List ℕ) → length (pad_session n name) ≡ n
unfolding pad_session
length-pad_session zero name = refl
length-pad_session (suc n) [] = ap suc (length-pad_session n [])
length-pad_session (suc n) (c ∷ cs) = ap suc (length-pad_session n cs)

pub pad_session-IsBytes : (n : ℕ) (name : List ℕ) → IsBytes name → IsBytes (pad_session n name)
unfolding pad_session
pad_session-IsBytes zero name b = tt
pad_session-IsBytes (suc n) [] b = (omega arith, pad_session-IsBytes n [] b)
pad_session-IsBytes (suc n) (c ∷ cs) b = (b.0, pad_session-IsBytes n cs b.1)
