-- ===== src/Reader/Refine.antt =====
-- `next` of include/ItchParser.hpp reads the messages of a file in its framing.
use mini_hft.Base.{
  ℕ, zero, suc, ◌+◌, ◌^◌, ◌≤◌, ◌<◌, ◌≡◌, refl, sym, ap, ◌∙◌, Option, none, some, List, [], ◌∷◌,
  ◌++◌, length, All, ltb, length-append, append_assoc, arith,
}
use mini_hft.Base.Words.{u64}
use mini_hft.Mold.Frame.{block, frame}
use mini_hft.Reader.{
  ItchReader, Verdict, good, unknown, mismatch, judge, Round, finished, returned, skipped, judged,
  count_skipped, take_message, next_round, next, new,
}
use mini_hft.Reader.Ensure.{IsFile, stream, Inv}
use mini_hft.Reader.Kinds.{kind, judge-kind}
use mini_hft.Reader.Framing.{IsCut}
use mini_hft.Reader.Counters.{
  put, accepted, is_unknown, is_mismatch, unknowns, mismatches, Counted, Counted-eq, Counted-same,
  Counted-take_message, Counted-count_skipped,
}
use mini_hft.Reader.Rounds.{next_round-Taken, next_round-Over}

module _ {F : Type 0} (read : ℕ → F → List ℕ × F) (remaining : F → List ℕ)
    (laws : IsFile read remaining) where
  -- The messages that the calls of `next` return until it returns the empty span, with the reader
  -- after them: at most as many calls as the first argument, each of at most as many rounds as the
  -- second. `read_on` is the same from where a call has returned.
  abbrev read_on : ℕ → ℕ → Option (List ℕ) × ItchReader F → List (List ℕ) × ItchReader F
  read_on calls rounds (none, r) = ([], r)
  read_on zero rounds (some m, r) = (m ∷ [], r)
  read_on (suc calls) rounds (some m, r) =
      let rest = read_on calls rounds (next read rounds r) in (m ∷ rest.0, rest.1)

  abbrev pub read_all : ℕ → ℕ → ItchReader F → List (List ℕ) × ItchReader F
  read_all zero rounds r = ([], r)
  read_all (suc calls) rounds r = read_on calls rounds (next read rounds r)

  abbrev next_of : ℕ → Round F → Option (List ℕ) × ItchReader F
  next_of rounds (finished r) = (none, r)
  next_of rounds (returned m r) = (some m, r)
  next_of rounds (skipped r) = next read rounds r

  next-next_of :
      (rounds : ℕ) (r : ItchReader F) (o : Round F)
      → next_round read r ≡ o
      → next read (suc rounds) r ≡ next_of rounds o
  unfolding next
  next-next_of rounds r o e = ap (next_of rounds) e

  -- A whole file read.
  record ReadAll (ms : List (List ℕ)) (t : List ℕ) (a b c d : ℕ)
      (res : List (List ℕ) × ItchReader F) : Type 0 where
    returned_all : res.0 ≡ accepted ms
    counted :
        Counted (a + length ms) (b + length (frame ms)) (c + unknowns ms) (d + mismatches ms) res.1
    cut : res.1.truncated ≡ ltb 0 (length t)

  extend :
      (m : List ℕ) (ms : List (List ℕ)) (t : List ℕ) (a b c d : ℕ) (v : Verdict)
      (res : List (List ℕ) × ItchReader F)
      → kind m ≡ v
      → ReadAll ms t (a + 1) (b + (2 + length m)) (c + is_unknown v) (d + is_mismatch v) res
      → ReadAll (m ∷ ms) t a b c d (put v m res.0, res.1)
  extend m ms t a b c d v res j k = record {
    returned_all = λ i. put (sym j i) m (k.returned_all i);
    counted =
        Counted-eq (a + 1 + length ms) (a + length (m ∷ ms))
          (b + (2 + length m) + length (frame ms)) (b + length (frame (m ∷ ms)))
          (c + is_unknown v + unknowns ms) (c + unknowns (m ∷ ms))
          (d + is_mismatch v + mismatches ms) (d + mismatches (m ∷ ms)) res.1 k.counted
          (omega arith) (omega (arith, length-append m (frame ms))) (omega (arith, ap is_unknown j))
          (omega (arith, ap is_mismatch j));
    cut = k.cut;
  }

  Inv-count_skipped :
      (v : Verdict) (r : ItchReader F) → Inv remaining r → Inv remaining (count_skipped v r)
  unfolding count_skipped
  Inv-count_skipped good r i = i
  Inv-count_skipped unknown r i = record { inside = i.inside; fits = i.fits; at_end = i.at_end }
  Inv-count_skipped mismatch r i = record { inside = i.inside; fits = i.fits; at_end = i.at_end }

  stream-count_skipped :
      (v : Verdict) (r : ItchReader F) → stream remaining (count_skipped v r) ≡ stream remaining r
  unfolding count_skipped
  stream-count_skipped good r = refl
  stream-count_skipped unknown r = refl
  stream-count_skipped mismatch r = refl

  read_on-ReadAll :
      (ms : List (List ℕ)) (t : List ℕ) (a b c d first calls rounds : ℕ) (r : ItchReader F)
      → All (λ m. length m < 2 ^ 16) ms
      → IsCut t
      → Inv remaining r
      → Counted a b c d r
      → stream remaining r ≡ frame ms ++ t
      → length ms < first
      → length ms ≤ calls
      → length ms < rounds
      → ReadAll ms t a b c d (read_on calls rounds (next read first r))
  unfolding judged count_skipped
  read_on-ReadAll [] t a b c d (suc first) calls rounds r short cut v n e f0 f1 f2 =
      let o = next_round-Over read remaining laws r t v cut e in
      rw (next-next_of first r (finished o.after) o.round) (record {
        returned_all = refl;
        counted =
            Counted-eq a (a + 0) b (b + 0) c (c + 0) d (d + 0) o.after
              (Counted-same a b c d r o.after o.counts n) (omega arith) (omega arith) (omega arith)
              (omega arith);
        cut = o.cut;
      })
  read_on-ReadAll (m ∷ ms) t a b c d (suc first) (suc calls) (suc rounds) r short cut v n e f0 f1
        f2 =
      let k =
        next_round-Taken read remaining laws r m (frame ms ++ t) v short.0
          (e ∙ append_assoc (block m) (frame ms) t) in
      let after : Verdict → ItchReader F = λ x. count_skipped x (take_message (length m) k.after) in
      let n' = λ (x : Verdict).
        Counted-count_skipped x (a + 1) (b + (2 + length m)) c d (take_message (length m) k.after) (
          Counted-take_message a b c d (length m) k.after
            (Counted-same a b c d r k.after k.counts n)) in
      let rest =
        λ (x : Verdict) (calls : ℕ) (first' : ℕ) (f1' : length ms ≤ calls)
            (f0' : length ms < first').
          read_on-ReadAll ms t (a + 1) (b + (2 + length m)) (c + is_unknown x) (d + is_mismatch x)
            first' calls (suc rounds) (after x) short.1 cut
            (Inv-count_skipped x (take_message (length m) k.after) k.inv) (n' x)
            (stream-count_skipped x (take_message (length m) k.after) ∙ k.left) f0' f1'
            (omega arith) in
      let round : (x : Verdict)
          → judge m ≡ x
          → next read (suc first) r ≡ next_of first (judged m x (take_message (length m) k.after)) =
        λ x j.
          next-next_of first r (judged m x (take_message (length m) k.after))
            (k.round ∙ ap (λ y. judged m y (take_message (length m) k.after)) j) in
      elim (judge m)
          as (λ x.
            judge m ≡ x
            → ReadAll (m ∷ ms) t a b c d
                (read_on (suc calls) (suc rounds) (next read (suc first) r))) [
                  | good ↦ λ j. rw (round good j) (
                      extend m ms t a b c d good
                        (read_on calls (suc rounds) (next read (suc rounds) (after good)))
                        (sym (judge-kind m) ∙ j)
                        (rest good calls (suc rounds) (omega arith) (omega arith)))
                  | unknown ↦ λ j. rw (round unknown j) (
                      extend m ms t a b c d unknown
                        (read_on (suc calls) (suc rounds) (next read first (after unknown)))
                        (sym (judge-kind m) ∙ j)
                        (rest unknown (suc calls) first (omega arith) (omega arith)))
                  | mismatch ↦ λ j. rw (round mismatch j) (
                      extend m ms t a b c d mismatch
                        (read_on (suc calls) (suc rounds) (next read first (after mismatch)))
                        (sym (judge-kind m) ∙ j)
                        (rest mismatch (suc calls) first (omega arith) (omega arith)))
                ]
        refl
  read_on-ReadAll [] t a b c d zero calls rounds r short cut v n e f0 f1 f2 = absurd (omega arith)
  read_on-ReadAll (m ∷ ms) t a b c d zero calls rounds r short cut v n e f0 f1 f2 =
      absurd (omega arith)
  read_on-ReadAll (m ∷ ms) t a b c d (suc first) zero rounds r short cut v n e f0 f1 f2 =
      absurd (omega arith)
  read_on-ReadAll (m ∷ ms) t a b c d (suc first) (suc calls) zero r short cut v n e f0 f1 f2 =
      absurd (omega arith)

  -- What is read of a file that holds the messages `ms` and then `t`.
  pub record ReadFile (ms : List (List ℕ)) (t : List ℕ) (res : List (List ℕ) × ItchReader F)
      : Type 0 where
    pub returned_all : res.0 ≡ accepted ms
    pub messages : res.1.messages ≡ u64 (length ms)
    pub bytes : res.1.bytes ≡ u64 (length (frame ms))
    pub unknown_types : res.1.unknown_types ≡ u64 (unknowns ms)
    pub length_mismatches : res.1.length_mismatches ≡ u64 (mismatches ms)
    pub cut : res.1.truncated ≡ ltb 0 (length t)

  -- A file that holds framed messages and then the beginning of one that is cut off, or nothing: on
  -- a buffer of any capacity, and however many bytes each std::fread returns, calling `next` until it
  -- returns the empty span returns exactly the messages of a known type and of its length by the table
  -- `layouts` of ITCH 5.0, in order,
  -- and the counters are the numbers of the messages, of their bytes and of the skipped ones of both
  -- kinds, modulo 2 ^ 64; `truncated` tells whether there was something behind the messages. More
  -- calls than messages, and more rounds in each, are enough.
  pub read_all-ReadFile :
      (ms : List (List ℕ)) (t : List ℕ) (file : F) (capacity calls rounds : ℕ)
      → remaining file ≡ frame ms ++ t
      → All (λ m. length m < 2 ^ 16) ms
      → IsCut t
      → length ms < calls
      → length ms < rounds
      → ReadFile ms t (read_all calls rounds (new file capacity))
  unfolding new
  read_all-ReadFile ms t file capacity zero rounds e short cut h1 h2 = absurd (omega arith)
  read_all-ReadFile ms t file capacity (suc calls) rounds e short cut h1 h2 =
      let start : Inv remaining (new file capacity) = record {
        inside = omega arith;
        fits = omega arith;
        at_end = λ h. absurd (cc);
      } in
      let k =
        read_on-ReadAll ms t 0 0 0 0 rounds calls rounds (new file capacity) short cut start
          (refl, refl, refl, refl) e h2 (omega arith) h2 in
      record {
        returned_all = k.returned_all;
        messages = k.counted.0 ∙ ap u64 {x = 0 + length ms} (omega arith);
        bytes = k.counted.1 ∙ ap u64 {x = 0 + length (frame ms)} (omega arith);
        unknown_types = k.counted.2 ∙ ap u64 {x = 0 + unknowns ms} (omega arith);
        length_mismatches = k.counted.3 ∙ ap u64 {x = 0 + mismatches ms} (omega arith);
        cut = k.cut;
      }
