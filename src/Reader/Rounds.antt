-- ===== src/Reader/Rounds.antt =====
-- The rounds of `next` of include/ItchParser.hpp.
use mini_hft.Base.{
  ℕ, suc, ◌+◌, ◌^◌, ◌≤◌, ◌<◌, ◌≡◌, refl, sym, ap, ◌∙◌, inl, inr, true, false, List, ◌++◌, length,
  take, drop, ltb, leb, Bool-cases, length-append, length-drop, drop-drop, drop-length-append,
  take-length-append, arith, leb→le, le→leb, lt→leb, lt→ltb,
}
use mini_hft.Itch.Bytes.{be16, bytes_at}
use mini_hft.Mold.Frame.{block}
use mini_hft.Reader.{ItchReader, judge, finished, judged, take_message, ensure, next_round}
use mini_hft.Reader.Ensure.{IsFile, stream, Inv, ensure-Ensured, SameCounts}
use mini_hft.Reader.Framing.{Cut-append, be16-stream, same_test, IsCut}
use mini_hft.Reader.Counters.{same_trans}

module _ {F : Type 0} (read : ℕ → F → List ℕ × F) (remaining : F → List ℕ)
    (laws : IsFile read remaining) where
  take_message-stream :
      (r : ItchReader F) (m rest : List ℕ)
      → Inv remaining r
      → stream remaining r ≡ block m ++ rest
      → 2 + length m ≤ length (drop r.start r.buffer)
      → (bytes_at r.buffer (r.start + 2) (length m) ≡ m)
        × Inv remaining (take_message (length m) r)
        × (stream remaining (take_message (length m) r) ≡ rest)
  unfolding take_message
  take_message-stream r m rest v e h =
      let c =
        Cut-append (drop r.start r.buffer) (remaining r.file) (block m) rest e (omega arith) in
      let two : 2 + length m ≡ suc (suc (length m)) = omega arith in
      let skip : drop (2 + length m) (block m ++ c.more) ≡ c.more =
        rw two (drop-length-append m c.more) in
      let body : drop (r.start + 2) r.buffer ≡ m ++ c.more =
        sym (drop-drop r.start 2 r.buffer) ∙ ap (drop 2) c.here in
      let behind : drop (r.start + (2 + length m)) r.buffer ≡ c.more =
        sym (drop-drop r.start (2 + length m) r.buffer) ∙ ap (drop (2 + length m)) c.here ∙ skip in
      (
        ap (take (length m)) body ∙ take-length-append m c.more,
        record {
          inside = omega (arith, length-drop r.start r.buffer, h);
          fits = v.fits;
          at_end = v.at_end;
        },
        ap (λ xs. xs ++ remaining r.file) behind ∙ c.there,
      )

  -- A round at a framed message takes it off the stream and judges it.
  pub record Taken (r : ItchReader F) (m rest : List ℕ) : Type 0 where
    pub after : ItchReader F
    pub round : next_round read r ≡ judged m (judge m) (take_message (length m) after)
    pub counts : SameCounts r after
    pub inv : Inv remaining (take_message (length m) after)
    pub left : stream remaining (take_message (length m) after) ≡ rest

  pub next_round-Taken :
      (r : ItchReader F) (m rest : List ℕ)
      → Inv remaining r
      → length m < 2 ^ 16
      → stream remaining r ≡ block m ++ rest
      → Taken r m rest
  unfolding next_round be16
  next_round-Taken r m rest v h e =
      let e1 = ensure-Ensured read remaining laws 2 r v in
      let r1 = (ensure read 2 r).1 in
      let size = ap length e ∙ length-append (block m) rest in
      let yes1 : (ensure read 2 r).0 ≡ true =
        e1.answer ∙ le→leb 2 (length (stream remaining r)) (omega arith) in
      let s1 = e1.same ∙ e in
      let len : be16 r1.buffer r1.start ≡ length m =
        be16-stream r1.buffer (remaining r1.file) (block m ++ rest) r1.start (e1.enough yes1) s1
        ∙ omega arith in
      let e2 = ensure-Ensured read remaining laws (2 + length m) r1 e1.inv in
      let r2 = (ensure read (2 + length m) r1).1 in
      let yes2 : (ensure read (2 + length m) r1).0 ≡ true =
        e2.answer
        ∙ le→leb (2 + length m) (length (stream remaining r1)) (omega (arith, ap length e1.same)) in
      let took = take_message-stream r2 m rest e2.inv (e2.same ∙ s1) (e2.enough yes2) in
      record {
        after = r2;
        round = rw (yes1, len, yes2, took.0) refl;
        counts = same_trans r r1 r2 e1.counts e2.counts;
        inv = took.1;
        left = took.2;
      }

  -- A round at the end of the input.
  pub record Over (r : ItchReader F) (t : List ℕ) : Type 0 where
    pub after : ItchReader F
    pub round : next_round read r ≡ finished after
    pub counts : SameCounts r after
    pub cut : after.truncated ≡ ltb 0 (length t)

  pub next_round-Over :
      (r : ItchReader F) (t : List ℕ)
      → Inv remaining r
      → IsCut t
      → stream remaining r ≡ t
      → Over r t
  unfolding next_round
  next_round-Over r t v h e =
      let e1 = ensure-Ensured read remaining laws 2 r v in
      let r1 = (ensure read 2 r).1 in
      let s1 = e1.same ∙ e in
      elim (Bool-cases (ensure read 2 r).0) [
        | inr short ↦
            let here : length (drop r1.start r1.buffer) ≡ length t = omega (
              arith,
              ap length s1,
              length-append (drop r1.start r1.buffer) (remaining r1.file),
              ap length (e1.over short),
            ) in
            record {
              after = record r1 { truncated = ltb r1.start (length r1.buffer) };
              round = rw short refl;
              counts = e1.counts;
              cut =
                  same_test r1.start (length r1.buffer) (length t)
                    (omega (arith, here, length-drop r1.start r1.buffer));
            }
        | inl yes1 ↦
            let len : be16 r1.buffer r1.start ≡ be16 t 0 =
              be16-stream r1.buffer (remaining r1.file) t r1.start (e1.enough yes1) s1 in
            let e2 = ensure-Ensured read remaining laws (2 + be16 t 0) r1 e1.inv in
            let r2 = (ensure read (2 + be16 t 0) r1).1 in
            let cut_off : (ensure read (2 + be16 t 0) r1).0 ≡ false =
              e2.answer
              ∙ ap (λ xs. leb (2 + be16 t 0) (length xs)) s1
              ∙ lt→leb (2 + be16 t 0) (length t) h in
            record {
              after = record r2 { truncated = true };
              round = rw (yes1, len, cut_off) refl;
              counts = same_trans r r1 r2 e1.counts e2.counts;
              cut = sym (
                  lt→ltb 0 (length t) (
                    omega (
                      arith,
                      leb→le 2 (length t)
                          (sym (ap (λ xs. leb 2 (length xs)) e) ∙ sym e1.answer ∙ yes1),
                    )));
            }
      ]
