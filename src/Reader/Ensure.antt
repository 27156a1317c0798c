-- ===== src/Reader/Ensure.antt =====
-- `ensure` of include/ItchParser.hpp, over a file whose std::fread does as documented.
use mini_hft.Base.{
  ℕ, zero, suc, ◌+◌, ◌-◌, ◌≤◌, ◌<◌, ◌≡◌, refl, sym, ap, ◌∙◌, inl, inr, ◌⊎◌, Bool, true, false, List,
  [], ◌∷◌, ◌++◌, length, drop, ltb, leb, ◌==◌, ◌&&◌, not, if◌then◌else◌, Bool-cases, length-append,
  append_assoc, length-drop, arith, leb→le, le→leb, leb→lt, ==→eq,
}
use native.Mathlib.Decide.{ℕ_discrete}
use mini_hft.Reader.{ItchReader, fill, make_room, pending, ensure}

-- std::fread on a file whose unread bytes are `remaining`: it reads some of the next n bytes, in
-- order, and none of them only at the end.
pub record IsFile {F : Type 0} (read : ℕ → F → List ℕ × F) (remaining : F → List ℕ) : Type 0 where
  pub reads : (n : ℕ) (f : F) → remaining f ≡ (read n f).0 ++ remaining (read n f).1
  pub at_most : (n : ℕ) (f : F) → length (read n f).0 ≤ n
  pub ends : (n : ℕ) (f : F) → 0 < n → length (read n f).0 ≡ 0 → remaining f ≡ []

module _ {F : Type 0} (remaining : F → List ℕ) where
  -- The bytes that the reader has not returned or skipped.
  abbrev pub stream : ItchReader F → List ℕ
  stream r = drop r.start r.buffer ++ remaining r.file

  pub record Inv (r : ItchReader F) : Type 0 where
    pub inside : r.start ≤ length r.buffer
    pub fits : length r.buffer ≤ r.capacity
    pub at_end : r.eof ≡ true → remaining r.file ≡ []

-- The counters of the two readers agree.
abbrev pub SameCounts : {F : Type 0} → ItchReader F → ItchReader F → Type 0
SameCounts r r' =
    (r'.messages ≡ r.messages)
    × (r'.bytes ≡ r.bytes)
    × (r'.unknown_types ≡ r.unknown_types)
    × (r'.length_mismatches ≡ r.length_mismatches)

stop_cases :
    {R : Type 0} (a b : ℕ) (e : Bool)
    → (ltb a b && not e) ≡ false
    → (e ≡ true → R)
    → (b ≤ 0 + a) ⊎ R
stop_cases a b true h f = inr (f refl)
stop_cases a b false h f = inl (ground arith)

eof_cases :
    {R : Type 0} (a : ℕ) (e : Bool)
    → (a ≡ 0 → R)
    → (e ≡ true → R)
    → (if a == 0 then true else e) ≡ true
    → R
eof_cases a e f g h = elim (Bool-cases (a == 0)) [
  | inl y ↦ f (==→eq a 0 y)
  | inr n ↦ g (sym (ap (λ b. if b then true else e) n) ∙ h)
]

grown-capacity :
    (need c : ℕ)
    → (need ≤ (if ltb c need then need else c)) × (c ≤ (if ltb c need then need else c))
grown-capacity need c = (ground arith, ground arith)

append-eq-nil : {A : Type 0} (xs ys : List A) → xs ++ ys ≡ [] → ys ≡ []
append-eq-nil [] ys h = h
append-eq-nil (x ∷ xs) ys h = absurd (cc)

module _ {F : Type 0} (read : ℕ → F → List ℕ × F) (remaining : F → List ℕ)
    (laws : IsFile read remaining) where
  -- What the loop of `ensure` leaves of a reader whose bytes stand at the start of the buffer.
  record Filled (need : ℕ) (r r' : ItchReader F) : Type 0 where
    inv : Inv remaining r'
    at_start : r'.start ≡ 0
    same : r'.buffer ++ remaining r'.file ≡ r.buffer ++ remaining r.file
    done : (need ≤ length r'.buffer) ⊎ (remaining r'.file ≡ [])
    counts : SameCounts r r'

  stopped :
      (need : ℕ) (r : ItchReader F)
      → Inv remaining r
      → r.start ≡ 0
      → (need ≤ 0 + length r.buffer) ⊎ (remaining r.file ≡ [])
      → Filled need r r
  stopped need r v z enough = record {
    inv = v;
    at_start = z;
    same = refl;
    done = elim enough [ inl h ↦ inl (omega arith) | inr h ↦ inr h ];
    counts = (refl, refl, refl, refl);
  }

  fill-Filled :
      (fuel need : ℕ) (r : ItchReader F)
      → Inv remaining r
      → r.start ≡ 0
      → need ≤ r.capacity
      → (need ≤ fuel + length r.buffer) ⊎ (remaining r.file ≡ [])
      → Filled need r (fill read fuel need r)
  unfolding fill
  fill-Filled zero need r v z room enough = stopped need r v z enough
  fill-Filled (suc fuel) need r v z room enough =
      elim (Bool-cases (ltb (length r.buffer) need && not r.eof)) [
        | inr no_more ↦
            rw no_more
              (stopped need r v z (stop_cases (length r.buffer) need r.eof no_more v.at_end))
        | inl more ↦
            let small : length r.buffer < need = ground arith in
            let n : ℕ = r.capacity - length r.buffer in
            let got = read n r.file in
            let after : remaining r.file ≡ [] → remaining got.1 ≡ [] =
              λ e. append-eq-nil got.0 (remaining got.1) (sym (laws.reads n r.file) ∙ e) in
            let grown : (need ≤ suc fuel + length r.buffer) ⊎ (remaining r.file ≡ [])
                → (need ≤ fuel + length (r.buffer ++ got.0)) ⊎ (remaining got.1 ≡ []) =
              λ o. elim o [
                | inr e ↦ inr (after e)
                | inl h ↦ elim (ℕ_discrete (length got.0) 0) [
                  | yes e ↦ inr (after (laws.ends n r.file (omega (arith, z)) e))
                  | no e ↦ inl (omega (arith, length-append r.buffer got.0))
                ]
              ] in
            let again =
              fill-Filled fuel need
                (record r {
                  file = got.1;
                  buffer = r.buffer ++ got.0;
                  eof = if length got.0 == 0 then true else r.eof;
                })
                (record {
                  inside = omega (arith, z);
                  fits = omega (arith, laws.at_most n r.file, length-append r.buffer got.0, v.fits);
                  at_end =
                      eof_cases (length got.0) r.eof
                        (λ e. after (laws.ends n r.file (omega (arith, z)) e))
                        (λ e. after (v.at_end e));
                })
                z room (grown enough) in
            rw more (record {
              inv = again.inv;
              at_start = again.at_start;
              same =
                  again.same
                  ∙ append_assoc r.buffer got.0 (remaining got.1)
                  ∙ ap (◌++◌ r.buffer) (sym (laws.reads n r.file));
              done = again.done;
              counts = again.counts;
            })
      ]

  -- What `ensure` leaves of a reader.
  pub record Ensured (need : ℕ) (r : ItchReader F) (res : Bool × ItchReader F) : Type 0 where
    pub inv : Inv remaining res.1
    pub same : stream remaining res.1 ≡ stream remaining r
    pub answer : res.0 ≡ leb need (length (stream remaining r))
    pub enough : res.0 ≡ true → need ≤ length (drop res.1.start res.1.buffer)
    pub over : res.0 ≡ false → remaining res.1.file ≡ []
    pub counts : SameCounts r res.1

  drop-start : (xs : List ℕ) (n : ℕ) → ltb 0 n ≡ false → xs ≡ drop n xs
  drop-start xs zero h = refl
  drop-start xs (suc n) h = absurd (ground arith)

  make_room_buffer :
      (need : ℕ) (r : ItchReader F) → (make_room need r).buffer ≡ drop r.start r.buffer
  unfolding make_room
  make_room_buffer need r = elim (Bool-cases (ltb 0 r.start)) [
    | inl y ↦ ap (λ b. if b then drop r.start r.buffer else r.buffer) y
    | inr n ↦
        ap (λ b. if b then drop r.start r.buffer else r.buffer) n ∙ drop-start r.buffer r.start n
  ]

  make_room-Inv :
      (need : ℕ) (r : ItchReader F)
      → Inv remaining r
      → Inv remaining (make_room need r) × (need ≤ (make_room need r).capacity)
  unfolding make_room
  make_room-Inv need r v =
      let b = ap length (make_room_buffer need r) ∙ length-drop r.start r.buffer in
      let c = grown-capacity need r.capacity in
      (
        record { inside = omega arith; fits = omega (arith, v.fits, b, c.1); at_end = v.at_end },
        c.0,
      )

  -- What `ensure` answers when the loop has ended.
  filled-answer :
      (need : ℕ) (r r' : ItchReader F)
      → Filled need r r'
      → leb need (pending r') ≡ leb need (length (r.buffer ++ remaining r.file))
  filled-answer need r r' w =
      let l = sym (length-append r'.buffer (remaining r'.file)) ∙ ap length w.same in
      elim w.done [
        | inl enough ↦
            le→leb need (pending r') (omega (arith, w.at_start))
            ∙ sym (le→leb need (length (r.buffer ++ remaining r.file)) (omega arith))
        | inr over ↦ ap (leb need) (omega (arith, l, ap length over, w.at_start))
      ]

  filled-over :
      (need : ℕ) (r r' : ItchReader F)
      → Filled need r r'
      → leb need (pending r') ≡ false
      → remaining r'.file ≡ []
  filled-over need r r' w h = elim w.done [
    | inl enough ↦ absurd (omega (arith, leb→lt need (pending r') h, w.at_start))
    | inr over ↦ over
  ]

  -- `ensure` keeps the unread bytes and the counters, and answers whether there are as many unread
  -- bytes as are needed, in the buffer and the file together; if so, they are in the buffer.
  pub ensure-Ensured :
      (need : ℕ) (r : ItchReader F) → Inv remaining r → Ensured need r (ensure read need r)
  unfolding ensure make_room
  ensure-Ensured need r v = elim (Bool-cases (leb need (pending r))) [
    | inl there ↦ rw there (record {
      inv = v;
      same = refl;
      answer = sym (
          le→leb need (length (stream remaining r)) (
            omega (
              arith,
              leb→le need (pending r) there,
              length-append (drop r.start r.buffer) (remaining r.file),
              length-drop r.start r.buffer,
            )));
      enough = λ _. omega (arith, leb→le need (pending r) there, length-drop r.start r.buffer);
      over = λ h. absurd (cc);
      counts = (refl, refl, refl, refl);
    })
    | inr missing ↦
        let moved : ItchReader F = make_room need r in
        let mv = make_room-Inv need r v in
        let w = fill-Filled (suc need) need moved mv.0 refl mv.1 (inl (omega arith)) in
        let moved_out = fill read (suc need) need moved in
        let all : moved.buffer ++ remaining moved.file ≡ stream remaining r =
          ap (λ xs. xs ++ remaining r.file) (make_room_buffer need r) in
        let front : drop moved_out.start moved_out.buffer ≡ moved_out.buffer =
          ap (λ n. drop n moved_out.buffer) w.at_start in
        rw missing (record {
          inv = w.inv;
          same = ap (λ xs. xs ++ remaining moved_out.file) front ∙ w.same ∙ all;
          answer = filled-answer need moved moved_out w ∙ ap (λ xs. leb need (length xs)) all;
          over = λ h. filled-over need moved moved_out w h;
          enough = λ h. omega (arith, leb→le need (pending moved_out) h, ap length front);
          counts = w.counts;
        })
  ]
