-- ===== src/Reader/Counters.antt =====
-- What `next` of include/ItchParser.hpp counts.
use mini_hft.Base.{ℕ, ◌+◌, ◌≡◌, refl, ap, ◌∙◌, List, [], ◌∷◌, arith}
use mini_hft.Base.Words.{u64}
use mini_hft.Reader.{ItchReader, Verdict, good, unknown, mismatch, count_skipped, take_message}
use mini_hft.Reader.Kinds.{kind}
use mini_hft.Reader.Ensure.{SameCounts}

pub same_trans :
    {F : Type 0} (r r1 r2 : ItchReader F) → SameCounts r r1 → SameCounts r1 r2 → SameCounts r r2
same_trans r r1 r2 a b = (b.0 ∙ a.0, b.1 ∙ a.1, b.2 ∙ a.2, b.3 ∙ a.3)

-- The messages a reader is to return, and how many it is to skip for a reason.
abbrev pub put : Verdict → List ℕ → List (List ℕ) → List (List ℕ)
put good m ms = m ∷ ms
put unknown m ms = ms
put mismatch m ms = ms

abbrev pub accepted : List (List ℕ) → List (List ℕ)
accepted [] = []
accepted (m ∷ ms) = put (kind m) m (accepted ms)

abbrev pub is_unknown : Verdict → ℕ
is_unknown good = 0
is_unknown unknown = 1
is_unknown mismatch = 0

abbrev pub is_mismatch : Verdict → ℕ
is_mismatch good = 0
is_mismatch unknown = 0
is_mismatch mismatch = 1

abbrev pub unknowns : List (List ℕ) → ℕ
unknowns [] = 0
unknowns (m ∷ ms) = is_unknown (kind m) + unknowns ms

abbrev pub mismatches : List (List ℕ) → ℕ
mismatches [] = 0
mismatches (m ∷ ms) = is_mismatch (kind m) + mismatches ms

-- The counters of a reader, which wrap.
abbrev pub Counted : {F : Type 0} → ℕ → ℕ → ℕ → ℕ → ItchReader F → Type 0
Counted messages bytes unknown_types length_mismatches r =
    (r.messages ≡ u64 messages)
    × (r.bytes ≡ u64 bytes)
    × (r.unknown_types ≡ u64 unknown_types)
    × (r.length_mismatches ≡ u64 length_mismatches)

pub Counted-eq :
    {F : Type 0} (a a' b b' c c' d d' : ℕ) (r : ItchReader F)
    → Counted a b c d r
    → a ≡ a'
    → b ≡ b'
    → c ≡ c'
    → d ≡ d'
    → Counted a' b' c' d' r
Counted-eq a a' b b' c c' d d' r h p q s t =
    (h.0 ∙ ap u64 p, h.1 ∙ ap u64 q, h.2 ∙ ap u64 s, h.3 ∙ ap u64 t)

pub Counted-same :
    {F : Type 0} (a b c d : ℕ) (r r' : ItchReader F)
    → SameCounts r r'
    → Counted a b c d r
    → Counted a b c d r'
Counted-same a b c d r r' s h = (s.0 ∙ h.0, s.1 ∙ h.1, s.2 ∙ h.2, s.3 ∙ h.3)

pub Counted-take_message :
    {F : Type 0} (a b c d n : ℕ) (r : ItchReader F)
    → Counted a b c d r
    → Counted (a + 1) (b + (2 + n)) c d (take_message n r)
unfolding take_message
Counted-take_message a b c d n r h = (omega (arith, h.0), omega (arith, h.1), h.2, h.3)

pub Counted-count_skipped :
    {F : Type 0} (v : Verdict) (a b c d : ℕ) (r : ItchReader F)
    → Counted a b c d r
    → Counted a b (c + is_unknown v) (d + is_mismatch v) (count_skipped v r)
unfolding count_skipped
Counted-count_skipped good a b c d r h =
    Counted-eq a a b b c (c + 0) d (d + 0) r h refl refl (omega arith) (omega arith)
Counted-count_skipped unknown a b c d r h = (h.0, h.1, omega (arith, h.2), omega (arith, h.3))
Counted-count_skipped mismatch a b c d r h = (h.0, h.1, omega (arith, h.2), omega (arith, h.3))
