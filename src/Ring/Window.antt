-- ===== src/Ring/Window.antt =====
-- The slots of include/RingBuffer.hpp that hold waiting values, as a list.
use mini_hft.Base.{
  ℕ, zero, suc, ◌+◌, ◌-◌, ◌%◌, ◌≤◌, ◌<◌, ◌≡◌, refl, sym, ◌∙◌, ap, List, [], ◌∷◌, ◌++◌, length,
  get_or, set, arith, get_or-set_ne, length-append, append_assoc,
}
use mini_hft.Base.Mask.{mod-ne}

-- The `n` slots from number `t` on, going round at `size`.
abbrev pub window {ℓ} : {A : Type ℓ} → ℕ → A → List A → ℕ → ℕ → List A
window size d buf t zero = []
window size d buf t (suc n) = get_or buf (t % size) d ∷ window size d buf (suc t) n

module _ {ℓ} {A : Type ℓ} (size : ℕ) (d : A) (buf : List A) where
  pub length-window : (t n : ℕ) → length (window size d buf t n) ≡ n
  length-window t zero = refl
  length-window t (suc n) = ap suc (length-window (suc t) n)

  window-suc :
      (t n : ℕ)
      → window size d buf t (suc n) ≡ window size d buf t n ++ get_or buf ((t + n) % size) d ∷ []
  window-suc t zero = let e : t + 0 ≡ t = omega arith in rw e refl
  window-suc t (suc n) =
      let e : t + suc n ≡ suc t + n = omega arith in
      rw e (ap (◌∷◌ (get_or buf (t % size) d)) (window-suc (suc t) n))

  -- A write to a slot outside the window.
  pub window-set :
      (h : ℕ) (x : A) (t n : ℕ)
      → t + n ≤ h
      → h < t + size
      → window size d (set buf (h % size) x) t n ≡ window size d buf t n
  window-set h x t zero lo hi = refl
  window-set h x t (suc n) lo hi = rw (
    get_or-set_ne buf (h % size) (t % size) x d
        (λ e. mod-ne size t h (omega arith) (omega arith) (sym e)),
    window-set h x (suc t) n (omega arith) (omega arith),
  )

  -- What has gone in is what has come out and then the window.
  abbrev pub Split : List A → List A → Type ℓ
  Split ins outs = ins ≡ outs ++ window size d buf (length outs) (length ins - length outs)

  pub Split-publish :
      (ins outs : List A)
      → length outs ≤ length ins
      → Split ins outs
      → Split (ins ++ get_or buf (length ins % size) d ∷ []) outs
  Split-publish ins outs le e =
      ap (λ l. l ++ x ∷ []) e
      ∙ (append_assoc outs (window size d buf t n) (x ∷ []) ∙ ap (◌++◌ outs) (tail_eq ∙ count_eq))
    where
      t : ℕ
      t = length outs

      n : ℕ
      n = length ins - length outs

      x : A
      x = get_or buf (length ins % size) d

      at : t + n ≡ length ins
      at = omega arith

      tail_eq : window size d buf t n ++ x ∷ [] ≡ window size d buf t (suc n)
      tail_eq = sym (rw (window-suc t n, at))

      count_eq : window size d buf t (suc n) ≡ window size d buf t (length (ins ++ x ∷ []) - t)
      count_eq = ap (window size d buf t) {x = suc n} (omega (arith, length-append ins (x ∷ [])))

  pub Split-consume :
      (ins outs : List A)
      → length outs < length ins
      → Split ins outs
      → Split ins (outs ++ get_or buf (length outs % size) d ∷ [])
  Split-consume ins outs lt e =
      e ∙ (ap (◌++◌ outs) open_eq ∙ (sym (append_assoc outs (x ∷ []) rest) ∙ shut))
    where
      t : ℕ
      t = length outs

      x : A
      x = get_or buf (length outs % size) d

      rest : List A
      rest = window size d buf (suc t) (length ins - suc t)

      open_eq : window size d buf t (length ins - t) ≡ x ∷ rest
      open_eq = let e : length ins - t ≡ suc (length ins - suc t) = omega arith in rw e

      shut :
          (outs ++ x ∷ []) ++ rest
          ≡ (outs ++ x ∷ [])
            ++ window size d buf (length (outs ++ x ∷ [])) (length ins - length (outs ++ x ∷ []))
      shut =
          let e : length (outs ++ x ∷ []) ≡ suc t = omega (arith, length-append outs (x ∷ [])) in
          rw e refl
