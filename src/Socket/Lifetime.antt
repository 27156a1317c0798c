-- ===== src/Socket/Lifetime.antt =====
-- Programs that create, move and destroy sockets of include/UdpSocket.hpp.
use mini_hft.Base.{
  ℕ, zero, suc, ◌+◌, ◌-◌, ◌<◌, ◌≡◌, refl, ap, inl, inr, Bool, true, none, some, List, [], ◌∷◌,
  length, get_or, set, ltb, ◌==◌, ◌&&◌, if◌then◌else◌, Bool-cases, get_or-set_ne, length-set, arith,
}
use mini_hft.Socket.{UdpSocket, close, sender, receiver, move_construct, move_assign}
use mini_hft.Socket.Calls.{Kernel, Outcome, value, thrown}
use mini_hft.Socket.Ownership.{HasDescriptors, owns, owns_fd, result_owns, sender-receiver}

-- What a program does with its sockets, which are numbered.
pub data Action : Type 0 where
  makes_sender : List ℕ → ℕ → Bool → Action
  makes_receiver : List ℕ → ℕ → List ℕ → ℕ → Action
  moves_out : ℕ → Action
  assigns : ℕ → ℕ → Action
  destroys : ℕ → Action

abbrev no_socket : UdpSocket
no_socket = record { fd = none }

abbrev nth : List UdpSocket → ℕ → UdpSocket
nth xs i = get_or xs i no_socket

abbrev pub owned : List UdpSocket → ℕ → ℕ
owned [] x = 0
owned (s ∷ xs) x = owns s x + owned xs x

owned-set :
    (xs : List UdpSocket) (i x : ℕ) (s : UdpSocket)
    → i < length xs
    → owned (set xs i s) x + owns (nth xs i) x ≡ owned xs x + owns s x
owned-set [] i x s h = absurd (omega arith)
owned-set (y ∷ xs) zero x s h = omega arith
owned-set (y ∷ xs) (suc i) x s h = omega (arith, owned-set xs i x s (omega arith))

abbrev keep_result : Outcome UdpSocket → List UdpSocket → List UdpSocket
keep_result (value s) xs = s ∷ xs
keep_result (thrown e) xs = xs

module _ {W : Type 0} (k : Kernel W) where
  -- A new socket, if the call returns one, is put in front. An action on a socket that does not
  -- exist does nothing, and neither does the assignment of a socket to itself.
  abbrev pub perform : Action → List UdpSocket → W → List UdpSocket × W
  perform (makes_sender ip ttl loopback) xs w =
      let r = sender k ip ttl loopback w in (keep_result r.0 xs, r.1)
  perform (makes_receiver group port ip bytes) xs w =
      let r = receiver k group port ip bytes w in (keep_result r.0 xs, r.1)
  perform (moves_out i) xs w =
      let r = move_construct (nth xs i) in
      if ltb i (length xs) then (r.0 ∷ set xs i r.1, w) else (xs, w)
  perform (assigns i j) xs w =
      let r = move_assign k (i == j) (nth xs i) (nth xs j) w in
      if ltb i (length xs) && ltb j (length xs)
      then (if i == j then (set xs i r.0.0, r.1) else (set (set xs i r.0.0) j r.0.1, r.1))
      else (xs, w)
  perform (destroys i) xs w =
      let r = close k (nth xs i) w in if ltb i (length xs) then (set xs i r.0, r.1) else (xs, w)

  abbrev pub perform_all : List Action → List UdpSocket → W → List UdpSocket × W
  perform_all [] xs w = (xs, w)
  perform_all (a ∷ as') xs w = let r = perform a xs w in perform_all as' r.0 r.1

  -- The end of the scope of all sockets.
  abbrev pub destroy_all : List UdpSocket → W → W
  destroy_all [] w = w
  destroy_all (s ∷ xs) w = destroy_all xs (close k s w).1

module _ {W : Type 0} (k : Kernel W) (open_count : W → ℕ → ℕ)
    (laws : HasDescriptors k open_count) where
  -- The open descriptors are the program's `base` ones and those that its sockets own.
  abbrev Owned : (ℕ → ℕ) → List UdpSocket × W → Type 0
  Owned base p = (x : ℕ) → open_count p.1 x ≡ base x + owned p.0 x

  close-owns :
      (s : UdpSocket) (w : W) (x : ℕ) → open_count (close k s w).1 x ≡ open_count w x - owns s x
  unfolding close
  close-owns s w x =
      elim s.fd as (λ f. s.fd ≡ f → open_count (close k s w).1 x ≡ open_count w x - owns_fd f x) [
        | none ↦ λ e. rw (e, close) (omega arith)
        | some fd ↦ λ e. rw (e, close) (laws.close_closes fd w x)
      ]
        refl

  close-closed : (s : UdpSocket) (w : W) (x : ℕ) → owns (close k s w).0 x ≡ 0
  unfolding close
  close-closed s w x =
      elim s.fd as (λ f. s.fd ≡ f → owns (close k s w).0 x ≡ 0) [
        | none ↦ λ e. rw (e, close) refl
        | some fd ↦ λ e. rw (e, close) refl
      ]
        refl

  kept :
      (base : ℕ → ℕ) (o : Outcome UdpSocket) (xs : List UdpSocket) (w w' : W)
      → ((x : ℕ) → open_count w' x ≡ open_count w x + result_owns o x)
      → Owned base (xs, w)
      → Owned base (keep_result o xs, w')
  kept base (value s) xs w w' h v x = omega (arith, h x, v x)
  kept base (thrown e) xs w w' h v x = omega (arith, h x, v x)

  perform-Owned :
      (base : ℕ → ℕ) (a : Action) (xs : List UdpSocket) (w : W)
      → Owned base (xs, w)
      → Owned base (perform k a xs w)
  unfolding move_construct move_assign
  perform-Owned base (makes_sender ip ttl loopback) xs w v =
      kept base (sender k ip ttl loopback w).0 xs w (sender k ip ttl loopback w).1
        (λ x. (sender-receiver k open_count laws w x [] 0 ip ttl 0 loopback).0) v
  perform-Owned base (makes_receiver group port ip bytes) xs w v =
      kept base (receiver k group port ip bytes w).0 xs w (receiver k group port ip bytes w).1
        (λ x. (sender-receiver k open_count laws w x group port ip 0 bytes true).1) v
  perform-Owned base (moves_out i) xs w v = elim (Bool-cases (ltb i (length xs))) [
    | inl y ↦ rw y λ x. omega (arith, v x, owned-set xs i x (record { fd = none }) (ground arith))
    | inr n ↦ rw n v
  ]
  perform-Owned base (assigns i j) xs w v =
      elim (Bool-cases (ltb i (length xs) && ltb j (length xs))) [
        | inr n ↦ rw n v
        | inl y ↦ rw y (elim (Bool-cases (i == j)) [
          | inl e ↦ rw e λ x. omega (arith, v x, owned-set xs i x (nth xs i) (ground arith))
          | inr d ↦
              let a : UdpSocket = record { fd = (nth xs j).fd } in
              rw d λ x. omega (
                arith,
                v x,
                close-owns (nth xs i) w x,
                owned-set xs i x a (ground arith),
                owned-set (set xs i a) j x no_socket (ground (arith, length-set xs i a)),
                ap (λ s. owns s x) (get_or-set_ne xs i j a no_socket (ground arith)),
              )
        ])
      ]
  perform-Owned base (destroys i) xs w v = elim (Bool-cases (ltb i (length xs))) [
    | inl y ↦ rw y λ x. omega (
      arith,
      v x,
      close-owns (nth xs i) w x,
      close-closed (nth xs i) w x,
      owned-set xs i x (close k (nth xs i) w).0 (ground arith),
    )
    | inr n ↦ rw n v
  ]

  perform_all-Owned :
      (base : ℕ → ℕ) (actions : List Action) (xs : List UdpSocket) (w : W)
      → Owned base (xs, w)
      → Owned base (perform_all k actions xs w)
  perform_all-Owned base [] xs w v = v
  perform_all-Owned base (a ∷ actions) xs w v =
      let r = perform k a xs w in
      perform_all-Owned base actions r.0 r.1 (perform-Owned base a xs w v)

  destroy_all-Owned :
      (base : ℕ → ℕ) (xs : List UdpSocket) (w : W)
      → Owned base (xs, w)
      → (x : ℕ) → open_count (destroy_all k xs w) x ≡ base x
  destroy_all-Owned base [] w v x = omega (arith, v x)
  destroy_all-Owned base (s ∷ xs) w v x =
      destroy_all-Owned base xs (close k s w).1 (λ y. omega (arith, v y, close-owns s w y)) x

  -- Over the same system calls, whatever a program does with the sockets it makes, moves, assigns
  -- and destroys, the descriptors that are open are those that were open before and one for each
  -- socket that owns one, so two sockets own the same descriptor only if it is open twice; and when
  -- all sockets have been destroyed, exactly the descriptors from before are open.
  pub perform_all-destroy_all :
      (actions : List Action) (w : W) (x : ℕ)
      → let r = perform_all k actions [] w in
        (open_count r.1 x ≡ open_count w x + owned r.0 x)
        × (open_count (destroy_all k r.0 r.1) x ≡ open_count w x)
  perform_all-destroy_all actions w x =
      let v = perform_all-Owned (open_count w) actions [] w λ y. omega arith in
      let r = perform_all k actions [] w in (v x, destroy_all-Owned (open_count w) r.0 r.1 v x)
