-- ===== src/Devices/KernelBypass.antt =====
-- The descriptor ring of include/KernelBypass.hpp, whose size is a parameter.
use mini_hft.Base.{
  ℕ, ◌+◌, ◌%◌, ◌<◌, ◌≡◌, refl, Bool, true, false, Option, none, some, List, length, set, get_or,
  if◌then◌else◌, arith, Bool-cases, inl, inr, sym, ap, ◌∙◌, get_or-set_ne, get_or-set_self,
  length-set,
}

pub record Descriptor : Type 0 where
  pub data_word : ℕ
  pub ready : Bool

pub record KernelBypass : Type 0 where
  pub rx_ring : List Descriptor
  pub head : ℕ

abbrev pub idle : Descriptor
idle = record { data_word = 0; ready = false }

abbrev pub descriptor_at : ℕ → KernelBypass → Descriptor
descriptor_at i k = get_or k.rx_ring i idle

unfoldable pub nic_receive : ℕ → ℕ → ℕ → KernelBypass → Bool × KernelBypass
nic_receive ring_size word slot k =
    let i = slot % ring_size in
    if (descriptor_at i k).ready
    then (false, k)
    else (true, record k { rx_ring = set k.rx_ring i (record { data_word = word; ready = true }) })

-- The word polled, or `none` for false.
unfoldable pub poll : ℕ → KernelBypass → Option ℕ × KernelBypass
poll ring_size k =
    let d = descriptor_at k.head k in
    if d.ready
    then (
      some d.data_word,
      record {
        rx_ring = set k.rx_ring k.head (record d { ready = false });
        head = (k.head + 1) % ring_size;
      },
    )
    else (none, k)

false-ne-true : false ≡ true → ⊥
false-ne-true e = ground arith

-- The card never writes over a packet that has not been polled, and a packet that it puts into the
-- free descriptor at the head of a ring of that size is what the next poll returns; the descriptor is then free
-- again and the head is the next one round the ring.
pub nic_receive-poll :
    (ring_size word slot j : ℕ) (k : KernelBypass)
    → length k.rx_ring ≡ ring_size
    → k.head < ring_size
    → ((descriptor_at j k).ready ≡ true
        → descriptor_at j (nic_receive ring_size word slot k).1 ≡ descriptor_at j k)
      × (slot % ring_size ≡ k.head
          → (descriptor_at k.head k).ready ≡ false
          → ((poll ring_size (nic_receive ring_size word slot k).1).0 ≡ some word)
            × ((descriptor_at k.head (poll ring_size (nic_receive ring_size word slot k).1).1).ready
                ≡ false)
            × ((poll ring_size (nic_receive ring_size word slot k).1).1.head
                ≡ (k.head + 1) % ring_size))
unfolding nic_receive poll
nic_receive-poll ring_size word slot j k size inside = (
  λ busy. elim (Bool-cases (descriptor_at (slot % ring_size) k).ready) [
    | inl y ↦ rw y refl
    | inr n ↦ rw n (
        get_or-set_ne k.rx_ring (slot % ring_size) j _ idle
          (λ e. false-ne-true (sym n ∙ ap (λ i. (descriptor_at i k).ready) e ∙ busy)))
  ],
  λ same free.
      let there : get_or (set k.rx_ring k.head (record { data_word = word; ready = true })) k.head
            idle
          ≡ record { data_word = word; ready = true } =
        get_or-set_self k.rx_ring k.head _ idle (omega (arith, size)) in
      rw (same, free, there)
        (
          refl,
          ap (λ d. d.ready)
              (get_or-set_self (set k.rx_ring k.head (record { data_word = word; ready = true }))
                k.head (record { data_word = word; ready = false }) idle
                (omega (
                  arith,
                  size,
                  length-set k.rx_ring k.head (record { data_word = word; ready = true }),
                ))),
          refl,
        ),
)
