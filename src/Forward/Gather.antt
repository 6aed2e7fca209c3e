-- ===== src/Forward/Gather.antt =====
-- The turn of `thread_up`: what becomes of the packets of its three sources.
use dragino_fwd_src_lps8_mqt.Base.{
  ℕ, ◌+◌, ◌-◌, ◌%◌, ◌^◌, ◌<◌, ◌≤◌, ◌≡◌, refl, sym, ap, ◌⊎◌, inl, inr, Bool, true, false, List, [],
  ◌∷◌, ◌++◌, if◌then◌else◌, le→leb, gt→leb, length, arith, length-append, append-nil,
}
use dragino_fwd_src_lps8_mqt.Forward.{
  RxPktsList, Streams, hal_error, packets, outside, minus_one, holds, Turn, bad_access, quiet,
  no_memory, stored, append_packets, delay_room, receive, new_entry, store, from_ghost, from_delay,
  thread_up, insert_tail,
}

module _ {ℓ} {P : Type ℓ} where
  -- What is left of a source that a switch may turn off.
  abbrev pub enabled : Bool → List P → List P
  enabled on given = if on then given else []

  abbrev pub radio : Streams → List P → List P
  radio cfg pkts = enabled cfg.radiostream_enabled pkts

  -- The packets of the turn in the order of the array.
  abbrev pub gathered : Streams → List P → List P → (ℕ → List P) → List P
  gathered cfg pkts ghost delayed =
      let got = radio cfg pkts ++ enabled cfg.ghoststream_enabled ghost in
      got ++ enabled cfg.delay_enabled (delayed (10 - length got))

  append_packets-holds :
      (pkts given : List P)
      → length pkts + length given ≤ 32
      → append_packets (holds pkts) given ≡ holds (pkts ++ given)
  unfolding append_packets
  append_packets-holds pkts given h = rw (le→leb (length pkts + length given) 32 h) refl

  from_ghost-holds :
      (cfg : Streams) (pkts ghost : List P)
      → length pkts + length ghost ≤ 32
      → from_ghost cfg ghost (holds pkts) ≡ holds (pkts ++ enabled cfg.ghoststream_enabled ghost)
  from_ghost-holds cfg pkts ghost h =
      elim cfg.ghoststream_enabled
        as (λ on.
          (if on then append_packets (holds pkts) ghost else holds pkts)
          ≡ holds (pkts ++ enabled on ghost)) [
            | true ↦ append_packets-holds pkts ghost h
            | false ↦ ap holds (sym (append-nil pkts))
          ]

  from_delay-holds :
      (cfg : Streams) (pkts : List P) (delayed : ℕ → List P)
      → ((n : ℕ) → n ≤ 10 → length (delayed n) ≤ n)
      → length pkts ≤ 32
      → from_delay cfg delayed (holds pkts)
        ≡ holds (pkts ++ enabled cfg.delay_enabled (delayed (10 - length pkts)))
  unfolding delay_room
  from_delay-holds cfg pkts delayed d h =
      elim cfg.delay_enabled
        as (λ on.
          (if on then append_packets (holds pkts) (delayed (10 - length pkts)) else holds pkts)
          ≡ holds (pkts ++ enabled on (delayed (10 - length pkts)))) [
            | true ↦
                append_packets-holds pkts (delayed (10 - length pkts))
                  (omega (arith, d (10 - length pkts) (omega arith)))
            | false ↦ ap holds (sym (append-nil pkts))
          ]

  -- What a turn with these packets in the array comes to.
  abbrev pub Stores : Bool → (now n : ℕ) → List P → RxPktsList P → Turn P → Type ℓ
  Stores allocated now n [] l t = t ≡ quiet
  Stores true now n (p ∷ ps) l t =
      t
      ≡ stored (record {
        entries =
            l.entries
            ++ (record {
              entry_us = now;
              stamps = 0;
              nb_pkt = length (p ∷ ps);
              bind = n;
              rxpkt = p ∷ ps;
            }
                ∷ []);
        size = l.size + 1;
      })
  Stores false now n (p ∷ ps) l t = t ≡ no_memory

  length-enabled : (on : Bool) (xs : List P) → length (enabled on xs) ≤ length xs
  length-enabled true xs = omega arith
  length-enabled false xs = omega arith

  fetched-holds :
      (cfg : Streams) (pkts : List P)
      → (if cfg.radiostream_enabled then receive (packets pkts) else holds [])
        ≡ holds (radio cfg pkts)
  unfolding receive
  fetched-holds cfg pkts =
      elim cfg.radiostream_enabled
        as (λ on. (if on then receive (packets pkts) else holds []) ≡ holds (enabled on pkts)) [
          | true ↦ refl
          | false ↦ refl
        ]

  append_packets-outside :
      (pkts given : List P)
      → 32 < length pkts + length given
      → append_packets (holds pkts) given ≡ outside
  unfolding append_packets
  append_packets-outside pkts given h = rw (gt→leb (length pkts + length given) 32 h) refl

  outside-stays :
      (cfg : Streams) (now n : ℕ) (delayed : ℕ → List P) (l : RxPktsList P)
      → store true now n (from_delay cfg delayed outside) l ≡ bad_access
  unfolding store append_packets
  outside-stays cfg now n delayed l =
      elim cfg.delay_enabled
        as (λ on.
          store true now n
            (if on then append_packets outside (delayed (delay_room {P = P} outside)) else outside)
            l
          ≡ bad_access) [ true ↦ refl | false ↦ refl ]

  append_packets-lost :
      (given : List P)
      → (append_packets minus_one given ≡ minus_one) ⊎ (append_packets minus_one given ≡ outside)
  unfolding append_packets
  append_packets-lost [] = inl refl
  append_packets-lost (p ∷ given) = inr refl

  lost-stays :
      (on : Bool) (given : List P)
      → ((if on then append_packets minus_one given else minus_one) ≡ minus_one)
        ⊎ ((if on then append_packets minus_one given else minus_one) ≡ outside)
  lost-stays true given = append_packets-lost given
  lost-stays false given = inl refl

  error-stays :
      (cfg : Streams) (now n : ℕ) (ghost : List P) (delayed : ℕ → List P) (l : RxPktsList P)
      → store true now n (from_delay cfg delayed (from_ghost cfg ghost minus_one)) l ≡ bad_access
  unfolding store delay_room
  error-stays cfg now n ghost delayed l = elim (lost-stays cfg.ghoststream_enabled ghost) [
    | inl e ↦ elim (lost-stays cfg.delay_enabled (delayed 11)) [
      | inl e' ↦ rw (e, e') refl
      | inr e' ↦ rw (e, e') refl
    ]
    | inr e ↦ rw e (outside-stays cfg now n delayed l)
  ]

  store-holds :
      (allocated : Bool) (now n : ℕ) (all : List P) (l : RxPktsList P)
      → length all ≤ 32
      → Stores allocated now n all l (store allocated now n (holds all) l)
  unfolding store insert_tail new_entry
  store-holds allocated now n [] l h = refl
  store-holds true now n (p ∷ ps) l h =
      let small : length (p ∷ ps) ≡ length (p ∷ ps) % 2 ^ 8 = omega arith in rw (sym small) refl
  store-holds false now n (p ∷ ps) l h = refl

  -- When the packets of lgw_receive and ghost_get fit in the array of 32 together and delay_pkt_get respects the number it is asked for, a turn of thread_up appends one entry with the packets of the enabled sources in the order radio, ghost, delay, unstamped and to be taken by every running service; without packets it changes nothing, and without memory it loses them.
  pub thread_up-Stores :
      (cfg : Streams) (allocated : Bool) (now n : ℕ) (pkts ghost : List P) (delayed : ℕ → List P)
      (l : RxPktsList P)
      → length pkts + length ghost ≤ 32
      → ((m : ℕ) → m ≤ 10 → length (delayed m) ≤ m)
      → Stores allocated now n
          (gathered cfg pkts ghost delayed)
          l
          (thread_up cfg allocated now n (packets pkts) ghost delayed l)
  unfolding thread_up
  thread_up-Stores cfg allocated now n pkts ghost delayed l h d =
      let small = length-enabled cfg.radiostream_enabled pkts in
      let ghosts = length-enabled cfg.ghoststream_enabled ghost in
      let got = radio cfg pkts ++ enabled cfg.ghoststream_enabled ghost in
      let fits : length got ≤ 32 = omega (
        arith,
        small,
        ghosts,
        length-append (radio cfg pkts) (enabled cfg.ghoststream_enabled ghost),
      ) in
      let late = length-enabled cfg.delay_enabled (delayed (10 - length got)) in
      let total : length (gathered cfg pkts ghost delayed) ≤ 32 = omega (
        arith,
        late,
        d (10 - length got) (omega arith),
        length-append got (enabled cfg.delay_enabled (delayed (10 - length got))),
      ) in
      rw
        (
          fetched-holds cfg pkts,
          from_ghost-holds cfg (radio cfg pkts) ghost (omega (arith, small)),
          from_delay-holds cfg got delayed d fits,
        )
        (store-holds allocated now n (gathered cfg pkts ghost delayed) l total)

  -- When memory is given, a turn of thread_up reads or writes outside its array when lgw_receive failed, whatever the other sources give, and when the packets of lgw_receive and ghost_get are more than 32 together.
  pub thread_up-bad_access :
      (cfg : Streams) (now n : ℕ) (ghost : List P) (delayed : ℕ → List P) (l : RxPktsList P)
      → cfg.radiostream_enabled ≡ true
      → (thread_up cfg true now n hal_error ghost delayed l ≡ bad_access)
        × ((pkts : List P)
            → cfg.ghoststream_enabled ≡ true
            → 32 < length pkts + length ghost
            → thread_up cfg true now n (packets pkts) ghost delayed l ≡ bad_access)
  unfolding thread_up receive
  thread_up-bad_access cfg now n ghost delayed l on = (
    rw on (error-stays cfg now n ghost delayed l),
    (λ pkts g many.
        rw (on, g, append_packets-outside pkts ghost many) (outside-stays cfg now n delayed l)),
  )
