-- ===== src/Jit/Outcome.antt =====
-- The contract of `jit_enqueue`: when it accepts, what it leaves, that it keeps the invariant.
use dragino_fwd_src_lps8_mqt.Base.{
  ℕ, ◌^◌, ◌<◌, ◌≤◌, ◌≡◌, ◌≢◌, ◌∷◌, length, ap, arith, Bool-cases, inl, inr, ◌==◌, ◌⊎◌, ◌↔◌, ==_iff,
}
use mathlib.Core.List.{Permᴰ}
use dragino_fwd_src_lps8_mqt.Jit.Types.{PktType, ok, full, TxPkt, JitQueue, JitError-discrete, live}
use dragino_fwd_src_lps8_mqt.Jit.Platform.{Platform}
use dragino_fwd_src_lps8_mqt.Jit.Queue.{jit_queue_is_full}
use dragino_fwd_src_lps8_mqt.Jit.Enqueue.{
  packet_post_delay, new_node, append_node, admit, stamp_packet, jit_enqueue,
}
use dragino_fwd_src_lps8_mqt.Jit.Invariant.{IsValid}
use dragino_fwd_src_lps8_mqt.Jit.Admission.{
  Passes, admit-Passes, admit_ok, admit_fails, append-perm, admitted-IsValid,
}

module _ (platform : Platform) (q : JitQueue) (time_us : ℕ) (p : TxPkt) (t : PktType) where
  -- The packet that the checks see, and its post-delay.
  abbrev pub stamped : TxPkt
  stamped = stamp_packet platform q time_us p t

  abbrev pub post : ℕ
  post = packet_post_delay platform t p

  pub enqueue_full : q.num_pkt ≡ 32 → jit_enqueue platform q time_us p t ≡ (full, q, p)
  unfolding jit_enqueue jit_queue_is_full
  enqueue_full h = ground arith

  pub enqueue_room :
      q.num_pkt ≢ 32
      → jit_enqueue platform q time_us p t ≡ (
        (admit platform q time_us stamped t post).0,
        (admit platform q time_us stamped t post).1,
        stamped,
      )
  unfolding jit_enqueue jit_queue_is_full
  enqueue_room h = ground arith

  -- A packet that passes the criteria is appended, where there is room.
  pub enqueue_accepts :
      q.num_pkt ≢ 32
      → Passes q time_us stamped t post
      → jit_enqueue platform q time_us p t
        ≡ (ok, append_node platform q (new_node stamped t post), stamped)
  enqueue_accepts room passes =
      rw (enqueue_room room, admit-Passes platform q time_us stamped t post passes)

  enqueue_ok :
      (jit_enqueue platform q time_us p t).0 ≡ ok
      → (q.num_pkt ≢ 32) × Passes q time_us stamped t post
  enqueue_ok h = elim (Bool-cases (q.num_pkt == 32)) [
    | inl e ↦ absurd (cc (enqueue_full ((==_iff _ _).0 e)))
    | inr e ↦
        let room : q.num_pkt ≢ 32 = ground arith in
        (room, admit_ok platform q time_us stamped t post (rw (enqueue_room room) at h))
  ]

  enqueue_not_ok :
      (jit_enqueue platform q time_us p t).0 ≢ ok → (jit_enqueue platform q time_us p t).1 ≡ q
  enqueue_not_ok h = elim (Bool-cases (q.num_pkt == 32)) [
    | inl e ↦ rw (enqueue_full ((==_iff _ _).0 e))
    | inr e ↦
        let room : q.num_pkt ≢ 32 = ground arith in
        rw (enqueue_room room)
          (admit_fails platform q time_us stamped t post (rw (enqueue_room room) at h))
  ]

  -- `jit_enqueue` accepts a packet exactly when the queue has room and the packet, with the time
  -- that a class C downlink is given, passes the three criteria: later than 32500 microseconds from now; for
  -- class A and B at most 512 seconds from now; clear of every entry in use.
  pub jit_enqueue_ok_iff :
      ((jit_enqueue platform q time_us p t).0 ≡ ok)
      ↔ ((q.num_pkt ≢ 32) × Passes q time_us stamped t post)
  jit_enqueue_ok_iff = (enqueue_ok, λ h. ap (λ r. r.0) (enqueue_accepts h.0 h.1))

  -- An accepted packet is added to the entries in use and nothing else changes among them; a
  -- refused one leaves the whole queue as it was.
  pub jit_enqueue_effect :
      length q.nodes ≡ 32
      → q.num_pkt ≤ 32
      → (((jit_enqueue platform q time_us p t).0 ≡ ok)
          × Permᴰ (live (jit_enqueue platform q time_us p t).1) (new_node stamped t post ∷ live q))
        ⊎ (((jit_enqueue platform q time_us p t).0 ≢ ok)
            × ((jit_enqueue platform q time_us p t).1 ≡ q))
  jit_enqueue_effect room fits =
      elim (JitError-discrete (jit_enqueue platform q time_us p t).0 ok) [
        | yes e ↦
            let found = enqueue_ok e in
            inl (
              e,
              rw (enqueue_accepts found.0 found.1)
                  (append-perm platform q (new_node stamped t post) (omega (arith, found.0)) room),
            )
        | no ne ↦ inr (ne, enqueue_not_ok ne)
      ]

  -- Whatever `jit_enqueue` answers to a packet whose post-delay is less than 2^31 microseconds (a packet that takes less than 35 minutes on air, or a beacon), a well-formed queue stays well formed.
  pub jit_enqueue-IsValid :
      post < 2 ^ 31 → IsValid q → IsValid (jit_enqueue platform q time_us p t).1
  jit_enqueue-IsValid short v = elim (JitError-discrete (jit_enqueue platform q time_us p t).0 ok) [
    | yes e ↦
        let found = enqueue_ok e in
        rw (enqueue_accepts found.0 found.1) (
          admitted-IsValid platform q p stamped t (omega (arith, found.0, v.fits)) v short
            found.1.2)
    | no ne ↦ rw (enqueue_not_ok ne) v
  ]
