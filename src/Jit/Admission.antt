-- ===== src/Jit/Admission.antt =====
-- What `jit_enqueue` does with a packet: the exact test, the queue after it, the invariant.
use dragino_fwd_src_lps8_mqt.Base.{
  ℕ, suc, ◌+◌, ◌^◌, ◌≤◌, ◌<◌, ◌≡◌, refl, ◌∙◌, ◌≢◌, true, false, List, [], ◌∷◌, arith, length, All,
  length-set, length-take, take-set, sub32, u8, if◌then◌else◌, none, some, ◌↔◌,
}
use dragino_fwd_src_lps8_mqt.Base.Perms.{total-perm, All-perm, Pairs-perm, perm_symm, perm_snoc}
use mathlib.Core.List.{Permᴰ}
use dragino_fwd_src_lps8_mqt.Jit.Types.{
  PktType, downlink_class_a, downlink_class_b, downlink_class_c, beacon, ok, TxPkt, Node, JitQueue,
  live, beacon_weight, is_beacon,
}
use dragino_fwd_src_lps8_mqt.Jit.Platform.{Platform}
use dragino_fwd_src_lps8_mqt.Jit.Queue.{jit_collision_test}
use dragino_fwd_src_lps8_mqt.Jit.Enqueue.{
  target_pre_delay, packet_pre_delay, packet_post_delay, first_collision, new_node, append_node,
  place_last, admit, is_class_a_or_b,
}
use dragino_fwd_src_lps8_mqt.Jit.Invariant.{DelaysFit, Clear, Clear-symm, IsValid, total-beacon-le}
use dragino_fwd_src_lps8_mqt.Jit.Removal.{sort-perm, sort_fields}

-- A smaller pre-delay of the first packet keeps the two apart.
collision_mono :
    (p1 pre pre' post1 p2 pre2 post2 : ℕ)
    → pre' ≤ pre
    → pre ≤ 3031500
    → post2 < 2 ^ 31
    → jit_collision_test p1 pre post1 p2 pre2 post2 ≡ false
    → jit_collision_test p1 pre' post1 p2 pre2 post2 ≡ false
unfolding jit_collision_test
collision_mono p1 pre pre' post1 p2 pre2 post2 h k l e = ground arith

pub target-le : (t : PktType) (n : Node) → 1500 ≤ n.pre_delay → target_pre_delay t n ≤ n.pre_delay
unfolding target_pre_delay
target-le downlink_class_a n h = ground arith
target-le downlink_class_b n h = ground arith
target-le downlink_class_c n h = ground arith
target-le beacon n h = ground arith

first_collision-none :
    (t : PktType) (count pre post : ℕ) (n : Node) (ns : List Node)
    → first_collision t count pre post (n ∷ ns) ≡ none
    → (jit_collision_test count pre post n.pkt.count_us (target_pre_delay t n) n.post_delay ≡ false)
      × (first_collision t count pre post ns ≡ none)
unfolding first_collision
first_collision-none t count pre post n ns h = ground arith

-- A node that passes criterion 3 keeps apart from every entry in use.
no_collision-Clear :
    (new : Node) (ns : List Node)
    → DelaysFit new
    → All DelaysFit ns
    → first_collision new.pkt_type new.pkt.count_us new.pre_delay new.post_delay ns ≡ none
    → All (Clear new) ns
no_collision-Clear new [] d ds h = tt
no_collision-Clear new (n ∷ ns) d ds h =
    let split =
      first_collision-none new.pkt_type new.pkt.count_us new.pre_delay new.post_delay n ns h in
    (
      collision_mono new.pkt.count_us new.pre_delay (target_pre_delay n.pkt_type new) new.post_delay
          n.pkt.count_us (target_pre_delay new.pkt_type n) n.post_delay
          (target-le n.pkt_type new d.pre_min) d.pre_max ds.0.post_max split.0,
      no_collision-Clear new ns d ds.1 split.1,
    )

first_collision_ne_ok :
    (t : PktType) (count pre post : ℕ) (ns : List Node)
    → first_collision t count pre post ns ≢ some ok
unfolding first_collision
first_collision_ne_ok t count pre post [] h = cc
first_collision_ne_ok t count pre post (n ∷ ns) h =
    ground (arith, first_collision_ne_ok t count pre post ns)

-- Criterion 3 for one entry: no collision with it.
abbrev pub Apart : PktType → (count pre post : ℕ) → Node → Type 0
Apart t count pre post n =
    jit_collision_test count pre post n.pkt.count_us (target_pre_delay t n) n.post_delay ≡ false

pub first_collision-none_iff :
    (t : PktType) (count pre post : ℕ) (ns : List Node)
    → (first_collision t count pre post ns ≡ none) ↔ All (Apart t count pre post) ns
unfolding first_collision
first_collision-none_iff t count pre post [] = (λ _. tt, λ _. refl)
first_collision-none_iff t count pre post (n ∷ ns) =
    let rest = first_collision-none_iff t count pre post ns in
    (
      λ h. let split = first_collision-none t count pre post n ns h in (split.0, rest.0 split.1),
      λ h. rw (h.0) (rest.1 h.1),
    )

-- The three criteria, written without the order of the tests.
abbrev pub Passes : JitQueue → ℕ → TxPkt → PktType → ℕ → Type 0
Passes q time_us p t post =
    (32500 < sub32 p.count_us time_us)
    × ((is_class_a_or_b t ≡ true) → sub32 p.count_us time_us ≤ 512000000)
    × All (Apart t p.count_us (packet_pre_delay t) post) (live q)

module _ (platform : Platform) where
  new_node-DelaysFit :
      (p : TxPkt) (q : TxPkt) (t : PktType)
      → packet_post_delay platform t p < 2 ^ 31
      → DelaysFit (new_node q t (packet_post_delay platform t p))
  unfolding new_node packet_pre_delay
  new_node-DelaysFit p q downlink_class_a short = ground arith
  new_node-DelaysFit p q downlink_class_b short = ground arith
  new_node-DelaysFit p q downlink_class_c short = ground arith
  new_node-DelaysFit p q beacon short = ground arith

  -- Appending puts the node among the entries in use and leaves out none.
  pub append-perm :
      (q : JitQueue) (n : Node)
      → q.num_pkt < 32
      → length q.nodes ≡ 32
      → Permᴰ (live (append_node platform q n)) (n ∷ live q)
  unfolding append_node place_last
  append-perm q n few room =
      Permᴰ.trans
        (sort-perm platform (place_last q n) (omega (arith, length-set q.nodes q.num_pkt n)))
        (rw (one_more, take-set q.num_pkt q.nodes n (omega arith)) (perm_snoc n (live q)))
    where
      one_more : u8 (q.num_pkt + 1) ≡ suc q.num_pkt
      one_more = omega arith

  append_fields :
      (q : JitQueue) (n : Node)
      → q.num_pkt < 32
      → ((append_node platform q n).num_pkt ≡ q.num_pkt + 1)
        × ((append_node platform q n).num_beacon
            ≡ (if is_beacon n.pkt_type then u8 (q.num_beacon + 1) else q.num_beacon))
        × (length (append_node platform q n).nodes ≡ length q.nodes)
  unfolding append_node place_last
  append_fields q n few =
      ground (arith, sort_fields platform (place_last q n), length-set q.nodes q.num_pkt n)

  -- Appending a node that keeps apart from the entries in use keeps the queue well formed.
  append-IsValid :
      (q : JitQueue) (n : Node)
      → q.num_pkt < 32
      → IsValid q
      → DelaysFit n
      → All (Clear n) (live q)
      → IsValid (append_node platform q n)
  append-IsValid q n few v d apart = record {
    storage = (append_fields q n few).2 ∙ v.storage;
    fits = omega (arith, append_fields q n few);
    beacons = ground (
      arith,
      append_fields q n few,
      v.beacons,
      total-perm beacon_weight rearranged,
      total-beacon-le (live q),
      length-take q.num_pkt q.nodes,
    );
    delays = All-perm DelaysFit (perm_symm rearranged) (d, v.delays);
    spaced = Pairs-perm Clear Clear-symm (perm_symm rearranged) (apart, v.spaced);
  }
    where
      rearranged : Permᴰ (live (append_node platform q n)) (n ∷ live q)
      rearranged = append-perm q n few v.storage

  -- A packet that passes criterion 3 can be appended.
  pub admitted-IsValid :
      (q : JitQueue) (p stamped : TxPkt) (t : PktType)
      → q.num_pkt < 32
      → IsValid q
      → packet_post_delay platform t p < 2 ^ 31
      → All
          (Apart t stamped.count_us (packet_pre_delay t) (packet_post_delay platform t p))
          (live q)
      → IsValid (append_node platform q (new_node stamped t (packet_post_delay platform t p)))
  unfolding new_node
  admitted-IsValid q p stamped t few v short h =
      let n = new_node stamped t (packet_post_delay platform t p) in
      append-IsValid q n few v (new_node-DelaysFit p stamped t short) (
        no_collision-Clear n (live q) (new_node-DelaysFit p stamped t short) v.delays (
          (first_collision-none_iff t stamped.count_us (packet_pre_delay t)
              (packet_post_delay platform t p) (live q)).1
            h))

  pub admit-Passes :
      (q : JitQueue) (time_us : ℕ) (p : TxPkt) (t : PktType) (post : ℕ)
      → Passes q time_us p t post
      → admit platform q time_us p t post ≡ (ok, append_node platform q (new_node p t post))
  unfolding admit
  admit-Passes q time_us p t post h =
      let free = (first_collision-none_iff t p.count_us (packet_pre_delay t) post (live q)).1 h.2 in
      ground arith

  pub admit_ok :
      (q : JitQueue) (time_us : ℕ) (p : TxPkt) (t : PktType) (post : ℕ)
      → (admit platform q time_us p t post).0 ≡ ok
      → Passes q time_us p t post
  unfolding admit
  admit_ok q time_us p t post h = (
    ground arith,
    λ ab. ground arith,
    (first_collision-none_iff t p.count_us (packet_pre_delay t) post (live q)).0
        (ground (arith, first_collision_ne_ok t p.count_us (packet_pre_delay t) post (live q))),
  )

  pub admit_fails :
      (q : JitQueue) (time_us : ℕ) (p : TxPkt) (t : PktType) (post : ℕ)
      → (admit platform q time_us p t post).0 ≢ ok
      → (admit platform q time_us p t post).1 ≡ q
  unfolding admit
  admit_fails q time_us p t post h = ground arith
