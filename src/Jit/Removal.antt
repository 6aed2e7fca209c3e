-- ===== src/Jit/Removal.antt =====
-- Sorting and removal keep the queue well formed.
use dragino_fwd_src_lps8_mqt.Base.{
  ℕ, suc, ◌+◌, ◌-◌, ◌≤◌, ◌<◌, ◌≡◌, refl, ap, ◌∙◌, List, ◌∷◌, arith, length, take, drop, get_or, set,
  length-append, length-take, length-drop, length-set, take-append, take-take, take-set_of_le,
  Bool-cases, inl, inr, u8, ◌==◌,
}
use dragino_fwd_src_lps8_mqt.Base.Perms.{
  total, length-perm, total-perm, All-perm, Pairs-perm, perm_refl, perm_symm, swap_remove,
}
use mathlib.Core.List.{Permᴰ}
use dragino_fwd_src_lps8_mqt.Jit.Types.{Node, JitQueue, live, beacon_weight, zero_node}
use dragino_fwd_src_lps8_mqt.Jit.Platform.{Platform}
use dragino_fwd_src_lps8_mqt.Jit.Queue.{jit_sort_queue, swap_out, remove_node, compare}
use dragino_fwd_src_lps8_mqt.Jit.Invariant.{DelaysFit, Clear, Clear-symm, IsValid, total-beacon-le}

module _ (platform : Platform) where
  -- Sorting rearranges the entries in use and leaves the rest of the queue alone.
  pub sort-perm :
      (q : JitQueue)
      → q.num_pkt ≤ length q.nodes
      → Permᴰ (live (jit_sort_queue platform q)) (live q)
  unfolding jit_sort_queue
  sort-perm q h = elim (Bool-cases (q.num_pkt == 0)) [
    | inl e ↦ rw e (perm_refl (live q))
    | inr e ↦
        rw
          (
            e,
            take-append q.num_pkt (platform.qsort_r compare (live q)) (drop q.num_pkt q.nodes) (
                length-perm (platform.qsort_r_perm compare (live q))
                ∙ length-take q.num_pkt q.nodes
                ∙ omega arith),
          )
          (platform.qsort_r_perm compare (live q))
  ]

  pub sort_fields :
      (q : JitQueue)
      → ((jit_sort_queue platform q).num_pkt ≡ q.num_pkt)
        × ((jit_sort_queue platform q).num_beacon ≡ q.num_beacon)
        × (length (jit_sort_queue platform q).nodes ≡ length q.nodes)
  unfolding jit_sort_queue
  sort_fields q = ground (
    arith,
    length-append (platform.qsort_r compare (live q)) (drop q.num_pkt q.nodes),
    length-perm (platform.qsort_r_perm compare (live q)),
    length-take q.num_pkt q.nodes,
    length-drop q.num_pkt q.nodes,
  )

  live-swap_out :
      (q : JitQueue) (index : ℕ)
      → 0 < q.num_pkt
      → q.num_pkt ≤ 32
      → live (swap_out q index)
        ≡ take (q.num_pkt - 1) (
            set
              (set q.nodes index (get_or q.nodes (q.num_pkt - 1) zero_node))
              (q.num_pkt - 1)
              zero_node)
  unfolding swap_out
  live-swap_out q index h few = let e : u8 (q.num_pkt + 255) ≡ q.num_pkt - 1 = omega arith in rw e

  swap_out_fields :
      (q : JitQueue) (index : ℕ)
      → 0 < q.num_pkt
      → q.num_pkt ≤ 32
      → ((swap_out q index).num_pkt ≡ q.num_pkt - 1)
        × (length (swap_out q index).nodes ≡ length q.nodes)
  unfolding swap_out
  swap_out_fields q index h few = ground (
    arith,
    length-set q.nodes index (get_or q.nodes (u8 (q.num_pkt + 255)) zero_node),
    length-set (set q.nodes index (get_or q.nodes (u8 (q.num_pkt + 255)) zero_node))
        (u8 (q.num_pkt + 255)) zero_node,
  )

  -- What removal makes of the count and of the array's length.
  pub remove_fields :
      (q : JitQueue) (index : ℕ)
      → 0 < q.num_pkt
      → q.num_pkt ≤ 32
      → ((remove_node platform q index).num_pkt ≡ q.num_pkt - 1)
        × (length (remove_node platform q index).nodes ≡ length q.nodes)
  unfolding remove_node
  remove_fields q index h few =
      omega (arith, sort_fields (swap_out q index), swap_out_fields q index h few)

  -- The entry at `index` and the entries in use after its removal are those in use before.
  pub remove-perm :
      (q : JitQueue) (index : ℕ)
      → index < q.num_pkt
      → q.num_pkt ≤ 32
      → q.num_pkt ≤ length q.nodes
      → Permᴰ (get_or q.nodes index zero_node ∷ live (remove_node platform q index)) (live q)
  unfolding remove_node
  remove-perm q index h few room =
      Permᴰ.trans
        (Permᴰ.cons refl
          (sort-perm (swap_out q index) (omega (arith, swap_out_fields q index (omega arith) few))))
        (rw (live-swap_out q index (omega arith) few, whole)
          (swap_remove q.nodes index (q.num_pkt - 1) zero_node zero_node (omega arith)
            (omega arith)))
    where
      whole : live q ≡ take (suc (q.num_pkt - 1)) q.nodes
      whole = ap (λ n. take n q.nodes) {y = suc (q.num_pkt - 1)} (omega arith)

  -- With an index behind the entries in use, removal takes away the last of them.
  pub remove_behind-perm :
      (q : JitQueue) (index : ℕ)
      → 0 < q.num_pkt
      → q.num_pkt ≤ index
      → q.num_pkt ≤ 32
      → q.num_pkt ≤ length q.nodes
      → Permᴰ (live (remove_node platform q index)) (take (q.num_pkt - 1) (live q))
  unfolding remove_node
  remove_behind-perm q index pos behind few room =
      Permᴰ.trans (sort-perm (swap_out q index) (omega (arith, swap_out_fields q index pos few))) (
        rw
          (
            live-swap_out q index pos few,
            take-set_of_le m m moved zero_node (omega arith),
            take-set_of_le m index q.nodes (get_or q.nodes m zero_node) (omega arith),
            take-take m q.num_pkt q.nodes (omega arith),
          )
          (perm_refl (take m q.nodes)))
    where
      m : ℕ
      m = q.num_pkt - 1

      moved : List Node
      moved = set q.nodes index (get_or q.nodes m zero_node)

  remove-beacons :
      (q : JitQueue) (index : ℕ)
      → index < q.num_pkt
      → q.num_pkt ≤ 32
      → q.num_pkt ≤ length q.nodes
      → q.num_beacon ≡ total beacon_weight (live q)
      → (remove_node platform q index).num_beacon
        ≡ total beacon_weight (live (remove_node platform q index))
  unfolding remove_node swap_out
  remove-beacons q index h few room e = ground (
    arith,
    sort_fields (swap_out q index),
    total-perm beacon_weight (remove-perm q index h few room),
    total-beacon-le (live q),
    length-take q.num_pkt q.nodes,
  )

  -- Taking out an entry in use keeps the queue well formed.
  pub remove-IsValid :
      (q : JitQueue) (index : ℕ)
      → index < q.num_pkt
      → IsValid q
      → IsValid (remove_node platform q index)
  remove-IsValid q index h v = record {
    storage = (remove_fields q index (omega arith) v.fits).1 ∙ v.storage;
    fits = omega (arith, remove_fields q index (omega arith) v.fits);
    beacons = remove-beacons q index h v.fits (omega arith) v.beacons;
    delays = (All-perm DelaysFit (perm_symm rearranged) v.delays).1;
    spaced = (Pairs-perm Clear Clear-symm (perm_symm rearranged) v.spaced).1;
  }
    where
      rearranged :
          Permᴰ (get_or q.nodes index zero_node ∷ live (remove_node platform q index)) (live q)
      rearranged = remove-perm q index h v.fits (omega arith)
