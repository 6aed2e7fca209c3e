-- ===== src/Jit/Dequeue.antt =====
-- The contract of `jit_dequeue`.
use dragino_fwd_src_lps8_mqt.Base.{ℕ, ◌-◌, ◌≤◌, ◌<◌, ◌≡◌, ◌≢◌, refl, ◌∷◌, arith, get_or, take, some}
use mathlib.Core.List.{Permᴰ}
use dragino_fwd_src_lps8_mqt.Jit.Types.{ok, JitQueue, live, zero_node}
use dragino_fwd_src_lps8_mqt.Jit.Platform.{Platform}
use dragino_fwd_src_lps8_mqt.Jit.Queue.{jit_dequeue, jit_queue_is_empty, remove_node}
use dragino_fwd_src_lps8_mqt.Jit.Invariant.{IsValid}
use dragino_fwd_src_lps8_mqt.Jit.Removal.{
  remove-perm, remove-IsValid, remove_fields, remove_behind-perm,
}

module _ (platform : Platform) (q : JitQueue) where
  dequeue_runs :
      (index : ℕ)
      → q.num_pkt ≢ 0
      → index < 32
      → jit_dequeue platform q (some index) ≡ (
        ok,
        some ((get_or q.nodes index zero_node).pkt, (get_or q.nodes index zero_node).pkt_type),
        remove_node platform q index,
      )
  unfolding jit_dequeue jit_queue_is_empty
  dequeue_runs index h k = ground arith

  -- With the index of an entry in use, `jit_dequeue` returns the packet and the type of that
  -- entry; what is then in use are the other entries; the queue stays well formed.
  pub jit_dequeue_in_use :
      (index : ℕ)
      → IsValid q
      → index < q.num_pkt
      → let (status, out, q') = jit_dequeue platform q (some index) in
        let node = get_or q.nodes index zero_node in
        (status ≡ ok)
        × (out ≡ some (node.pkt, node.pkt_type))
        × Permᴰ (node ∷ live q') (live q)
        × IsValid q'
  jit_dequeue_in_use index v h = rw (dequeue_runs index (omega arith) (omega (arith, v.fits))) (
    refl,
    refl,
    remove-perm platform q index h v.fits (omega (arith, v.storage, v.fits)),
    remove-IsValid platform q index h v,
  )

  -- The index is not held against the number of entries. With one behind them, `jit_dequeue`
  -- reports success with whatever lies there, while the last entry in use leaves the queue and
  -- is not returned.
  pub jit_dequeue_stale :
      (index : ℕ)
      → IsValid q
      → 0 < q.num_pkt
      → q.num_pkt ≤ index
      → index < 32
      → let (status, out, q') = jit_dequeue platform q (some index) in
        (status ≡ ok)
        × (out
            ≡ some
                ((get_or q.nodes index zero_node).pkt, (get_or q.nodes index zero_node).pkt_type))
        × (q'.num_pkt ≡ q.num_pkt - 1)
        × Permᴰ (live q') (take (q.num_pkt - 1) (live q))
  jit_dequeue_stale index v pos behind below = rw (dequeue_runs index (omega arith) below) (
    refl,
    refl,
    (remove_fields platform q index pos v.fits).0,
    remove_behind-perm platform q index pos behind v.fits (omega (arith, v.storage, v.fits)),
  )
