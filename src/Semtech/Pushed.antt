-- ===== src/Semtech/Pushed.antt =====
-- What reaches the server, and which acknowledgement counts.
use dragino_fwd_src_lps8_mqt.Base.{
  ℕ, zero, suc, ◌≡◌, refl, ap, Bool, true, false, ◌&&◌, List, [], ◌∷◌, Option, none, some,
  if◌then◌else◌,
}
use dragino_fwd_src_lps8_mqt.Semtech.Compose.{datagram}
use dragino_fwd_src_lps8_mqt.Semtech.Push.{
  Recv, timeout, failure, received, is_push_ack, await_ack, Pushed, Network,
}

-- The first results, up to an error of the connection.
abbrev pub until_failure : ℕ → List Recv → List (List ℕ)
until_failure zero rs = []
until_failure (suc n) [] = []
until_failure (suc n) (timeout ∷ rs) = until_failure n rs
until_failure (suc n) (failure ∷ rs) = []
until_failure (suc n) (received d ∷ rs) = d ∷ until_failure n rs

abbrev pub any {ℓ} : {A : Type ℓ} → (A → Bool) → List A → Bool
any f [] = false
any f (x ∷ xs) = let rest = any f xs in if f x then true else rest

-- The thread takes a datagram as acknowledged exactly when one of the first results of recv, as many as it waits for and none behind an error of the connection, is a PUSH_ACK of the protocol's version with the token of the datagram.
pub await_ack-any :
    (n token_h token_l : ℕ) (rs : List Recv)
    → await_ack n token_h token_l rs ≡ any (is_push_ack token_h token_l) (until_failure n rs)
unfolding await_ack
await_ack-any zero token_h token_l rs = refl
await_ack-any (suc n) token_h token_l [] = refl
await_ack-any (suc n) token_h token_l (timeout ∷ rs) = await_ack-any n token_h token_l rs
await_ack-any (suc n) token_h token_l (failure ∷ rs) = refl
await_ack-any (suc n) token_h token_l (received d ∷ rs) =
    ap (λ b. if is_push_ack token_h token_l d then true else b) (await_ack-any n token_h token_l rs)

-- What a network lets through.
abbrev pub sent : Network → Option (List ℕ × Bool) → Option (List ℕ)
sent net none = none
sent net (some d) = if net.has_socket && net.sends then some d.0 else none

-- What the thread ends with for a datagram.
abbrev Reaches : Network → Option (List ℕ × Bool) → Pushed → Type 0
Reaches net d r = (r.datagram ≡ sent net d) × (r.report_ready ≡ false)
