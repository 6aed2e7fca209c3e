-- ===== src/Semtech/KeepAlive.antt =====
-- Which answers count, and what the next round makes of them.
use dragino_fwd_src_lps8_mqt.Base.{
  ℕ, ◌+◌, ◌^◌, ◌<◌, ◌≡◌, refl, sym, ap, ap₂, ◌∙◌, ◌⊎◌, inl, inr, Bool, true, false, ◌&&◌, List, [],
  ◌∷◌, Option, none, some, ◌==◌, leb, if◌then◌else◌, arith, length, u16, Bool-cases, ◌≢◌, ==_refl,
  ==_false,
}
use dragino_fwd_src_lps8_mqt.Jit.Platform.{Platform}
use dragino_fwd_src_lps8_mqt.Semtech.{pkt_pull_ack}
use dragino_fwd_src_lps8_mqt.Semtech.Txpk.{Txpk, Readers}
use dragino_fwd_src_lps8_mqt.Semtech.Downlink.{TxLimits, Downstream}
use dragino_fwd_src_lps8_mqt.Semtech.Pull.{
  Link, Listening, Event, Round, buff_down_size, byte, respects_protocol, acknowledge, respond,
  on_datagram, on_recv, on_event, goes_on, all_go_on, listen, start_listening, reconnect, poll,
}

-- A PULL_ACK with the token of the request.
abbrev pub is_answer : (token_h token_l : ℕ) → List ℕ → Bool
is_answer token_h token_l d =
    respects_protocol d
    && ((byte d 3 == pkt_pull_ack) && ((byte d 1 == token_h) && (byte d 2 == token_l)))

abbrev pub brings_answer : (token_h token_l : ℕ) → Option (List ℕ) → Bool
brings_answer token_h token_l none = false
brings_answer token_h token_l (some d) = is_answer token_h token_l d

abbrev pub any_answer : (token_h token_l : ℕ) → List Event → Bool
any_answer token_h token_l [] = false
any_answer token_h token_l (e ∷ es) =
    let rest = any_answer token_h token_l es in
    if brings_answer token_h token_l e.datagram then true else rest

-- The link after an answer, where none came before.
abbrev pub answered : Link → Link
answered k = record k { pull_ack = u16 (k.pull_ack + 1); autoquit_cnt = 0; online = true }

abbrev pub heard : (req_ack answer : Bool) → Link → Link
heard req_ack answer k = if req_ack then k else if answer then answered k else k

-- The link without `retry`, which the beacons change.
abbrev pub timeless : Link → Link
timeless k = record k { retry = 0 }

abbrev pub requested : Link → Link
requested k = record k { pull_send = u16 (k.pull_send + 1) }

-- Both counts agree, and there are both sockets.
pub record IsSynced (k : Link) : Type 0 where
  pub matched : k.pull_ack ≡ k.pull_send
  pub fits : k.pull_send < 2 ^ 16
  pub down : k.sock_down ≡ true
  pub up : k.sock_up ≡ true

-- Without a reason the connection stays.
reconnect-synced : (a b : Bool) (k : Link) → IsSynced k → reconnect a b k ≡ k
unfolding reconnect
reconnect-synced a b k h = rw (h.matched, ==_refl k.pull_send, h.down, h.up) refl

reconnect-missed :
    (a b : Bool) (k : Link)
    → k.pull_ack ≢ k.pull_send
    → reconnect a b k ≡ record k {
      pull_send = 0;
      pull_ack = 0;
      online = false;
      network_status = false;
      sock_down = a;
      sock_up = b;
    }
unfolding reconnect
reconnect-missed a b k h = rw (==_false k.pull_ack k.pull_send h) refl

-- What the next round makes of the link.
abbrev pub Continues : (opens_down opens_up answer : Bool) → Link → Type 0
Continues opens_down opens_up answer k =
    ((answer ≡ true) × IsSynced k × (k.online ≡ true) × (reconnect opens_down opens_up k ≡ k))
    ⊎ ((answer ≡ false)
        × (reconnect opens_down opens_up k ≡ record k {
          pull_send = 0;
          pull_ack = 0;
          online = false;
          network_status = false;
          sock_down = opens_down;
          sock_up = opens_up;
        }))

unanswered : (n : ℕ) → n < 2 ^ 16 → n ≢ u16 (n + 1)
unanswered n h e = omega arith

unmatched :
    (k k' : Link) → IsSynced k → timeless k' ≡ timeless (requested k) → k'.pull_ack ≢ k'.pull_send
unmatched k k' h same e =
    unanswered k.pull_send h.fits
      (sym h.matched ∙ sym (ap (λ k. k.pull_ack) same) ∙ e ∙ ap (λ k. k.pull_send) same)

answered-IsSynced :
    (k k' : Link) → IsSynced k → timeless k' ≡ answered (timeless (requested k)) → IsSynced k'
answered-IsSynced k k' h same = record {
  matched =
      ap (λ k. k.pull_ack) same
      ∙ ap (λ n. u16 (n + 1)) h.matched
      ∙ sym (ap (λ k. k.pull_send) same);
  fits = omega (arith, ap (λ k. k.pull_send) same);
  down = ap (λ k. k.sock_down) same ∙ h.down;
  up = ap (λ k. k.sock_up) same ∙ h.up;
}

-- The link of a request, by whether it was sent and whether an answer came.
settled :
    (sends answer came : Bool) (k k' : Link) (a b : Bool)
    → IsSynced k
    → timeless k'
      ≡ (if sends then heard false answer (timeless (requested k)) else timeless (requested k))
    → answer ≡ came
    → Continues a b (if sends then came else false) k'
settled false answer came k k' a b h link e =
    inr (refl, reconnect-missed a b k' (unmatched k k' h link))
settled true true true k k' a b h link e =
    let synced = answered-IsSynced k k' h link in
    inl (refl, synced, ap (λ k. k.online) link, reconnect-synced a b k' synced)
settled true false false k k' a b h link e =
    inr (refl, reconnect-missed a b k' (unmatched k k' h link))
settled true true false k k' a b h link e = absurd (cc e)
settled true false true k k' a b h link e = absurd (cc e)

module _ {M : Type 0} (platform : Platform) (limits : TxLimits) (readers : Readers M)
    (parse : List ℕ → Option (Txpk M)) where
  -- What an answer, or what else comes in, does to the link and to `req_ack`.
  abbrev Effect : (answer : Bool) → Listening → Listening → Type 0
  Effect answer l l' =
      (timeless l'.link ≡ heard l.req_ack answer (timeless l.link))
      × (l'.req_ack ≡ (if l.req_ack then true else answer))

  Effect-none : (l l' : Listening) → l'.link ≡ l.link → l'.req_ack ≡ l.req_ack → Effect false l l'
  Effect-none l l' link req = elim (Bool-cases l.req_ack) [
    | inl old ↦ rw old (ap timeless link, req ∙ old)
    | inr new ↦ rw new (ap timeless link, req ∙ new)
  ]

  acknowledge-Effect : (l : Listening) → Effect true l (acknowledge l)
  unfolding acknowledge
  acknowledge-Effect l = elim (Bool-cases l.req_ack) [
    | inl old ↦ rw old (refl, refl)
    | inr new ↦ rw new (refl, refl)
  ]

  respond-link :
      (now : ℕ) (d : List ℕ) (l : Listening)
      → (let l' = (respond platform limits readers parse now d l).1 in
          (l'.link ≡ l.link) × (l'.req_ack ≡ l.req_ack))
  unfolding respond
  respond-link now d l = elim (Bool-cases (leb buff_down_size (length d))) [
    | inl long ↦ rw long (refl, refl)
    | inr room ↦ rw room (refl, refl)
  ]

  on_datagram-Effect :
      (token_h token_l now : ℕ) (d : List ℕ) (l : Listening)
      → Effect
          (is_answer token_h token_l d)
          l
          (on_datagram platform limits readers parse token_h token_l now d l).1
  unfolding on_datagram
  on_datagram-Effect token_h token_l now d l = elim (Bool-cases (respects_protocol d)) [
    | inr bad ↦ rw (bad) (Effect-none l l refl refl)
    | inl good ↦ elim (Bool-cases (byte d 3 == pkt_pull_ack)) [
      | inr resp ↦
          let l' = (respond platform limits readers parse now d l).1 in
          let (same_link, same_ack) = respond-link now d l in
          rw (good, resp) (Effect-none l l' same_link same_ack)
      | inl ack ↦ elim (Bool-cases ((byte d 1 == token_h) && (byte d 2 == token_l))) [
        | inl same ↦ rw (good, ack, same) (acknowledge-Effect l)
        | inr other ↦ rw (good, ack, other) (Effect-none l l refl refl)
      ]
    ]
  ]

  on_recv-Effect :
      (token_h token_l now : ℕ) (o : Option (List ℕ)) (l : Listening)
      → Effect
          (brings_answer token_h token_l o)
          l
          (on_recv platform limits readers parse token_h token_l now o l).1
  on_recv-Effect token_h token_l now none l = Effect-none l l refl refl
  on_recv-Effect token_h token_l now (some d) l = on_datagram-Effect token_h token_l now d l

  on_event-Effect :
      (token_h token_l : ℕ) (e : Event) (l : Listening)
      → Effect
          (brings_answer token_h token_l e.datagram)
          l
          (on_event platform limits readers parse token_h token_l e l).1
  unfolding on_event
  on_event-Effect token_h token_l e l = on_recv-Effect token_h token_l e.now e.datagram _

  -- Two effects after one another.
  heard-heard :
      (req a b : Bool) (k : Link)
      → heard (if req then true else a) b (heard req a k) ≡ heard req (if a then true else b) k
  heard-heard true a b k = refl
  heard-heard false true b k = refl
  heard-heard false false b k = refl

  -- The link after listening, by an answer: any one, where the thread goes on.
  abbrev Heard : (token_h token_l : ℕ) → List Event → Listening → Type 0
  Heard token_h token_l es l =
      let (outcomes, l') = listen platform limits readers parse token_h token_l es l in
      (answer : Bool) × (timeless l'.link ≡ heard l.req_ack answer (timeless l.link))
      × (all_go_on outcomes ≡ true → answer ≡ any_answer token_h token_l es)

  listen-Heard :
      (token_h token_l : ℕ) (es : List Event) (l : Listening) → Heard token_h token_l es l
  unfolding listen
  listen-Heard token_h token_l [] l = (false, (Effect-none l l refl refl).0, λ on. refl)
  listen-Heard token_h token_l (e ∷ es) l =
      let (outcome, l') = on_event platform limits readers parse token_h token_l e l in
      let (answer, link, all) = listen-Heard token_h token_l es l' in
      let (first, req) = on_event-Effect token_h token_l e l in
      let here = brings_answer token_h token_l e.datagram in
      elim (Bool-cases (goes_on outcome)) [
        | inl on ↦ rw (on) (
          if here then true else answer,
          link
              ∙ ap₂ (λ b k. heard b answer k) req first
              ∙ heard-heard l.req_ack here answer (timeless l.link),
          λ rest. ap (λ b. if here then true else b) (all (rw on at rest)),
        )
        | inr over ↦ rw (over) (here, first, λ on. absurd (cc (over, on)))
      ]

  -- The link after a request, and whether an answer came.
  abbrev pub Polled : Round → Link → Downstream → Type 0
  Polled r k s =
      let (outcomes, k', s') = poll platform limits readers parse r k s in
      (answer : Bool) × (timeless k'
        ≡ (if r.sends then heard false answer (timeless (requested k)) else timeless (requested k)))
      × (all_go_on outcomes ≡ true → answer ≡ any_answer r.token_h r.token_l r.events)

  pub poll-Polled : (r : Round) (k : Link) (s : Downstream) → Polled r k s
  unfolding poll start_listening
  poll-Polled r k s = elim (Bool-cases r.sends) [
    | inl sent ↦
        rw (sent) (listen-Heard r.token_h r.token_l r.events (start_listening (requested k) s))
    | inr failed ↦ rw (failed) (any_answer r.token_h r.token_l r.events, refl, λ on. refl)
  ]

  -- From a connection whose requests are all answered, and where nothing in the round ends the process or writes outside of an array: a request that is sent and gets a PULL_ACK with its token, among whatever else comes in, leaves the gateway connected with equal counts, and the next round keeps the sockets; a request that is not sent, or gets no such answer, makes the next round open both sockets anew, take the service offline and start both counts at 0.
  pub poll-Continues :
      (r : Round) (k : Link) (s : Downstream) (opens_down opens_up : Bool)
      → IsSynced k
      → all_go_on (poll platform limits readers parse r k s).0 ≡ true
      → Continues opens_down opens_up
          (if r.sends then any_answer r.token_h r.token_l r.events else false)
          (poll platform limits readers parse r k s).1
  poll-Continues r k s a b h on =
      let (answer, link, all) = poll-Polled r k s in
      settled r.sends answer (any_answer r.token_h r.token_l r.events) k
        (poll platform limits readers parse r k s).1 a b h link (all on)
