-- ===== src/Semtech/Compose.antt =====
-- The datagram as a list of objects between commas.
use dragino_fwd_src_lps8_mqt.Base.{
  ℕ, suc, ◌+◌, ◌≡◌, refl, ◌≢◌, sym, ap, ◌∙◌, Bool, true, false, List, [], ◌∷◌, ◌++◌, Option, none,
  some, ◌==◌, if◌then◌else◌, arith, length, ap₂, take, take-append, length-append, max, ◌≤◌, ◌<◌,
  ◌-◌, append_assoc, append-nil,
}
use dragino_fwd_src_lps8_mqt.Base.Text.{codes}
use dragino_fwd_src_lps8_mqt.Base64.{◌>>=◌}
use dragino_fwd_src_lps8_mqt.Service.{Key}
use dragino_fwd_src_lps8_mqt.Semtech.{LgwPktRx, StatUp, Serv, header, pkt_push_data}
use dragino_fwd_src_lps8_mqt.Semtech.Uplink.{unwrapped, count_received, count_forwarded}
use dragino_fwd_src_lps8_mqt.Semtech.Fields.{goes, Format, object}
use dragino_fwd_src_lps8_mqt.Semtech.Datagram.{
  Composed, tx_buff_size, separator, add_object, forwards, serve_unwrapped, compose_rxpk, opened,
  close,
}

-- Texts between commas.
abbrev pub commas : List (List ℕ) → List ℕ
commas [] = []
commas (t ∷ []) = t
commas (t ∷ u ∷ ts) = t ++ (codes "," ++ commas (u ∷ ts))

-- The same behind `n` texts that are there already.
abbrev pub more : ℕ → List (List ℕ) → List ℕ
more n [] = []
more n (t ∷ ts) = (separator n ++ t) ++ more (suc n) ts

pub later : (n : ℕ) → (suc n == 0) ≡ false
later n = ground arith

more-commas :
    (n : ℕ) (t : List ℕ) (ts : List (List ℕ)) → more (suc n) (t ∷ ts) ≡ codes "," ++ commas (t ∷ ts)
unfolding separator
more-commas n t [] = rw (later n) (append-nil (codes "," ++ t))
more-commas n t (u ∷ ts) = rw (later n) (ap (λ x. (codes "," ++ t) ++ x) (more-commas (suc n) u ts))

more_zero : (ts : List (List ℕ)) → more 0 ts ≡ commas ts
unfolding separator
more_zero [] = refl
more_zero (t ∷ []) = append-nil t
more_zero (t ∷ u ∷ ts) = ap (λ x. t ++ x) (more-commas 0 u ts)

-- The members of the JSON object: the list of packets, unless it is empty, and the report.
abbrev pub rxpk : List (List ℕ) → List (List ℕ)
rxpk [] = []
rxpk (t ∷ ts) = (codes "\"rxpk\":[" ++ (commas (t ∷ ts) ++ codes "]")) ∷ []

abbrev pub report_member : Option (List ℕ) → List (List ℕ)
report_member none = []
report_member (some report) = report ∷ []

-- An object with these members behind the header, or nothing.
abbrev pub datagram : List ℕ → List (List ℕ) → Option (List ℕ × Bool)
datagram head [] = none
datagram head (m ∷ ms) = some (head ++ (codes "{" ++ (commas (m ∷ ms) ++ codes "}")), false)

-- `buff_up` has room for the datagram and its terminator.
abbrev pub Fits : Option (List ℕ × Bool) → Type 0
Fits none = Unit
Fits (some d) = length d.0 < tx_buff_size

module _ (head : List ℕ) (stat_up : StatUp) (highest : ℕ) where
  ended : (texts : List (List ℕ)) → Composed
  ended texts = record {
    buff = (head ++ codes "{\"rxpk\":[") ++ more 0 texts;
    pkt_in_dgram = length texts;
    stat_up = stat_up;
    highest = highest;
  }

  -- The text up to the packets' end, with what follows.
  ended_text :
      (t : List ℕ) (ts : List (List ℕ)) (end : List ℕ)
      → ((head ++ codes "{\"rxpk\":[") ++ more 0 (t ∷ ts)) ++ (codes "]" ++ end)
        ≡ head ++ (codes "{" ++ ((codes "\"rxpk\":[" ++ (commas (t ∷ ts) ++ codes "]")) ++ end))
  ended_text t ts end =
      append_assoc (head ++ codes "{\"rxpk\":[") (more 0 (t ∷ ts)) (codes "]" ++ end)
      ∙ append_assoc head (codes "{\"rxpk\":[") (more 0 (t ∷ ts) ++ (codes "]" ++ end))
      ∙ ap (λ x. head ++ (codes "{\"rxpk\":[" ++ x))
          (ap (λ x. x ++ (codes "]" ++ end)) (more_zero (t ∷ ts))
            ∙ sym (append_assoc (commas (t ∷ ts)) (codes "]") end))

  -- Without a packet the array is taken back.
  opening :
      take (length ((head ++ codes "{\"rxpk\":[") ++ []) - 8) ((head ++ codes "{\"rxpk\":[") ++ [])
      ≡ head ++ codes "{"
  opening =
      let whole : (head ++ codes "{\"rxpk\":[") ++ [] ≡ (head ++ codes "{") ++ codes "\"rxpk\":[" =
        append-nil (head ++ codes "{\"rxpk\":[")
        ∙ sym (append_assoc head (codes "{") (codes "\"rxpk\":[")) in
      ap (λ x. take (length x - 8) x) whole
      ∙ take-append (length ((head ++ codes "{") ++ codes "\"rxpk\":[") - 8) (head ++ codes "{")
          (codes "\"rxpk\":[")
          (omega (arith, length-append (head ++ codes "{") (codes "\"rxpk\":[")))

  close-datagram :
      (report : Option (List ℕ)) (texts : List (List ℕ))
      → report ≢ some []
      → close report (ended texts) ≡ datagram head (rxpk texts ++ report_member report)
  unfolding close ended
  close-datagram none [] h = refl
  close-datagram none (t ∷ ts) h =
      rw (later (length ts)) (ap (λ x. some (x, false)) (ended_text t ts (codes "}")))
  close-datagram (some []) texts h = absurd (h refl)
  close-datagram (some (r ∷ rs)) [] h =
      ap (λ x. some (x ++ ((r ∷ rs) ++ codes "}"), false)) opening
      ∙ ap (λ x. some (x, false)) (append_assoc head (codes "{") ((r ∷ rs) ++ codes "}"))
  close-datagram (some (r ∷ rs)) (t ∷ ts) h = rw (later (length ts)) (
      ap (λ x. some (x, false))
        (append_assoc ((head ++ codes "{\"rxpk\":[") ++ more 0 (t ∷ ts)) (codes "],")
            ((r ∷ rs) ++ codes "}")
          ∙ ended_text t ts (codes "," ++ ((r ∷ rs) ++ codes "}"))
          ∙ ap (λ x. head ++ (codes "{" ++ x))
              (sym (
                append_assoc (codes "\"rxpk\":[" ++ (commas (t ∷ ts) ++ codes "]"))
                  (codes "," ++ (r ∷ rs)) (codes "}")))))

  -- Where the datagram fits, the objects do.
  ended-highest :
      (report : Option (List ℕ)) (texts : List (List ℕ))
      → report ≢ some []
      → length head ≡ 12
      → highest ≤ max 21 (length (ended texts).buff)
      → Fits (close report (ended texts))
      → highest ≤ tx_buff_size
  unfolding close ended
  ended-highest report [] h twelve reach fits = omega (
    arith,
    reach,
    length-append (head ++ codes "{\"rxpk\":[") [],
    length-append head (codes "{\"rxpk\":["),
  )
  ended-highest none (t ∷ ts) h twelve reach fits =
      let buff = (ended (t ∷ ts)).buff in
      let room : length (buff ++ codes "]}") < tx_buff_size = rw (later (length ts)) at fits in
      omega (arith, reach, room, length-append buff (codes "]}"))
  ended-highest (some []) (t ∷ ts) h twelve reach fits = absurd (h refl)
  ended-highest (some (r ∷ rs)) (t ∷ ts) h twelve reach fits =
      let buff = (ended (t ∷ ts)).buff in
      let room : length ((buff ++ codes "],") ++ ((r ∷ rs) ++ codes "}")) < tx_buff_size =
        rw (later (length ts)) at fits in
      omega (
        arith,
        reach,
        room,
        length-append buff (codes "],"),
        length-append (buff ++ codes "],") ((r ∷ rs) ++ codes "}"),
      )

module _ {F T : Type 0} (format : Format F T) (lgw_db_key_exist : Key → Bool) (serv : Serv)
    (tmp : List ℕ) where
  -- The packets that get an object, as they are after the relay's header is taken off.
  abbrev pub kept_one : Option (LgwPktRx F) → T → List (LgwPktRx F × T) → List (LgwPktRx F × T)
  kept_one none now rest = rest
  kept_one (some p) now rest =
      if forwards format lgw_db_key_exist serv tmp p then (p, now) ∷ rest else rest

  abbrev pub kept : List (LgwPktRx F × T) → List (LgwPktRx F × T)
  kept [] = []
  kept ((p, now) ∷ ps) = kept_one (unwrapped serv tmp p) now (kept ps)

  -- Every packet that is kept writes its whole object.
  abbrev pub Writes : List (LgwPktRx F × T) → List (List ℕ) → Type 0
  Writes [] [] = Unit
  Writes [] (t ∷ ts) = ⊥
  Writes (q ∷ qs) [] = ⊥
  Writes (q ∷ qs) (t ∷ ts) = (object format q.0 q.1 ≡ goes t) × Writes qs ts

  -- A turn moves one text, if any, from those that remain to those that are written.
  abbrev Moves : List (LgwPktRx F × T) → List (List ℕ) → Composed → Option Composed → Type 0
  Moves rest texts c result =
      (texts' : List (List ℕ)) × (c' : Composed) × (result ≡ some c')
      × Writes rest texts'
      × (c'.buff ++ more c'.pkt_in_dgram texts' ≡ c.buff ++ more c.pkt_in_dgram texts)
      × (c'.pkt_in_dgram + length texts' ≡ c.pkt_in_dgram + length texts)
      × (c'.highest ≤ max c.highest (length (c.buff ++ more c.pkt_in_dgram texts)))

  serialize-kept :
      (b : Bool) (p : LgwPktRx F) (now : T) (rest : List (LgwPktRx F × T)) (texts : List (List ℕ))
      (c : Composed) (s s' : StatUp)
      → Writes (if b then (p, now) ∷ rest else rest) texts
      → Moves rest texts c (
          if b
          then add_object (object format p now) (record c { stat_up = s })
          else some (record c { stat_up = s' }))
  unfolding add_object
  serialize-kept false p now rest texts c s s' h =
      (texts, record c { stat_up = s' }, refl, h, refl, refl, omega arith)
  serialize-kept true p now rest [] c s s' h = absurd h
  serialize-kept true p now rest (t ∷ ts) c s s' h =
      let same =
        append_assoc c.buff (separator c.pkt_in_dgram ++ t) (more (suc c.pkt_in_dgram) ts) in
      (
        ts,
        record {
          buff = c.buff ++ (separator c.pkt_in_dgram ++ t);
          pkt_in_dgram = suc c.pkt_in_dgram;
          stat_up = s;
          highest = max c.highest (length (c.buff ++ (separator c.pkt_in_dgram ++ t)));
        },
        ap (λ w. add_object w (record c { stat_up = s })) h.0,
        h.1,
        same,
        omega arith,
        omega (
          arith,
          ap (λ (x : List ℕ). length x) same,
          length-append (c.buff ++ (separator c.pkt_in_dgram ++ t)) (more (suc c.pkt_in_dgram) ts),
        ),
      )

  serve_unwrapped-kept :
      (o : Option (LgwPktRx F)) (now : T) (rest : List (LgwPktRx F × T)) (texts : List (List ℕ))
      (c : Composed)
      → Writes (kept_one o now rest) texts
      → Moves rest texts c (serve_unwrapped format lgw_db_key_exist serv tmp o now c)
  unfolding serve_unwrapped
  serve_unwrapped-kept none now rest texts c h = (texts, c, refl, h, refl, refl, omega arith)
  serve_unwrapped-kept (some p) now rest texts c h =
      let received = count_received p.status c.stat_up in
      serialize-kept (forwards format lgw_db_key_exist serv tmp p) p now rest texts c
        (count_forwarded p.size received) received h

  pub compose_rxpk-more :
      (ps : List (LgwPktRx F × T)) (texts : List (List ℕ)) (c : Composed)
      → Writes (kept ps) texts
      → (s : StatUp) × (high : ℕ) × (compose_rxpk format lgw_db_key_exist serv tmp ps c
          ≡ some (record {
            buff = c.buff ++ more c.pkt_in_dgram texts;
            pkt_in_dgram = c.pkt_in_dgram + length texts;
            stat_up = s;
            highest = high;
          }))
        × (high ≤ max c.highest (length (c.buff ++ more c.pkt_in_dgram texts)))
  unfolding compose_rxpk
  compose_rxpk-more [] [] c h = (
    c.stat_up,
    c.highest,
    ap₂
        (λ (b : List ℕ) (n : ℕ).
          some (record { buff = b; pkt_in_dgram = n; stat_up = c.stat_up; highest = c.highest }))
        (sym (append-nil c.buff)) (omega arith),
    omega arith,
  )
  compose_rxpk-more [] (t ∷ ts) c h = absurd h
  compose_rxpk-more ((p, now) ∷ ps) texts c h =
      let (texts', c', turn, left, text, count, high') =
        serve_unwrapped-kept (unwrapped serv tmp p) now (kept ps) texts c h in
      let (s, high, rest, reach) = compose_rxpk-more ps texts' c' left in
      (
        s,
        high,
        ap (λ o. o >>= (λ c'. compose_rxpk format lgw_db_key_exist serv tmp ps c')) turn
            ∙ rest
            ∙ ap₂
                (λ (b : List ℕ) (n : ℕ).
                  some (record { buff = b; pkt_in_dgram = n; stat_up = s; highest = high }))
                text count,
        omega (arith, high', reach, ap (λ (x : List ℕ). length x) text),
      )

  -- Where every packet that is neither skipped nor filtered out writes its whole object, and a report that is ready has a text, the datagram is the header and one JSON object: its members are the list "rxpk" of the objects in the order of the packets, if there are any, and the report; with neither, nothing is sent. Where the datagram and its terminator fit into buff_up, the objects on the way fit as well.
  pub compose_rxpk-datagram :
      (ps : List (LgwPktRx F × T)) (texts : List (List ℕ)) (token_h token_l mac_h mac_l : ℕ)
      (stat_up : StatUp) (report : Option (List ℕ))
      → Writes (kept ps) texts
      → report ≢ some []
      → (c : Composed) × (compose_rxpk format lgw_db_key_exist serv tmp ps
            (opened token_h token_l mac_h mac_l stat_up)
          ≡ some c)
        × (c.pkt_in_dgram ≡ length texts)
        × (close report c
            ≡ datagram
                (header pkt_push_data token_h token_l mac_h mac_l)
                (rxpk texts ++ report_member report))
        × (Fits (close report c) → c.highest ≤ tx_buff_size)
  unfolding opened ended header
  compose_rxpk-datagram ps texts token_h token_l mac_h mac_l stat_up report h some_text =
      let head = header pkt_push_data token_h token_l mac_h mac_l in
      let (s, high, e, reach) =
        compose_rxpk-more ps texts (opened token_h token_l mac_h mac_l stat_up) h in
      (
        ended head s high texts,
        e
            ∙ ap (λ (n : ℕ). some (record (ended head s high texts) { pkt_in_dgram = n }))
                (omega arith),
        refl,
        close-datagram head s high report texts some_text,
        ended-highest head s high report texts some_text refl reach,
      )
