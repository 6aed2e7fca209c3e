-- ===== src/Semtech/Broken.antt =====
-- Packets that the loop gives up in the middle.
use dragino_fwd_src_lps8_mqt.Base.{
  max, ℕ, Bool, suc, ◌+◌, ◌≡◌, refl, sym, ap, ap₂, ◌∙◌, ◌≢◌, true, false, List, [], ◌∷◌, ◌++◌,
  Option, none, some, ◌==◌, if◌then◌else◌, arith, length, take, take-append, append_assoc, ==_false,
}
use dragino_fwd_src_lps8_mqt.Base.Text.{codes}
use mathlib.Core.Path.{fun_ext}
use dragino_fwd_src_lps8_mqt.Base64.{◌>>=◌}
use dragino_fwd_src_lps8_mqt.Service.{Key}
use dragino_fwd_src_lps8_mqt.Semtech.{LgwPktRx, StatUp, Serv, header, pkt_push_data}
use dragino_fwd_src_lps8_mqt.Semtech.Uplink.{unwrapped, count_received, count_forwarded}
use dragino_fwd_src_lps8_mqt.Semtech.Fields.{
  jver, tmst, chan, Wrote, goes, resets, ◌>>◌, Format, mod_lora, mod_fsk, object, modulation_text,
}
use dragino_fwd_src_lps8_mqt.Semtech.Datagram.{
  Composed, separator, add_object, forwards, serve_unwrapped, compose_rxpk, opened,
}
use dragino_fwd_src_lps8_mqt.Semtech.Compose.{kept, Writes, more, compose_rxpk-more}
use dragino_fwd_src_lps8_mqt.Semtech.Object.{IsKnownStatus, stat_known, Prints, wrote, wrote_time}

and_resets : {v w : Wrote} {a : List ℕ} → v ≡ goes a → w ≡ resets → (v >> w) ≡ resets
and_resets h k = ap₂ (λ x y. x >> y) h k

stops : {v : Wrote} (w : Wrote) → v ≡ resets → (v >> w) ≡ resets
stops w h = ap (λ x. x >> w) h

bind_assoc :
    {A B C : Type 0} (o : Option A) (f : A → Option B) (g : B → Option C)
    → ((o >>= f) >>= g) ≡ (o >>= (λ a. f a >>= g))
bind_assoc none f g = refl
bind_assoc (some a) f g = refl

-- A packet that is forwarded, with a modulation that is neither LoRa nor FSK.
pub record IsUnknown {F : Type 0} (p : LgwPktRx F) : Type 0 where
  pub known_status : IsKnownStatus p.status
  pub no_lora : p.modulation ≢ mod_lora
  pub no_fsk : p.modulation ≢ mod_fsk

module _ {F T : Type 0} (format : Format F T) (prints : Prints format) where
  open format use {snprintf, gps_time}

  object_resets : (p : LgwPktRx F) (now : T) → IsUnknown p → object format p now ≡ resets
  unfolding object modulation_text
  object_resets p now h =
      let modulation : modulation_text format p ≡ resets =
        rw (==_false p.modulation mod_lora h.no_lora, ==_false p.modulation mod_fsk h.no_fsk)
          refl in
      and_resets {a = codes "{"} refl (
        and_resets (wrote format prints (jver 1)) (
          and_resets (wrote format prints (tmst p.count_us)) (
            and_resets (wrote_time format prints gps_time p.count_us now) (
              and_resets (wrote format prints (chan p.if_chain p.rf_chain p.freq_hz p.modem_id))
                (and_resets (stat_known p.status h.known_status) (stops _ modulation))))))

  module _ (lgw_db_key_exist : Key → Bool) (serv : Serv) (tmp : List ℕ) where
    abbrev run : List (LgwPktRx F × T) → Composed → Option Composed
    run = compose_rxpk format lgw_db_key_exist serv tmp

    compose_rxpk-append :
        (ps qs : List (LgwPktRx F × T)) (c : Composed) → run (ps ++ qs) c ≡ (run ps c >>= run qs)
    unfolding compose_rxpk
    compose_rxpk-append [] qs c = refl
    compose_rxpk-append ((p, now) ∷ ps) qs c =
        ap
          (λ k. serve_unwrapped format lgw_db_key_exist serv tmp (unwrapped serv tmp p) now c >>= k)
          (fun_ext λ c'. compose_rxpk-append ps qs c')
        ∙ sym (
            bind_assoc
              (serve_unwrapped format lgw_db_key_exist serv tmp (unwrapped serv tmp p) now c)
              (λ c'. run ps c') (run qs))

    -- The packet `p`, which reaches the loop as `p'`, is forwarded.
    abbrev pub Forwarded : (p p' : LgwPktRx F) → Type 0
    Forwarded p p' =
        (unwrapped serv tmp p ≡ some p') × (forwards format lgw_db_key_exist serv tmp p' ≡ true)

    abbrev counted : LgwPktRx F → Composed → Composed
    counted p c = record c { stat_up = count_forwarded p.size (count_received p.status c.stat_up) }

    Forwarded-turn :
        (p p' : LgwPktRx F) (now : T) (c : Composed)
        → Forwarded p p'
        → serve_unwrapped format lgw_db_key_exist serv tmp (unwrapped serv tmp p) now c
          ≡ add_object (object format p' now) (counted p' c)
    unfolding serve_unwrapped
    Forwarded-turn p p' now c (e, f) =
        ap (λ o. serve_unwrapped format lgw_db_key_exist serv tmp o now c) e
        ∙ ap
            (λ b.
              if b
              then add_object (object format p' now) (counted p' c)
              else some (record c { stat_up = count_received p'.status c.stat_up }))
            f

    two_turns :
        (bad bad' good good' : LgwPktRx F) (now now' : T) (text : List ℕ) (c : Composed)
        → Forwarded bad bad'
        → IsUnknown bad'
        → Forwarded good good'
        → object format good' now' ≡ goes text
        → run ((bad, now) ∷ (good, now') ∷ []) c
          ≡ some (record {
            buff = take 21 c.buff ++ (separator c.pkt_in_dgram ++ text);
            pkt_in_dgram = suc c.pkt_in_dgram;
            stat_up = (counted good' (counted bad' c)).stat_up;
            highest = max c.highest (length (take 21 c.buff ++ (separator c.pkt_in_dgram ++ text)));
          })
    unfolding compose_rxpk add_object
    two_turns bad bad' good good' now now' text c f unknown g whole =
        let first =
          Forwarded-turn bad bad' now c f
          ∙ ap (λ w. add_object w (counted bad' c)) (object_resets bad' now unknown) in
        let c' = record (counted bad' c) { buff = take 21 c.buff } in
        let second =
          Forwarded-turn good good' now' c' g ∙ ap (λ w. add_object w (counted good' c')) whole in
        ap (λ o. o >>= (λ d. run ((good, now') ∷ []) d)) first
        ∙ ap (λ o. o >>= (λ d. run [] d)) second

    -- A packet of a modulation that is neither LoRa nor FSK, behind packets with whole objects, throws their objects away and not their number: the array then begins with the comma in front of the next object, which is no JSON, and the earlier packets are lost.
    pub compose_rxpk-unknown :
        (ps : List (LgwPktRx F × T)) (t : List ℕ) (ts : List (List ℕ))
        (bad bad' good good' : LgwPktRx F) (now now' : T) (text : List ℕ)
        (token_h token_l mac_h mac_l : ℕ) (stat_up : StatUp)
        → Writes format lgw_db_key_exist serv tmp
            (kept format lgw_db_key_exist serv tmp ps)
            (t ∷ ts)
        → Forwarded bad bad'
        → IsUnknown bad'
        → Forwarded good good'
        → object format good' now' ≡ goes text
        → (c : Composed) × (run
              (ps ++ ((bad, now) ∷ (good, now') ∷ []))
              (opened token_h token_l mac_h mac_l stat_up)
            ≡ some c)
          × (c.buff
              ≡ header pkt_push_data token_h token_l mac_h mac_l
                ++ (codes "{\"rxpk\":[" ++ (codes "," ++ text)))
          × (c.pkt_in_dgram ≡ length (t ∷ ts) + 1)
    unfolding opened header separator
    compose_rxpk-unknown ps t ts bad bad' good good' now now' text token_h token_l mac_h mac_l
          stat_up h f unknown g whole =
        let head = header pkt_push_data token_h token_l mac_h mac_l ++ codes "{\"rxpk\":[" in
        let n = length (t ∷ ts) in
        let (s, high, e, reach) =
          compose_rxpk-more format lgw_db_key_exist serv tmp ps (t ∷ ts)
            (opened token_h token_l mac_h mac_l stat_up) h in
        let later : (0 + length (t ∷ ts) == 0) ≡ false = ground arith in
        let second : separator (0 + length (t ∷ ts)) ≡ codes "," = rw later refl in
        let whole_run =
          compose_rxpk-append ps ((bad, now) ∷ (good, now') ∷ [])
            (opened token_h token_l mac_h mac_l stat_up)
          ∙ ap (λ o. o >>= run ((bad, now) ∷ (good, now') ∷ [])) e
          ∙ two_turns bad bad' good good' now now' text _ f unknown g whole in
        (
          _,
          whole_run,
          ap₂ (λ b k. b ++ (k ++ text)) (take-append 21 head (more 0 (t ∷ ts)) (omega arith)) second
              ∙ append_assoc (header pkt_push_data token_h token_l mac_h mac_l)
                  (codes "{\"rxpk\":[") (codes "," ++ text),
          omega arith,
        )
