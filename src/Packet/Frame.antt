-- ===== src/Packet/Frame.antt =====
-- `prepare_frame` writes a frame as the specification lays it out.
use dragino_fwd_src_lps8_mqt.Base.{
  ℕ, suc, ◌+◌, ◌/◌, ◌%◌, ◌<◌, ◌≤◌, ◌≡◌, refl, sym, ap, ◌∙◌, List, [], ◌∷◌, ◌++◌, length, take, set,
  arith, length-take, append_assoc, take-take, Option, none, some, ◌==◌, if◌then◌else◌, u8, Bool,
  true, false, append-nil,
}
use mathlib.Core.Path.{subst}
use dragino_fwd_src_lps8_mqt.Crypto.{Ciphers, lora_mac_compute_mic, lora_mac_payload_encrypt}
use dragino_fwd_src_lps8_mqt.Crypto.Sizes.{length-payload_encrypt, compute_mic_prefix}
use dragino_fwd_src_lps8_mqt.Mac.{f_opts_len, data_unconfirmed_down}
use dragino_fwd_src_lps8_mqt.Mac.Frames.{le2, le4}
use dragino_fwd_src_lps8_mqt.Packet.{
  DnPkt, DevInfo, down, options, header_value, control_value, put_header, put_options, put_mic,
  prepare_frame, copy_at, options_length,
}
use dragino_fwd_src_lps8_mqt.Packet.Writer.{Written, Written-set, Written-copy_at}

-- The bytes of the options.
abbrev pub option_bytes : Option (List ℕ) → ℕ → List ℕ
option_bytes none optlen = []
option_bytes (some fopt) optlen = take optlen fopt

-- The options fit the field for their length, and are there; the whole frame has at most 255 bytes.
abbrev pub OptionsFit : Option (List ℕ) → ℕ → Type 0
OptionsFit none optlen = Unit
OptionsFit (some fopt) optlen = (1 ≤ optlen) × (optlen ≤ 15) × (optlen ≤ length fopt)

abbrev pub opts : DnPkt → List ℕ
opts dn = option_bytes (options dn) dn.optlen

length-option_bytes :
    (o : Option (List ℕ)) (optlen : ℕ)
    → OptionsFit o optlen
    → (options_length o optlen ≡ length (option_bytes o optlen))
      × (length (option_bytes o optlen) ≤ 15)
length-option_bytes none optlen h = (refl, omega arith)
length-option_bytes (some fopt) optlen (some_opts, few, long) =
    (omega (arith, length-take optlen fopt), omega (arith, length-take optlen fopt))

control_size : (b : Bool) (n : ℕ) → n ≤ 15 → (128 + (if b then 32 else 0) + n) % 16 ≡ n
control_size true n h = omega arith
control_size false n h = omega arith

pub control_value-f_opts_len :
    (dn : DnPkt)
    → OptionsFit (options dn) dn.optlen
    → f_opts_len (control_value dn) ≡ length (opts dn)
unfolding control_value
control_value-f_opts_len dn h =
    let (size, few) = length-option_bytes (options dn) dn.optlen h in
    control_size (dn.ftype == data_unconfirmed_down) (options_length (options dn) dn.optlen)
      (omega (arith, size, few))
    ∙ size

put_header-Written :
    (dn : DnPkt) (dev : DevInfo) (cnt : ℕ) (f : List ℕ)
    → length f ≡ 256
    → Written
        (put_header dn dev cnt f)
        8
        (header_value dn ∷ le4 dev.devaddr ++ (control_value dn ∷ le2 cnt))
unfolding put_header
put_header-Written dn dev cnt f whole =
    let w0 =
      Written-set f 0 (header_value dn) [] (record { prefix = refl; whole = whole })
        (omega arith) in
    let w1 = Written-set _ 1 (dev.devaddr % 256) _ w0 (omega arith) in
    let w2 = Written-set _ 2 (dev.devaddr / 256 % 256) _ w1 (omega arith) in
    let w3 = Written-set _ 3 (dev.devaddr / 65536 % 256) _ w2 (omega arith) in
    let w4 = Written-set _ 4 (dev.devaddr / 16777216 % 256) _ w3 (omega arith) in
    let w5 = Written-set _ 5 (control_value dn) _ w4 (omega arith) in
    let w6 = Written-set _ 6 (cnt % 256) _ w5 (omega arith) in
    Written-set _ 7 (cnt / 256 % 256) _ w6 (omega arith)

put_options-Written :
    (o : Option (List ℕ)) (optlen : ℕ) (f head : List ℕ)
    → OptionsFit o optlen
    → Written f 8 head
    → (let (f', index) = put_options o optlen f in
        (index ≡ 7 + length (option_bytes o optlen))
        × Written f' (8 + length (option_bytes o optlen)) (head ++ option_bytes o optlen))
unfolding put_options
put_options-Written none optlen f head h w = (refl, rw (append-nil head) w)
put_options-Written (some fopt) optlen f head (some_opts, few, long) w =
    let size : length (take optlen fopt) ≡ optlen = omega (arith, length-take optlen fopt) in
    rw size (omega arith, Written-copy_at f 8 fopt optlen head w (omega arith) long)

four :
    (xs : List ℕ) (a b c d : ℕ)
    → (((xs ++ (a ∷ [])) ++ (b ∷ [])) ++ (c ∷ [])) ++ (d ∷ []) ≡ xs ++ (a ∷ b ∷ c ∷ d ∷ [])
four xs a b c d =
    ap (λ t. (t ++ (c ∷ [])) ++ (d ∷ [])) (append_assoc xs (a ∷ []) (b ∷ []))
    ∙ ap (λ t. t ++ (d ∷ [])) (append_assoc xs (a ∷ b ∷ []) (c ∷ []))
    ∙ append_assoc xs (a ∷ b ∷ c ∷ []) (d ∷ [])

put_mic-Written :
    (n mic : ℕ) (f bytes : List ℕ)
    → n + 4 ≤ 255
    → Written f n bytes
    → (let (f', size) = put_mic n mic f in (size ≡ n + 4) × Written f' (n + 4) (bytes ++ le4 mic))
unfolding put_mic
put_mic-Written n mic f bytes fits w =
    let e1 : u8 (n + 1) ≡ suc n = omega arith in
    let e2 : u8 (suc n + 1) ≡ suc (suc n) = omega arith in
    let e3 : u8 (suc (suc n) + 1) ≡ suc (suc (suc n)) = omega arith in
    let last : suc (suc (suc (suc n))) ≡ n + 4 = omega arith in
    let a = mic % 256 in
    let b = mic / 256 % 256 in
    let c = mic / 65536 % 256 in
    let d = mic / 16777216 % 256 in
    let w0 = Written-set f n a bytes w (omega arith) in
    let w1 = Written-set _ (suc n) b _ w0 (omega arith) in
    let w2 = Written-set _ (suc (suc n)) c _ w1 (omega arith) in
    let w3 = Written-set _ (suc (suc (suc n))) d _ w2 (omega arith) in
    rw (e1, e2, e3, sym last, sym (four bytes a b c d)) (omega arith, w3)

-- The bytes before the code.
abbrev pub body : DnPkt → DevInfo → ℕ → List ℕ → List ℕ
body dn dev cnt enc =
    (header_value dn ∷ le4 dev.devaddr ++ (control_value dn ∷ le2 cnt))
    ++ (opts dn ++ (dn.txport % 256 ∷ enc))

abbrev pub session_key : DnPkt → DevInfo → List ℕ
session_key dn dev = if dn.txport == 0 then dev.nwkskey else dev.appskey

layout :
    (head options : List ℕ) (port : ℕ) (enc : List ℕ)
    → ((head ++ options) ++ (port ∷ [])) ++ enc ≡ head ++ (options ++ (port ∷ enc))
layout head options port enc =
    append_assoc (head ++ options) (port ∷ []) enc ∙ append_assoc head options (port ∷ enc)

module _ (ciphers : Ciphers) where
  module _ (payload_block mic_block : List ℕ) (dn : DnPkt) (dev : DevInfo) (cnt : ℕ)
      (fresh f : List ℕ) where
    -- The encrypted payload and the code of the frame.
    abbrev pub encrypted : List ℕ
    encrypted =
        take dn.psize
          (lora_mac_payload_encrypt ciphers payload_block dn.payload dn.psize (session_key dn dev)
            dev.devaddr down cnt fresh).1

    abbrev pub frame_mic : ℕ
    frame_mic =
        (lora_mac_compute_mic ciphers mic_block (body dn dev cnt encrypted)
          (9 + length (opts dn) + dn.psize) dev.nwkskey dev.devaddr down cnt).1

    pub prepare_frame-Written :
        OptionsFit (options dn) dn.optlen
        → 13 + length (opts dn) + dn.psize ≤ 255
        → length fresh ≡ dn.psize
        → length f ≡ 256
        → (let (frame', size) = prepare_frame ciphers payload_block mic_block dn dev cnt fresh f in
            (size ≡ 13 + length (opts dn) + dn.psize)
            × Written frame'
                (13 + length (opts dn) + dn.psize)
                (body dn dev cnt encrypted ++ le4 frame_mic))
    unfolding prepare_frame
    prepare_frame-Written fit small fresh_long whole =
        let m = length (opts dn) in
        let head = header_value dn ∷ le4 dev.devaddr ++ (control_value dn ∷ le2 cnt) in
        let w0 = put_header-Written dn dev cnt f whole in
        let (at, w1) =
          put_options-Written (options dn) dn.optlen (put_header dn dev cnt f) head fit w0 in
        let e1 : u8 ((put_options (options dn) dn.optlen (put_header dn dev cnt f)).1 + 1) ≡ 8 + m =
          omega (arith, at) in
        let e2 : u8 (8 + m + 1) ≡ suc (8 + m) = omega arith in
        let e3 : u8 (suc (8 + m) + dn.psize) ≡ suc (8 + m) + dn.psize = omega arith in
        let w2 = Written-set _ (8 + m) (dn.txport % 256) _ w1 (omega arith) in
        let long =
          length-payload_encrypt ciphers (session_key dn dev) payload_block dn.payload dn.psize
            dev.devaddr down cnt fresh in
        let coded =
          (lora_mac_payload_encrypt ciphers payload_block dn.payload dn.psize (session_key dn dev)
            dev.devaddr down cnt fresh).1 in
        let w3 =
          Written-copy_at _ (suc (8 + m)) coded dn.psize _ w2 (omega arith) (omega (arith, long)) in
        let n = suc (8 + m) + dn.psize in
        let mic_at = λ (bytes : List ℕ).
          (lora_mac_compute_mic ciphers mic_block bytes n dev.nwkskey dev.devaddr down cnt).1 in
        let with_payload =
          copy_at
            (set (put_options (options dn) dn.optlen (put_header dn dev cnt f)).0 (8 + m)
              (dn.txport % 256))
            (suc (8 + m)) coded dn.psize in
        let w4 : Written with_payload n (body dn dev cnt encrypted) =
          subst (Written with_payload n) (layout head (opts dn) (dn.txport % 256) encrypted) w3 in
        let n_small : n < 256 = omega arith in
        let again : take n with_payload ≡ take n (body dn dev cnt encrypted) =
          sym (take-take n n with_payload (omega arith)) ∙ ap (take n) w4.prefix in
        let nine : n ≡ 9 + m + dn.psize = omega arith in
        let code : mic_at with_payload ≡ frame_mic =
          compute_mic_prefix ciphers mic_block with_payload (body dn dev cnt encrypted) n
            dev.nwkskey dev.devaddr down cnt n_small again
          ∙ ap
              (λ (k : ℕ).
                (lora_mac_compute_mic ciphers mic_block (body dn dev cnt encrypted) k dev.nwkskey
                  dev.devaddr down cnt).1)
              nine in
        let total : 13 + m + dn.psize ≡ n + 4 = omega arith in
        rw (e1, e2, e3, code, total)
          (put_mic-Written n frame_mic with_payload (body dn dev cnt encrypted) (omega arith) w4)
